-- ===== src/Queue/Ops/Read.antt =====
-- Resume, PendingCount, Ack and Close (internal/coordinator/queue/queue.go).
use walkie.Prelude.{ℕ, String, true, Option, none, some, List, [], ◌∷◌, if◌then◌else◌}
use walkie.Wire.{Envelope}
use walkie.Queue.Tables.{
  Row, Tables, ensure_cursor, count_retained, select_after, count_after, advance_acked,
  delete_covered,
}
use walkie.Queue.Framing.{Codec, delivery_from_storage}
use walkie.Queue.Ops.Tx.{
  Faults, Result, Queue, Tx, ◌>>◌, exec, begin, ensuring, counting, advancing, committing,
  selecting, deleting, closed, storage, ok, err,
}
use walkie.Queue.Ops.Hold.{observe}

pub record Delivery : Type 0 where
  pub position : ℕ
  pub envelope : Envelope

abbrev pub deliverable : ℕ → Option Envelope → List Delivery → List Delivery
deliverable position none rest = rest
deliverable position (some env) rest = record { position = position; envelope = env } ∷ rest

-- The loop of Resume over the rows: an unreadable one is skipped.
unfoldable pub deliveries : Codec → List Row → List Delivery
deliveries codec [] = []
deliveries codec (row ∷ rows) =
    deliverable row.position (delivery_from_storage codec row.position row.body)
      (deliveries codec rows)

unfoldable pub resume : Codec → Faults → Queue → String → ℕ → Result (List Delivery)
resume codec fails q recipient after =
    if fails selecting
    then err (storage selecting)
    else ok (deliveries codec (select_after recipient after q.db))

unfoldable pub pending_count : Faults → Queue → String → ℕ → Result ℕ
pending_count fails q recipient after =
    if fails counting then err (storage counting) else ok (count_after recipient after q.db)

-- observeDepth: a failed count is a skipped sample.
abbrev pub observe_depth : Faults → String → Queue → Queue
observe_depth fails recipient q =
    if fails counting then q else observe (count_retained recipient q.db) q

unfoldable pub ack_tx : Faults → String → ℕ → Tx (Unit {0})
ack_tx fails recipient position = do
  exec fails begin (λ db. db)
  exec fails ensuring (ensure_cursor recipient)
  exec fails advancing (advance_acked recipient position)
  exec fails deleting (delete_covered recipient position)
  exec fails committing (λ db. db)

abbrev pub acked : Faults → String → Queue → Result (Unit {0} × Tables) → Result (Unit {0}) × Queue
acked fails recipient q (err e) = (err e, q)
acked fails recipient q (ok (u, db)) = (ok tt, observe_depth fails recipient (record q { db = db }))

unfoldable pub ack : Faults → Queue → String → ℕ → Result (Unit {0}) × Queue
unfolding ack_tx
ack fails q recipient position =
    if q.is_closed
    then (err closed, q)
    else acked fails recipient q (ack_tx fails recipient position q.db)

unfoldable pub close : Queue → Queue
close q = if q.is_closed then q else record q { is_closed = true; timer = none }
