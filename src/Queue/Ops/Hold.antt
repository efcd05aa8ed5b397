-- ===== src/Queue/Ops/Hold.antt =====
-- Enqueue and Deliver (internal/coordinator/queue/queue.go).
use walkie.Prelude.{
  ℕ, ◌+◌, ◌-◌, String, Bool, true, false, Option, none, some, ◌∷◌, leb, if◌then◌else◌,
}
use walkie.Wire.{Envelope, Payload, Bytes, direct_message}
use walkie.Queue.Tables.{
  Tables, ensure_cursor, count_retained, read_next, advance_next, insert_row, min_enqueued_at,
}
use walkie.Queue.Framing.{Codec, Seal, seal_for_storage}
use walkie.Queue.Ops.Tx.{
  Faults, Error, Result, Queue, Tx, ◌>>=◌, ◌>>◌, pure, refuse, exec?, exec, query, answer, written,
  begin, ensuring, counting, reading_cursor, advancing, inserting, committing, finding_earliest,
  capacity, closed, unsupported_payload, marshal_failed, seal_failed, ok, err,
}

-- The transaction of Enqueue: the position given and the count of retained rows before.
unfoldable pub enqueue_tx : Faults → ℕ → String → String → Bytes → ℕ → Tx (ℕ × ℕ)
enqueue_tx fails max_size recipient message_id body now = do
  exec fails begin (λ db. db)
  exec fails ensuring (ensure_cursor recipient)
  retained ← query fails counting (count_retained recipient)
  if leb max_size retained then refuse (capacity recipient max_size) else do
    position ← exec? fails reading_cursor (λ db. answer db (read_next recipient db))
    exec fails advancing (advance_next recipient)
    exec? fails inserting λ db. written (
        insert_row
          (record {
            recipient = recipient;
            position = position;
            message_id = message_id;
            body = body;
            enqueued_at = now;
          })
          db)
    exec fails committing (λ db. db)
    pure (position, retained)

-- rearmLocked: the deadline `delay` from now, where a deadline that has passed counts as now.
abbrev pub rearmed : Queue → ℕ → Option ℕ → Queue
rearmed q now none = record q { timer = none }
rearmed q now (some earliest) = record q {
  timer = some (record { deadline = now + (earliest + q.ttl - now); taken = false });
}

-- An unreadable table disarms the timer, as an empty one does.
unfoldable pub rearm_locked : Faults → ℕ → Queue → Queue
unfolding min_enqueued_at
rearm_locked fails now q =
    rearmed q now (if fails finding_earliest then none else min_enqueued_at q.db.inbox)

abbrev pub inc_size_cap : Queue → Error → Queue
inc_size_cap q (capacity r n) = record q {
  metrics = record q.metrics { size_cap = q.metrics.size_cap + 1 };
}
inc_size_cap q e = q

abbrev pub observe : ℕ → Queue → Queue
observe depth q = record q { metrics = record q.metrics { depths = depth ∷ q.metrics.depths } }

unfoldable pub enqueued : Faults → ℕ → Queue → Result ((ℕ × ℕ) × Tables) → Result ℕ × Queue
enqueued fails now q (err e) = (err e, inc_size_cap q e)
enqueued fails now q (ok ((position, retained), db)) =
    (ok position, observe (retained + 1) (rearm_locked fails now (record q { db = db })))

-- The part of Enqueue under q.mu.
unfoldable pub enqueue_body : Faults → ℕ → Queue → String → String → Bytes → Result ℕ × Queue
unfolding enqueue_tx enqueued rearm_locked
enqueue_body fails now q recipient message_id body =
    if q.is_closed
    then (err closed, q)
    else enqueued fails now q (enqueue_tx fails q.max_size recipient message_id body now q.db)

unfoldable pub enqueue_framed :
    Faults → ℕ → Queue → String → String → Option Bytes → Result ℕ × Queue
unfolding enqueue_body
enqueue_framed fails now q recipient message_id none = (err seal_failed, q)
enqueue_framed fails now q recipient message_id (some body) =
    enqueue_body fails now q recipient message_id body

unfoldable pub enqueue_marshalled :
    Option Seal → Faults → ℕ → Queue → String → String → Option Bytes → Result ℕ × Queue
unfolding enqueue_framed
enqueue_marshalled at_rest fails now q recipient message_id none = (err marshal_failed, q)
enqueue_marshalled at_rest fails now q recipient message_id (some marshalled) =
    enqueue_framed fails now q recipient message_id (seal_for_storage at_rest recipient marshalled)

unfoldable pub enqueue :
    Codec → Option Seal → Faults → ℕ → Queue → String → Envelope → Result ℕ × Queue
unfolding enqueue_marshalled
enqueue codec at_rest fails now q recipient env =
    enqueue_marshalled at_rest fails now q recipient env.message_id (codec.marshal env)

abbrev pub delivered : Result ℕ × Queue → Result (Unit {0}) × Queue
delivered (ok position, q) = (ok tt, q)
delivered (err e, q) = (err e, q)

abbrev pub is_direct : Payload → Bool
is_direct (direct_message dm) = true
is_direct _ = false

-- Deliver, the OfflineSink seam.
unfoldable pub deliver :
    Codec → Option Seal → Faults → ℕ → Queue → String → Envelope → Result (Unit {0}) × Queue
unfolding enqueue
deliver codec at_rest fails now q recipient env =
    if is_direct env.payload
    then delivered (enqueue codec at_rest fails now q recipient env)
    else (err unsupported_payload, q)
