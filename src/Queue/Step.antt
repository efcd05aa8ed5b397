-- ===== src/Queue/Step.antt =====
-- One operation on the queue, a restart of the process among them
-- (internal/coordinator/queue/queue.go).
use walkie.Prelude.{
  ℕ, ◌<◌, ◌≡◌, refl, ap, String, Bool, true, false, Option, List, [], ◌∷◌, arith, if◌then◌else◌,
  length, pos, inl, inr, ◌⊎◌, Option-cases,
}
use walkie.Wire.{Bytes, Envelope}
use walkie.Queue.Tables.{Tables, rows_of}
use walkie.Queue.Framing.{Codec, Seal, seal_for_storage}
use walkie.Queue.Ops.{
  Faults, Error, Result, ok, err, Queue, enqueue, enqueue_tx, enqueue_body, enqueued,
  enqueue_framed, enqueue_marshalled, closed, marshal_failed, seal_failed, ack, close, watch_turn,
  sweep, new_queue, take_fire, opened,
}
use walkie.Queue.Rows.{next_of}
use walkie.Queue.Sound.{IsSound, admitted, enqueue_tx-ok}
use walkie.Queue.Sweep.{sweep-IsSound, sweep-Kept}

pub data Op : Type 0 where
  enqueues : Faults → ℕ → String → Envelope → Op
  acks : Faults → String → ℕ → Op
  turns : Faults → ℕ → Op
  closes : Op
  -- The process stops and a new one opens the same tables under the same bounds.
  restarts : Faults → ℕ → Op

-- A start that fails leaves the tables to the next one.
abbrev reopened : Queue → Result Queue → Queue
reopened q (ok q') = q'
reopened q (err e) = q

unfoldable pub apply : Codec → Option Seal → Queue → Op → Queue
apply codec at_rest q (enqueues fails now r env) = (enqueue codec at_rest fails now q r env).1
apply codec at_rest q (acks fails r p) = (ack fails q r p).1
apply codec at_rest q (turns fails now) = watch_turn fails now q
apply codec at_rest q closes = close q
apply codec at_rest q (restarts fails now) =
    reopened q (new_queue fails now q.db (pos q.ttl) (pos q.max_size))

unfoldable pub run : Codec → Option Seal → Queue → List Op → Queue
run codec at_rest q [] = q
run codec at_rest q (op ∷ ops) = run codec at_rest (apply codec at_rest q op) ops

-- What an Enqueue does to the tables: nothing, or the admission under the next position.
abbrev Outcome : Queue → String → String → ℕ → Result ℕ × Queue → Type 0
Outcome q r mid now out =
    ((e : Error) × (out.0 ≡ err e) × (out.1.db ≡ q.db))
    ⊎ ((body : Bytes) × (out.0 ≡ ok (next_of r q.db))
        × (length (rows_of r q.db.inbox) < q.max_size)
        × (out.1.db ≡ admitted r mid body now q.db))

enqueue_body-Outcome :
    (fails : Faults) (now : ℕ) (q : Queue) (r mid : String) (body : Bytes)
    → Outcome q r mid now (enqueue_body fails now q r mid body)
unfolding enqueue_body
enqueue_body-Outcome fails now q r mid body =
    unless q.is_closed _ (go (enqueue_tx fails q.max_size r mid body now q.db) refl)
  where
    unless :
        (c : Bool) (out : Result ℕ × Queue)
        → Outcome q r mid now out
        → Outcome q r mid now (if c then (err closed, q) else out)
    unless true out o = inl (closed, refl, refl)
    unless false out o = o

    go :
        (res : Result ((ℕ × ℕ) × Tables))
        → enqueue_tx fails q.max_size r mid body now q.db ≡ res
        → Outcome q r mid now (enqueued fails now q res)
    go (err e) h = inl (e, refl, ground arith)
    go (ok ((p, n), db)) h =
        let (position, count, room, tables) =
          enqueue_tx-ok fails q.max_size r mid body now q.db h in
        inr (body, ap ok position, room, ground arith)

pub enqueue-Outcome :
    (codec : Codec) (at_rest : Option Seal) (fails : Faults) (now : ℕ) (q : Queue) (r : String)
    (env : Envelope)
    → Outcome q r env.message_id now (enqueue codec at_rest fails now q r env)
unfolding enqueue enqueue_framed enqueue_marshalled
enqueue-Outcome codec at_rest fails now q r env = elim (Option-cases (codec.marshal env)) [
  | inl lost ↦ inl (marshal_failed, rw lost, rw lost)
  | inr (b, marshalled) ↦ elim (Option-cases (seal_for_storage at_rest r b)) [
    | inl unsealed ↦ inl (seal_failed, rw (marshalled, unsealed), rw (marshalled, unsealed))
    | inr (body, rests) ↦
        rw (marshalled, rests) (enqueue_body-Outcome fails now q r env.message_id body)
  ]
]

pub new_queue-Kept :
    (fails : Faults) (now : ℕ) (q q' : Queue)
    → new_queue fails now q.db (pos q.ttl) (pos q.max_size) ≡ ok q'
    → (q'.max_size ≡ q.max_size)
      × (q'.db.cursors ≡ q.db.cursors)
      × (IsSound q.max_size q.db → IsSound q.max_size q'.db)
unfolding new_queue
new_queue-Kept fails now q q' h =
    let start : Queue = opened q.db q.ttl q.max_size in
    let e : (sweep fails now start).1 ≡ q' = ground arith in
    let (cursors, size, _) = sweep-Kept fails now start in
    rw (← e) (size, cursors, sweep-IsSound fails q.max_size now start)

pub max_size-enqueue :
    (codec : Codec) (at_rest : Option Seal) (fails : Faults) (now : ℕ) (q : Queue) (r : String)
    (env : Envelope)
    → (enqueue codec at_rest fails now q r env).1.max_size ≡ q.max_size
unfolding enqueue
max_size-enqueue codec at_rest fails now q r env = ground arith

pub max_size-ack :
    (fails : Faults) (q : Queue) (r : String) (p : ℕ) → (ack fails q r p).1.max_size ≡ q.max_size
unfolding ack
max_size-ack fails q r p = ground arith

abbrev pub turned : Queue → Queue
turned q = record q { timer = take_fire q.timer }

pub watch_turn-cases :
    (fails : Faults) (now : ℕ) (q : Queue)
    → (watch_turn fails now q ≡ q) ⊎ (watch_turn fails now q ≡ (sweep fails now (turned q)).1)
unfolding watch_turn
watch_turn-cases fails now q = ground arith

pub restarted-Kept :
    (q : Queue) (res : Result Queue) (P : Queue → Type 0)
    → P q
    → ((q' : Queue) → res ≡ ok q' → P q')
    → P (reopened q res)
restarted-Kept q (ok q') P stay moved = moved q' refl
restarted-Kept q (err e) P stay moved = stay
