-- ===== src/Queue/History.antt =====
-- Any sequence of operations on the queue, with any statement failing on the way, restarts of the
-- process included (internal/coordinator/queue/queue.go).
use walkie.Prelude.{
  ℕ, suc, ◌≤◌, ◌<◌, ◌≡◌, refl, ◌∙◌, String, Option, List, [], ◌∷◌, arith, eq_iff, pos, inl, inr,
}
use walkie.Wire.{Envelope}
use walkie.Queue.Framing.{Codec, Seal}
use walkie.Queue.Ops.{Faults, ok, Queue, enqueue, ack, close, watch_turn, sweep, new_queue}
use walkie.Queue.Rows.{next_of}
use walkie.Queue.Sound.{IsSound, admitted-IsSound, next_of-admitted}
use walkie.Queue.Retention.{ack-IsSound, ack-rows, next_of-delete_covered}
use walkie.Queue.Sweep.{sweep-IsSound, sweep-Kept}
use walkie.Queue.Step.{
  Op, apply, run, enqueue-Outcome, new_queue-Kept, max_size-enqueue, max_size-ack, turned,
  watch_turn-cases, restarted-Kept, enqueues, acks, turns, closes, restarts,
}

-- What every operation keeps: the size cap, the invariant, and that positions are not taken back.
pub record Follows (q q' : Queue) : Type 0 where
  pub same_cap : q'.max_size ≡ q.max_size
  pub sound : IsSound q.max_size q.db → IsSound q.max_size q'.db
  pub onward : (r : String) → next_of r q.db ≤ next_of r q'.db

Follows-same : (q q' : Queue) → q'.max_size ≡ q.max_size → q'.db ≡ q.db → Follows q q'
Follows-same q q' cap db = record {
  same_cap = cap;
  sound = λ s. rw db s;
  onward = λ r. rw db (omega arith);
}

sweep-Follows : (fails : Faults) (now : ℕ) (q : Queue) → Follows q (sweep fails now q).1
sweep-Follows fails now q = record {
  same_cap = (sweep-Kept fails now q).1;
  sound = sweep-IsSound fails q.max_size now q;
  onward = λ r. rw ((sweep-Kept fails now q).0) (omega arith);
}

enqueue-Follows :
    (codec : Codec) (at_rest : Option Seal) (fails : Faults) (now : ℕ) (q : Queue) (r : String)
    (env : Envelope)
    → Follows q (enqueue codec at_rest fails now q r env).1
enqueue-Follows codec at_rest fails now q r env =
    elim (enqueue-Outcome codec at_rest fails now q r env) [
      | inl (_, _, same) ↦ Follows-same q _ (max_size-enqueue codec at_rest fails now q r env) same
      | inr (body, _, room, tables) ↦ record {
        same_cap = max_size-enqueue codec at_rest fails now q r env;
        sound = λ s. rw tables (admitted-IsSound q.max_size r env.message_id body now q.db s room);
        onward = λ j. rw tables (ground (arith, next_of-admitted r env.message_id body now q.db j));
      }
    ]

ack-Follows : (fails : Faults) (q : Queue) (r : String) (p : ℕ) → Follows q (ack fails q r p).1
ack-Follows fails q r p = record {
  same_cap = max_size-ack fails q r p;
  sound = ack-IsSound fails q r p;
  onward = λ j. elim (ack-rows fails q r p) [
    | inl (_, done) ↦ rw done (omega (arith, next_of-delete_covered r p q.db j))
    | inr (_, _, same) ↦ rw same (omega arith)
  ];
}

turn-Follows : (fails : Faults) (now : ℕ) (q : Queue) → Follows q (watch_turn fails now q)
turn-Follows fails now q = elim (watch_turn-cases fails now q) [
  | inl still ↦ rw still (Follows-same q q refl refl)
  | inr swept ↦
      let f : Follows (turned q) (sweep fails now (turned q)).1 =
        sweep-Follows fails now (turned q) in
      rw swept (record { same_cap = f.same_cap; sound = f.sound; onward = f.onward })
]

apply-Follows :
    (codec : Codec) (at_rest : Option Seal) (q : Queue) (op : Op)
    → Follows q (apply codec at_rest q op)
unfolding apply close
apply-Follows codec at_rest q (enqueues fails now r env) =
    enqueue-Follows codec at_rest fails now q r env
apply-Follows codec at_rest q (acks fails r p) = ack-Follows fails q r p
apply-Follows codec at_rest q (turns fails now) = turn-Follows fails now q
apply-Follows codec at_rest q closes = Follows-same q _ (ground arith) (ground arith)
apply-Follows codec at_rest q (restarts fails now) =
    restarted-Kept q (new_queue fails now q.db (pos q.ttl) (pos q.max_size)) (Follows q)
      (Follows-same q q refl refl)
      λ q' h.
        let (cap, cursors, sound) = new_queue-Kept fails now q q' h in
        record { same_cap = cap; sound = sound; onward = λ r. rw cursors (omega arith) }

Follows-trans : (a b c : Queue) → Follows a b → Follows b c → Follows a c
Follows-trans a b c f g = record {
  same_cap = g.same_cap ∙ f.same_cap;
  sound = λ s. rw (← f.same_cap) (g.sound (rw f.same_cap (f.sound s)));
  onward = λ r. omega (arith, f.onward r, g.onward r);
}

run-Follows :
    (codec : Codec) (at_rest : Option Seal) (q : Queue) (ops : List Op)
    → Follows q (run codec at_rest q ops)
unfolding run
run-Follows codec at_rest q [] = Follows-same q q refl refl
run-Follows codec at_rest q (op ∷ ops) =
    Follows-trans q (apply codec at_rest q op) _ (apply-Follows codec at_rest q op)
      (run-Follows codec at_rest (apply codec at_rest q op) ops)

-- After any history of enqueues, acks, timer turns, closes and restarts, with any statements
-- failing, a queue that began sound is sound under the same cap: in every inbox positions rise from
-- 1 below the next one to be given, and no inbox holds more than `max_size` rows.
pub run-IsSound :
    (codec : Codec) (at_rest : Option Seal) (q : Queue) (ops : List Op)
    → IsSound q.max_size q.db
    → IsSound q.max_size (run codec at_rest q ops).db
run-IsSound codec at_rest q ops = (run-Follows codec at_rest q ops).sound

position_given :
    (codec : Codec) (at_rest : Option Seal) (fails : Faults) (now : ℕ) (q : Queue) (r : String)
    (env : Envelope) {p : ℕ}
    → (enqueue codec at_rest fails now q r env).0 ≡ ok p
    → (p ≡ next_of r q.db) × (next_of r (enqueue codec at_rest fails now q r env).1.db ≡ suc p)
position_given codec at_rest fails now q r env {p} accepted =
    elim (enqueue-Outcome codec at_rest fails now q r env) [
      | inl (_, refused, _) ↦ cc
      | inr (body, given, _, tables) ↦
          let same : p ≡ next_of r q.db = ground arith in
          (
            same,
            rw tables
                (ground (arith, next_of-admitted r env.message_id body now q.db r, eq_iff r r)),
          )
    ]

-- Positions are never reused: if a message for `r` is accepted under p, and after any history, with
-- acks, evictions and restarts in it, another one for `r` under p', then p < p'.
pub positions_never_reused :
    (codec : Codec) (at_rest : Option Seal) (fails fails' : Faults) (now now' : ℕ) (q : Queue)
    (r : String) (env env' : Envelope) (ops : List Op) {p p' : ℕ}
    → (enqueue codec at_rest fails now q r env).0 ≡ ok p
    → (enqueue codec at_rest fails' now'
        (run codec at_rest (enqueue codec at_rest fails now q r env).1 ops)
        r
        env').0
      ≡ ok p'
    → p < p'
positions_never_reused codec at_rest fails fails' now now' q r env env' ops first second =
    let q' : Queue = (enqueue codec at_rest fails now q r env).1 in
    omega (
      arith,
      position_given codec at_rest fails now q r env first,
      (run-Follows codec at_rest q' ops).onward r,
      position_given codec at_rest fails' now' (run codec at_rest q' ops) r env' second,
    )
