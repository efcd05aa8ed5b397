-- ===== src/Queue/Tests.antt =====
-- The theorems about the queue at concrete queues, and runs of its operations.
use walkie.Prelude.{
  ℕ, ◌+◌, ◌<◌, ◌≡◌, refl, String, true, false, Option, none, some, List, [], ◌∷◌, arith, pos,
  lookup, insert, adjust, filter, length,
}
use walkie.Wire.{Bytes, Envelope, direct_message, just}
use walkie.Queue.Tables.{
  Row, rows_of, ensure_cursor, count_retained, read_next, advance_next, insert_row, select_after,
  order_by_position, count_after, advance_acked, delete_covered, is_after, select_expired,
  delete_row,
}
use walkie.Queue.Framing.{Codec, seal_for_storage, delivery_from_storage}
use walkie.Queue.Ops.{
  Faults, ok, err, capacity, Queue, enqueue, ack, resume, pending_count, Delivery, deliveries,
  sweep, watch_turn, opened, inserting, storage, rearm_locked, evict_all, selecting,
}
use walkie.Queue.Sound.{IsSound}
use walkie.Queue.Enqueue.{no_faults, resting_bytes, Enqueues, enqueue-Enqueues}
use walkie.Queue.Resume.{pending_count-resume, is_unreadable}
use walkie.Queue.Replay.{enqueue-resume_plain}
use walkie.Queue.Sweep.{watch_turn_stalls}
use walkie.Queue.History.{run-IsSound, positions_never_reused}
use walkie.Queue.Step.{Op, enqueues, acks, turns, restarts, run, apply}

abbrev letter : Envelope
letter =
    record (just (direct_message (record { recipient = "bob"; body = 104 ∷ []; sender = "ann" }))) {
      message_id = "m1";
    }

abbrev one_letter : Codec
one_letter = record { marshal = λ e. some (7 ∷ []); unmarshal = λ b. some letter }

abbrev fresh : Queue
fresh = opened (record { inbox = []; cursors = [] }) 100 2

fresh-IsSound : IsSound 2 fresh.db
unfolding lookup
fresh-IsSound = record { spaced = λ r. omega arith; bounded = λ r. omega arith }

-- Two letters for bob, the first at time 5 and the second at time 50.
abbrev two_letters : List Op
two_letters = enqueues no_faults 5 "bob" letter ∷ enqueues no_faults 50 "bob" letter ∷ []

abbrev bob_row : ℕ → ℕ → Row
bob_row position now = record {
  recipient = "bob";
  position = position;
  message_id = "m1";
  body = 0 ∷ 7 ∷ [];
  enqueued_at = now;
}

abbrev holding : Queue
holding = record fresh {
  db = record {
    inbox = bob_row 1 5 ∷ bob_row 2 50 ∷ [];
    cursors = ("bob", record { next_position = 3; acked_position = pos 0 }) ∷ [];
  };
  timer = some (record { deadline = 105; taken = false });
  metrics = record { size_cap = 0; ttl = 0; depths = 2 ∷ 1 ∷ [] };
}

two_letters_held : run one_letter none fresh two_letters ≡ holding
unfolding run apply enqueue ensure_cursor count_retained read_next advance_next insert_row
    seal_for_storage lookup insert adjust rearm_locked
two_letters_held = refl

holding-IsSound : IsSound 2 holding.db
unfolding lookup
holding-IsSound = record { spaced = λ r. ground arith; bounded = λ r. ground arith }

enqueue-Enqueues_example :
    Enqueues fresh "bob" "m1"
      (0 ∷ 7 ∷ [])
      5
      (enqueue one_letter none no_faults 5 fresh "bob" letter)
unfolding resting_bytes seal_for_storage
enqueue-Enqueues_example =
    enqueue-Enqueues one_letter none 5 fresh "bob" letter (0 ∷ 7 ∷ []) fresh-IsSound refl refl

-- The third letter meets the cap of two.
third_refused :
    (enqueue one_letter none no_faults 60 holding "bob" letter).0 ≡ err (capacity "bob" 2)
unfolding enqueue ensure_cursor count_retained read_next advance_next insert_row seal_for_storage
    lookup insert adjust
third_refused = refl

abbrev insert_fails : Faults
insert_fails inserting = true
insert_fails _ = false

-- The rows of `holding`, as they come back.
abbrev first_back : Delivery
first_back = record { position = 1; envelope = record letter { position = 1 } }

abbrev second_back : Delivery
second_back = record { position = 2; envelope = record letter { position = 2 } }

both_resume : resume one_letter no_faults holding "bob" 0 ≡ ok (first_back ∷ second_back ∷ [])
unfolding resume select_after order_by_position deliveries delivery_from_storage
both_resume = refl

-- A row of an unknown format is counted, and not delivered.
abbrev alien_row : Row
alien_row = record {
  recipient = "bob";
  position = 1;
  message_id = "m0";
  body = 9 ∷ [];
  enqueued_at = 3;
}

abbrev alien : Queue
alien =
    opened
      (record {
        inbox = alien_row ∷ [];
        cursors = ("bob", record { next_position = 2; acked_position = pos 0 }) ∷ [];
      })
      100 2

alien-IsSound : IsSound 2 alien.db
unfolding lookup
alien-IsSound = record { spaced = λ r. ground arith; bounded = λ r. ground arith }

pending_count-resume_example :
    1
    ≡ length {A = Delivery} []
      + length
          (filter (is_unreadable one_letter) (filter (is_after 0) (rows_of "bob" alien.db.inbox)))
unfolding pending_count count_after resume select_after order_by_position deliveries
    delivery_from_storage
pending_count-resume_example =
    pending_count-resume one_letter no_faults alien "bob" 0 {n = 1} {ds = []} alien-IsSound refl
      refl

enqueue-resume_plain_example :
    resume one_letter no_faults (enqueue one_letter none no_faults 5 fresh "bob" letter).1 "bob" 0
    ≡ ok (first_back ∷ [])
unfolding lookup
enqueue-resume_plain_example =
    enqueue-resume_plain one_letter 5 fresh "bob" letter (7 ∷ []) 0 fresh-IsSound refl (omega arith)
      refl refl refl (omega arith)

abbrev pins : String → Option Bytes
pins r = some (1 ∷ 2 ∷ [])

abbrev boxed : Bytes → Bytes → Option Bytes
boxed key b = some (99 ∷ b)

-- At 120 the letter of time 5 is past its TTL of 100, and the one of time 50 is not.
holding_sweeps : (sweep no_faults 120 holding).0 ≡ ok tt
unfolding sweep evict_all select_expired delete_row
holding_sweeps = refl

abbrev select_fails : Faults
select_fails selecting = true
select_fails _ = false

abbrev due_timer : Queue
due_timer = holding

watch_turn_stalls_example :
    watch_turn no_faults 500 (watch_turn select_fails 120 due_timer)
    ≡ watch_turn select_fails 120 due_timer
unfolding sweep
watch_turn_stalls_example =
    watch_turn_stalls select_fails no_faults 120 500 due_timer {e = storage selecting} refl refl
      refl

run-IsSound_example :
    IsSound 2
      (run one_letter none fresh (
        enqueues no_faults 5 "bob" letter
        ∷ acks no_faults "bob" 1
        ∷ restarts no_faults 9
        ∷ turns no_faults 300
        ∷ [])).db
run-IsSound_example =
    run-IsSound one_letter none fresh
      (enqueues no_faults 5 "bob" letter
        ∷ acks no_faults "bob" 1
        ∷ restarts no_faults 9
        ∷ turns no_faults 300
        ∷ [])
      fresh-IsSound

positions_never_reused_example : 1 < 2
unfolding run apply enqueue ensure_cursor count_retained read_next advance_next insert_row
    seal_for_storage lookup insert adjust ack advance_acked delete_covered
positions_never_reused_example =
    positions_never_reused one_letter none no_faults no_faults 5 9 fresh "bob" letter letter
      (acks no_faults "bob" 1 ∷ []) {p = 1} {p' = 2} refl refl
