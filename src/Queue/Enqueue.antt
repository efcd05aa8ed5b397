-- ===== src/Queue/Enqueue.antt =====
-- Enqueue (internal/coordinator/queue/queue.go): what it accepts and refuses, and that a failure at
-- any statement leaves the tables alone.
use walkie.Prelude.{
  ℕ, suc, ◌≤◌, ◌<◌, ◌≡◌, String, false, Option, none, some, List, [], ◌∷◌, ◌++◌, arith,
  if◌then◌else◌, str_eq, eq_iff, length, leb, Bool-cases, inl, inr,
}
use walkie.Wire.{Bytes, Envelope}
use walkie.Queue.Tables.{Row, Tables, rows_of, count_retained, advance_next, insert_row}
use walkie.Queue.Framing.{Codec, Seal, seal_for_storage}
use walkie.Queue.Ops.{
  Faults, Error, Result, ok, err, capacity, Queue, enqueue_tx, enqueue_body, enqueue_framed,
  enqueue_marshalled, enqueue,
}
use walkie.Queue.Rows.{next_of, any-same_key_fresh}
use walkie.Queue.Sound.{
  IsSound, new_row, admitted, read_next-ensure_cursor, inbox-ensure_cursor, rows_of-admitted,
  next_of-admitted,
}

-- A run in which no statement fails.
abbrev pub no_faults : Faults
no_faults s = false

-- The transaction commits on tables that are sound and have room, if no statement fails: the
-- primary key is never in the way.
enqueue_tx_accepts :
    (max : ℕ) (r mid : String) (body : Bytes) (now : ℕ) (db : Tables)
    → IsSound max db
    → length (rows_of r db.inbox) < max
    → enqueue_tx no_faults max r mid body now db
      ≡ ok ((next_of r db, length (rows_of r db.inbox)), admitted r mid body now db)
unfolding enqueue_tx insert_row count_retained advance_next
enqueue_tx_accepts max r mid body now db s room = ground (
  arith,
  read_next-ensure_cursor r db,
  inbox-ensure_cursor r db,
  any-same_key_fresh (new_row r mid body now db) 1 db.inbox (s.spaced r),
)

enqueue_tx_refuses :
    (max : ℕ) (r mid : String) (body : Bytes) (now : ℕ) (db : Tables)
    → max ≤ length (rows_of r db.inbox)
    → enqueue_tx no_faults max r mid body now db ≡ err (capacity r max)
unfolding enqueue_tx count_retained
enqueue_tx_refuses max r mid body now db full = ground (arith, inbox-ensure_cursor r db)

module _ (codec : Codec) (at_rest : Option Seal) (fails : Faults) (now : ℕ) (q : Queue) (r : String)
    (env : Envelope) where
  -- An Enqueue that fails, at whatever statement, leaves the rows, the cursors and the timer as
  -- they were.
  pub enqueue_error_unchanged :
      {e : Error}
      → (enqueue codec at_rest fails now q r env).0 ≡ err e
      → ((enqueue codec at_rest fails now q r env).1.db ≡ q.db)
        × ((enqueue codec at_rest fails now q r env).1.timer ≡ q.timer)
  unfolding enqueue enqueue_tx
  enqueue_error_unchanged h = ground arith

-- The contract of one inbox: numbered messages, in the order of their numbers.
pub record Inbox : Type 0 where
  pub rows : List Row
  pub next : ℕ

unfoldable pub view : String → Tables → Inbox
view r db = record { rows = rows_of r db.inbox; next = next_of r db }

-- A message goes to the end, under the next number.
unfoldable pub push : String → String → Bytes → ℕ → Inbox → Inbox
push r mid body now i = record {
  rows =
      i.rows
      ++ record {
        recipient = r;
        position = i.next;
        message_id = mid;
        body = body;
        enqueued_at = now;
      }
        ∷ [];
  next = suc i.next;
}

pub view-admitted :
    (r mid : String) (body : Bytes) (now : ℕ) (db : Tables) (j : String)
    → view j (admitted r mid body now db)
      ≡ (if str_eq r j then push r mid body now (view j db) else view j db)
unfolding view push
view-admitted r mid body now db j =
    ground (
      arith,
      rows_of-admitted r mid body now db j,
      next_of-admitted r mid body now db j,
      eq_iff r j,
    )

abbrev bytes_to_rest : Codec → Option Seal → String → Envelope → Option Bytes → Option Bytes
bytes_to_rest codec at_rest r env none = none
bytes_to_rest codec at_rest r env (some marshalled) = seal_for_storage at_rest r marshalled

-- Which bytes Enqueue hands to the database, if marshalling and sealing succeed.
unfoldable pub resting_bytes : Codec → Option Seal → String → Envelope → Option Bytes
resting_bytes codec at_rest r env = bytes_to_rest codec at_rest r env (codec.marshal env)

pub enqueue-enqueue_body :
    (codec : Codec) (at_rest : Option Seal) (fails : Faults) (now : ℕ) (q : Queue) (r : String)
    (env : Envelope) (body : Bytes)
    → resting_bytes codec at_rest r env ≡ some body
    → enqueue codec at_rest fails now q r env ≡ enqueue_body fails now q r env.message_id body
unfolding enqueue_marshalled enqueue_framed enqueue resting_bytes
enqueue-enqueue_body codec at_rest fails now q r env body h = ground arith

module _ (codec : Codec) (at_rest : Option Seal) (now : ℕ) (q : Queue) (r : String) (env : Envelope)
    (body : Bytes) (sound : IsSound q.max_size q.db) (is_open : q.is_closed ≡ false)
    (rests : resting_bytes codec at_rest r env ≡ some body) where
  pub enqueue_body-accepts :
      length (rows_of r q.db.inbox) < q.max_size
      → (let out = enqueue_body no_faults now q r env.message_id body in
          (out.0 ≡ ok (next_of r q.db)) × (out.1.db ≡ admitted r env.message_id body now q.db))
  unfolding enqueue_body
  enqueue_body-accepts room =
      ground (arith, enqueue_tx_accepts q.max_size r env.message_id body now q.db sound room)

  enqueue_body-refuses :
      q.max_size ≤ length (rows_of r q.db.inbox)
      → (let out = enqueue_body no_faults now q r env.message_id body in
          (out.0 ≡ err (capacity r q.max_size)) × (out.1.db ≡ q.db))
  unfolding enqueue_body
  enqueue_body-refuses full =
      ground (arith, enqueue_tx_refuses q.max_size r env.message_id body now q.db full)

-- The code against the contract, as a postcondition of a call: with room the message is pushed onto
-- its recipient's inbox under the next number, which is returned, and every other inbox stays; at
-- the cap it is refused by name and nothing is stored.
pub data Enqueues (q : Queue) (r mid : String) (body : Bytes) (now : ℕ) (out : Result ℕ × Queue)
    : Type 0 where
  accepts :
      length (rows_of r q.db.inbox) < q.max_size
      → out.0 ≡ ok (view r q.db).next
      → ((j : String)
          → view j out.1.db
            ≡ (if str_eq r j then push r mid body now (view j q.db) else view j q.db))
      → Enqueues q r mid body now out
  refuses :
      q.max_size ≤ length (rows_of r q.db.inbox)
      → out.0 ≡ err (capacity r q.max_size)
      → out.1.db ≡ q.db
      → Enqueues q r mid body now out

-- On sound tables of an open queue, where the message marshals and seals and no statement fails,
-- Enqueue implements the contract.
pub enqueue-Enqueues :
    (codec : Codec) (at_rest : Option Seal) (now : ℕ) (q : Queue) (r : String) (env : Envelope)
    (body : Bytes)
    → IsSound q.max_size q.db
    → q.is_closed ≡ false
    → resting_bytes codec at_rest r env ≡ some body
    → Enqueues q r env.message_id body now (enqueue codec at_rest no_faults now q r env)
unfolding view
enqueue-Enqueues codec at_rest now q r env body sound is_open rests =
    rw (enqueue-enqueue_body codec at_rest no_faults now q r env body rests)
      (elim (Bool-cases (leb q.max_size (length (rows_of r q.db.inbox)))) [
        | inl full ↦
            let (result, tables) =
              enqueue_body-refuses codec at_rest now q r env body sound is_open rests
                (ground arith) in
            refuses (ground arith) result tables
        | inr room ↦
            let (result, tables) =
              enqueue_body-accepts codec at_rest now q r env body sound is_open rests
                (ground arith) in
            accepts (ground arith) result
              (λ j. rw tables (view-admitted r env.message_id body now q.db j))
      ])
