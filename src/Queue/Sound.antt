-- ===== src/Queue/Sound.antt =====
-- The invariant of the tables, and the steps of Enqueue, Ack and sweep on the rows of a recipient.
use walkie.Prelude.{
  Option-cases, inl, inr, ap, ℕ, suc, ◌+◌, ◌≤◌, ◌<◌, ◌≡◌, refl, String, Bool, some, [], ◌∷◌, ◌++◌,
  arith, if◌then◌else◌, str_eq, eq_iff, lookup, lookup-insert, lookup-adjust, filter, length,
  length-append, filter_comm, length-filter-le, pos,
}
use walkie.Wire.{Bytes}
use walkie.Queue.Tables.{
  Row, Cursor, Tables, is_for, rows_of, ensure_cursor, count_retained, read_next, advance_next,
  insert_row, first_contact,
}
use walkie.Queue.Ops.{Faults, ok, enqueue_tx}
use walkie.Queue.Rows.{Between, Between-snoc, Between-filter, next_of, rows_of-snoc}

-- In each inbox the positions rise from 1, below the next one to be given, and at most `max` rows
-- are retained.
pub record IsSound (max : ℕ) (db : Tables) : Type 0 where
  pub spaced : (r : String) → Between 1 (rows_of r db.inbox) (next_of r db)
  pub bounded : (r : String) → length (rows_of r db.inbox) ≤ max

-- The row that a successful Enqueue inserts.
abbrev pub new_row : String → String → Bytes → ℕ → Tables → Row
new_row recipient message_id body now db = record {
  recipient = recipient;
  position = next_of recipient db;
  message_id = message_id;
  body = body;
  enqueued_at = now;
}

-- The tables after a successful Enqueue.
abbrev pub admitted : String → String → Bytes → ℕ → Tables → Tables
admitted recipient message_id body now db = record {
  inbox = db.inbox ++ new_row recipient message_id body now db ∷ [];
  cursors = (advance_next recipient (ensure_cursor recipient db)).cursors;
}

pub read_next-ensure_cursor :
    (r : String) (db : Tables) → read_next r (ensure_cursor r db) ≡ some (next_of r db)
unfolding read_next ensure_cursor
read_next-ensure_cursor r db = ground (
  arith,
  lookup-insert r r (record { next_position = 1; acked_position = pos 0 }) db.cursors,
  eq_iff r r,
)

pub inbox-ensure_cursor : (r : String) (db : Tables) → (ensure_cursor r db).inbox ≡ db.inbox
unfolding ensure_cursor
inbox-ensure_cursor r db = refl

module _ (fails : Faults) (max : ℕ) (r mid : String) (body : Bytes) (now : ℕ) (db : Tables) where
  -- What a successful transaction did.
  pub enqueue_tx-ok :
      {position retained : ℕ} {db' : Tables}
      → enqueue_tx fails max r mid body now db ≡ ok ((position, retained), db')
      → (position ≡ next_of r db)
        × (retained ≡ length (rows_of r db.inbox))
        × (length (rows_of r db.inbox) < max)
        × (db' ≡ admitted r mid body now db)
  unfolding enqueue_tx insert_row count_retained advance_next
  enqueue_tx-ok h = ground (arith, read_next-ensure_cursor r db, inbox-ensure_cursor r db)

pub rows_of-admitted :
    (r mid : String) (body : Bytes) (now : ℕ) (db : Tables) (j : String)
    → rows_of j (admitted r mid body now db).inbox ≡ (
        if str_eq r j
        then rows_of j db.inbox ++ new_row r mid body now db ∷ []
        else rows_of j db.inbox)
rows_of-admitted r mid body now db j = rows_of-snoc j db.inbox (new_row r mid body now db)

next_of-advance_next :
    (r j : String) (db : Tables)
    → next_of j (advance_next r (ensure_cursor r db))
      ≡ (if str_eq r j then suc (next_of j db) else next_of j db)
unfolding advance_next ensure_cursor
next_of-advance_next r j db = elim (Option-cases (lookup r db.cursors)) [
  | inl missing ↦ ground (
    arith,
    lookup-adjust r j bump (first_contact db.cursors r (lookup r db.cursors)),
    lookup-insert r j first db.cursors,
    eq_iff r j,
  )
  | inr (c, found) ↦
      ground (
        arith,
        lookup-adjust r j bump (first_contact db.cursors r (lookup r db.cursors)),
        eq_iff r j,
      )
]
  where
    first : Cursor
    first = record { next_position = 1; acked_position = pos 0 }

    bump : Cursor → Cursor
    bump c = record c { next_position = c.next_position + 1 }

pub next_of-admitted :
    (r mid : String) (body : Bytes) (now : ℕ) (db : Tables) (j : String)
    → next_of j (admitted r mid body now db)
      ≡ (if str_eq r j then suc (next_of j db) else next_of j db)
next_of-admitted r mid body now db j = next_of-advance_next r j db

-- A successful Enqueue keeps the invariant.
pub admitted-IsSound :
    (max : ℕ) (r mid : String) (body : Bytes) (now : ℕ) (db : Tables)
    → IsSound max db
    → length (rows_of r db.inbox) < max
    → IsSound max (admitted r mid body now db)
admitted-IsSound max r mid body now db s room = record {
  spaced = λ j. ground (
    arith,
    rows_of-admitted r mid body now db j,
    next_of-admitted r mid body now db j,
    s.spaced j,
    eq_iff r j,
    Between-snoc 1 (rows_of j db.inbox) (new_row r mid body now db),
  );
  bounded = λ j. ground (
    arith,
    rows_of-admitted r mid body now db j,
    s.bounded j,
    eq_iff r j,
    length-append (rows_of j db.inbox) (new_row r mid body now db ∷ []),
  );
}

-- Deleting rows by any test keeps the invariant.
pub filter-IsSound :
    (max : ℕ) (p : Row → Bool) (db : Tables)
    → IsSound max db
    → IsSound max (record db { inbox = filter p db.inbox })
filter-IsSound max p db s = record {
  spaced = λ j.
      rw (filter_comm (is_for j) p db.inbox)
        (Between-filter p 1 (rows_of j db.inbox) (next_of j db) (s.spaced j));
  bounded = λ j. omega (
    arith,
    ap length (filter_comm (is_for j) p db.inbox),
    length-filter-le p (rows_of j db.inbox),
    s.bounded j,
  );
}

-- Tables with the same rows and the same next positions are sound together.
pub same-IsSound :
    (max : ℕ) (db db' : Tables)
    → db'.inbox ≡ db.inbox
    → ((j : String) → next_of j db' ≡ next_of j db)
    → IsSound max db
    → IsSound max db'
same-IsSound max db db' rows next s = record {
  spaced = λ j. rw (next j, rows) (s.spaced j);
  bounded = λ j. rw rows (s.bounded j);
}
