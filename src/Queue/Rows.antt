-- ===== src/Queue/Rows.antt =====
-- The rows of one recipient: their order, and what the statements do to them.
use walkie.Prelude.{
  pos, append-nil, ℕ, suc, ◌≤◌, ◌≡◌, refl, String, Bool, false, Option, none, some, List, [], ◌∷◌,
  ◌++◌, arith, if◌then◌else◌, str_eq, eq_iff, lookup, lookup-insert, lookup-adjust, filter, any,
  filter-append,
}
use walkie.Queue.Tables.{
  Row, Cursor, Tables, is_for, rows_of, ensure_cursor, same_key, insert_by_position,
  order_by_position, advance_acked, forward,
}

-- Positions rise along the list, from `lo` on and below `hi`.
abbrev pub Between : ℕ → List Row → ℕ → Type 0
Between lo [] hi = lo ≤ hi
Between lo (row ∷ rows) hi = (lo ≤ row.position) × Between (suc row.position) rows hi

pub Between-le : (lo : ℕ) (rows : List Row) (hi : ℕ) → Between lo rows hi → lo ≤ hi
Between-le lo [] hi h = h
Between-le lo (row ∷ rows) hi h = omega (arith, Between-le (suc row.position) rows hi h.1)

pub Between-weaken :
    (lo lo' : ℕ) (rows : List Row) (hi hi' : ℕ)
    → lo' ≤ lo
    → hi ≤ hi'
    → Between lo rows hi
    → Between lo' rows hi'
Between-weaken lo lo' [] hi hi' a b h = omega arith
Between-weaken lo lo' (row ∷ rows) hi hi' a b h =
    (omega arith, Between-weaken _ _ rows hi hi' (omega arith) b h.1)

pub Between-snoc :
    (lo : ℕ) (rows : List Row) (row : Row)
    → Between lo rows row.position
    → Between lo (rows ++ row ∷ []) (suc row.position)
Between-snoc lo [] row h = (h, omega arith)
Between-snoc lo (r ∷ rows) row h = (h.0, Between-snoc _ rows row h.1)

pub Between-filter :
    (p : Row → Bool) (lo : ℕ) (rows : List Row) (hi : ℕ)
    → Between lo rows hi
    → Between lo (filter p rows) hi
Between-filter p lo [] hi h = h
Between-filter p lo (row ∷ rows) hi h = ground (
  arith,
  Between-filter p (suc row.position) rows hi h.1,
  Between-weaken (suc row.position) lo (filter p rows) hi hi,
)

insert_by_position-Between :
    (x : Row) (rows : List Row) (hi : ℕ)
    → Between (suc x.position) rows hi
    → insert_by_position x rows ≡ x ∷ rows
insert_by_position-Between x [] hi h = refl
insert_by_position-Between x (row ∷ rows) hi h = ground arith

-- ORDER BY position changes nothing in rows that are in order.
pub order_by_position-Between :
    (lo : ℕ) (rows : List Row) (hi : ℕ) → Between lo rows hi → order_by_position rows ≡ rows
unfolding order_by_position
order_by_position-Between lo [] hi h = refl
order_by_position-Between lo (row ∷ rows) hi h =
    rw (order_by_position-Between (suc row.position) rows hi h.1)
      (insert_by_position-Between row rows hi h.1)

-- The position that the next message for `r` gets: 1 before the first contact.
abbrev pub next_or_first : Option Cursor → ℕ
next_or_first none = 1
next_or_first (some c) = c.next_position

abbrev pub next_of : String → Tables → ℕ
next_of r db = next_or_first (lookup r db.cursors)

pub rows_of-snoc :
    (r : String) (rows : List Row) (row : Row)
    → rows_of r (rows ++ row ∷ [])
      ≡ (if str_eq row.recipient r then rows_of r rows ++ row ∷ [] else rows_of r rows)
rows_of-snoc r rows row =
    ground (arith, filter-append (is_for r) rows (row ∷ []), append-nil (rows_of r rows))

-- No row has the key of a fresh row.
pub any-same_key_fresh :
    (row : Row) (lo : ℕ) (rows : List Row)
    → Between lo (rows_of row.recipient rows) row.position
    → any (same_key row) rows ≡ false
any-same_key_fresh row lo [] h = refl
any-same_key_fresh row lo (x ∷ rows) h = ground (
  arith,
  eq_iff x.recipient row.recipient,
  any-same_key_fresh row lo rows,
  any-same_key_fresh row (suc x.position) rows,
  Between-le (suc x.position) (rows_of row.recipient rows) row.position,
)

pub next_of-ensure_cursor :
    (r j : String) (db : Tables) → next_of j (ensure_cursor r db) ≡ next_of j db
unfolding ensure_cursor
next_of-ensure_cursor r j db = ground (
  arith,
  lookup-insert r j (record { next_position = 1; acked_position = pos 0 }) db.cursors,
  eq_iff r j,
)

pub next_of-advance_acked :
    (r j : String) (p : ℕ) (db : Tables) → next_of j (advance_acked r p db) ≡ next_of j db
unfolding advance_acked
next_of-advance_acked r j p db = ground (arith, lookup-adjust r j (forward p) db.cursors)
