-- ===== src/History/Rows.antt =====
-- Rows in the order of their arrival, each id once (internal/history/history.go).
use walkie.Prelude.{
  ℕ, suc, zero, ◌+◌, ◌≤◌, ◌<◌, ◌≡◌, refl, ap, String, Bool, true, false, not, List, [], ◌∷◌, ◌++◌,
  ◌==◌, if◌then◌else◌, str_eq, eq_iff, any, filter, take, drop, All, filter-congr, any-append,
  arith, Bool-cases, inl, inr,
}
use walkie.Message.Text.{Message}
use walkie.History.Store.{Stored, Table, has_id, insert_or_ignore, delete_rows}

-- The numbers rise from `lo` and stay below `next`.
abbrev pub IsRising : ℕ → ℕ → List Stored → Type 0
IsRising lo next [] = lo ≤ next
IsRising lo next (row ∷ rows) = (lo ≤ row.seq) × IsRising (suc row.seq) next rows

abbrev pub IsOnce : List Stored → Type 0
IsOnce [] = Unit
IsOnce (row ∷ rows) = (has_id row.message.id rows ≡ false) × IsOnce rows

abbrev pub IsOrderly : Table → Type 0
IsOrderly t = IsRising 0 t.next_seq t.rows × IsOnce t.rows

rising_le : (lo next : ℕ) (rows : List Stored) → IsRising lo next rows → lo ≤ next
rising_le lo next [] r = r
rising_le lo next (row ∷ rows) r = omega (arith, r.0, rising_le (suc row.seq) next rows r.1)

IsRising-lower :
    (lo lo' next : ℕ) (rows : List Stored)
    → lo ≤ lo'
    → IsRising lo' next rows
    → IsRising lo next rows
IsRising-lower lo lo' next [] le r = omega (arith, le, r)
IsRising-lower lo lo' next (row ∷ rows) le r = (omega (arith, le, r.0), r.1)

filter-IsRising :
    (p : Stored → Bool) (lo next : ℕ) (rows : List Stored)
    → IsRising lo next rows
    → IsRising lo next (filter p rows)
filter-IsRising p lo next [] r = r
filter-IsRising p lo next (row ∷ rows) r =
    let rest = filter-IsRising p (suc row.seq) next rows r.1 in
    elim (Bool-cases (p row)) [
      | inl keeps ↦ rw keeps (r.0, rest)
      | inr drops ↦
          rw drops (IsRising-lower lo (suc row.seq) next (filter p rows) (omega (arith, r.0)) rest)
    ]

has_id-filter :
    (id : String) (p : Stored → Bool) (rows : List Stored)
    → has_id id rows ≡ false
    → has_id id (filter p rows) ≡ false
has_id-filter id p [] e = refl
has_id-filter id p (row ∷ rows) e = ground (arith, e, has_id-filter id p rows)

filter-IsOnce : (p : Stored → Bool) (rows : List Stored) → IsOnce rows → IsOnce (filter p rows)
filter-IsOnce p [] o = tt
filter-IsOnce p (row ∷ rows) o = elim (Bool-cases (p row)) [
  | inl keeps ↦ rw keeps (has_id-filter row.message.id p rows o.0, filter-IsOnce p rows o.1)
  | inr drops ↦ rw drops (filter-IsOnce p rows o.1)
]

pub delete_rows-IsOrderly :
    (p : Stored → Bool) (t : Table) → IsOrderly t → IsOrderly (delete_rows p t)
delete_rows-IsOrderly p t o = (
  filter-IsRising (λ row. not (p row)) 0 t.next_seq t.rows o.0,
  filter-IsOnce (λ row. not (p row)) t.rows o.1,
)

append-IsRising :
    (lo next : ℕ) (rows : List Stored) (row : Stored)
    → IsRising lo next rows
    → row.seq ≡ next
    → IsRising lo (next + 1) (rows ++ row ∷ [])
append-IsRising lo next [] row r e = (omega (arith, r, e), omega (arith, e))
append-IsRising lo next (x ∷ rows) row r e = (r.0, append-IsRising (suc x.seq) next rows row r.1 e)

append-IsOnce :
    (rows : List Stored) (row : Stored)
    → IsOnce rows
    → has_id row.message.id rows ≡ false
    → IsOnce (rows ++ row ∷ [])
append-IsOnce [] row o new = (refl, tt)
append-IsOnce (x ∷ rows) row o new = (
  ground (
    arith,
    o.0,
    new,
    eq_iff x.message.id row.message.id,
    eq_iff row.message.id x.message.id,
    any-append (λ y. str_eq y.message.id x.message.id) rows (row ∷ []),
  ),
  append-IsOnce rows row o.1 (ground (arith, new)),
)

pub insert_or_ignore-IsOrderly :
    (now : ℕ) (key : String) (msg : Message) (t : Table)
    → IsOrderly t
    → IsOrderly (insert_or_ignore now key msg t)
unfolding insert_or_ignore
insert_or_ignore-IsOrderly now key msg t o = elim (Bool-cases (has_id msg.id t.rows)) [
  | inl known ↦ rw known o
  | inr new ↦
      let row : Stored = record {
        seq = t.next_seq;
        message = msg;
        conversation = key;
        stored_at = now;
      } in
      rw new (append-IsRising 0 t.next_seq t.rows row o.0 refl, append-IsOnce t.rows row o.1 new)
]

rising_above :
    (lo next : ℕ) (rows : List Stored) (p : Stored → Bool) (row : Stored)
    → row.seq < lo
    → IsRising lo next rows
    → All (λ r. not (if row.seq == r.seq then true else p r) ≡ not (p r)) rows
rising_above lo next [] p row lt r = tt
rising_above lo next (x ∷ rows) p row lt r =
    (ground (arith, lt, r.0), rising_above (suc x.seq) next rows p row (omega (arith, lt, r.0)) r.1)

-- The oldest `n` rows are the first `n`.
pub oldest_are_first :
    (n lo next : ℕ) (rows : List Stored)
    → IsRising lo next rows
    → filter (λ row. not (any (λ old. old.seq == row.seq) (take n rows))) rows ≡ drop n rows
oldest_are_first zero lo next [] r = refl
oldest_are_first zero lo next (row ∷ rows) r =
    ap (◌∷◌ row) (oldest_are_first zero (suc row.seq) next rows r.1)
oldest_are_first (suc n) lo next [] r = refl
oldest_are_first (suc n) lo next (row ∷ rows) r =
    let old : Stored → Bool = λ x. any (λ o. o.seq == x.seq) (take n rows) in
    let later : Stored → Bool = λ x. if row.seq == x.seq then true else old x in
    let same =
      filter-congr (λ x. not (later x)) (λ x. not (old x)) rows
        (rising_above (suc row.seq) next rows old row (omega arith) r.1) in
    ground (arith, same, oldest_are_first n (suc row.seq) next rows r.1)
