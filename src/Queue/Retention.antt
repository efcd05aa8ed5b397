-- ===== src/Queue/Retention.antt =====
-- Ack, sweep and the watcher (internal/coordinator/queue/queue.go): what leaves retention.
use walkie.Prelude.{ℕ, ◌≡◌, refl, ◌∙◌, String, not, arith, filter, filter_comm, inl, inr, ◌⊎◌}
use walkie.Queue.Tables.{
  Tables, rows_of, is_for, ensure_cursor, advance_acked, delete_covered, is_covered,
}
use walkie.Queue.Ops.{Faults, Error, ok, err, Queue, ack, ack_tx}
use walkie.Queue.Rows.{next_of, next_of-advance_acked, next_of-ensure_cursor}
use walkie.Queue.Sound.{IsSound, filter-IsSound, same-IsSound, inbox-ensure_cursor}

ack_tx-ok :
    (fails : Faults) (r : String) (p : ℕ) (db : Tables) {u : Unit {0}} {db' : Tables}
    → ack_tx fails r p db ≡ ok (u, db')
    → db' ≡ delete_covered r p (advance_acked r p (ensure_cursor r db))
unfolding ack_tx
ack_tx-ok fails r p db h = ground arith

-- A successful Ack deletes the covered rows of its recipient and no others; a failed one changes
-- nothing.
pub ack-rows :
    (fails : Faults) (q : Queue) (r : String) (p : ℕ)
    → (((ack fails q r p).0 ≡ ok tt)
        × ((ack fails q r p).1.db ≡ delete_covered r p (advance_acked r p (ensure_cursor r q.db))))
      ⊎ ((e : Error) × ((ack fails q r p).0 ≡ err e) × ((ack fails q r p).1.db ≡ q.db))
unfolding ack
ack-rows fails q r p = ground (arith, ack_tx-ok fails r p q.db)

inbox-advance_acked : (r : String) (p : ℕ) (db : Tables) → (advance_acked r p db).inbox ≡ db.inbox
unfolding advance_acked
inbox-advance_acked r p db = refl

inbox-delete_covered :
    (r : String) (p : ℕ) (db : Tables)
    → (delete_covered r p (advance_acked r p (ensure_cursor r db))).inbox
      ≡ filter (λ row. not (is_covered r p row)) db.inbox
unfolding delete_covered
inbox-delete_covered r p db =
    rw (inbox-advance_acked r p (ensure_cursor r db), inbox-ensure_cursor r db)

pub next_of-delete_covered :
    (r : String) (p : ℕ) (db : Tables) (j : String)
    → next_of j (delete_covered r p (advance_acked r p (ensure_cursor r db))) ≡ next_of j db
unfolding delete_covered
next_of-delete_covered r p db j =
    next_of-advance_acked r j p (ensure_cursor r db) ∙ next_of-ensure_cursor r j db

-- The rows of every recipient after the tables of a successful Ack.
pub rows_of-delete_covered :
    (r : String) (p : ℕ) (db : Tables) (j : String)
    → rows_of j (delete_covered r p (advance_acked r p (ensure_cursor r db))).inbox
      ≡ filter (λ row. not (is_covered r p row)) (rows_of j db.inbox)
rows_of-delete_covered r p db j =
    rw (inbox-delete_covered r p db)
      (filter_comm (is_for j) (λ row. not (is_covered r p row)) db.inbox)

pub ack-IsSound :
    (fails : Faults) (q : Queue) (r : String) (p : ℕ)
    → IsSound q.max_size q.db
    → IsSound q.max_size (ack fails q r p).1.db
ack-IsSound fails q r p s = elim (ack-rows fails q r p) [
  | inl (_, done) ↦ rw done (
      same-IsSound q.max_size
        (record q.db { inbox = filter (λ row. not (is_covered r p row)) q.db.inbox }) _
        (inbox-delete_covered r p q.db) (next_of-delete_covered r p q.db)
        (filter-IsSound q.max_size (λ row. not (is_covered r p row)) q.db s))
  | inr (_, _, same) ↦ rw same s
]

-- The rows of a recipient after a successful Ack.
pub ack-rows_of :
    (fails : Faults) (q : Queue) (r : String) (p : ℕ) (j : String)
    → (ack fails q r p).0 ≡ ok tt
    → rows_of j (ack fails q r p).1.db.inbox
      ≡ filter (λ row. not (is_covered r p row)) (rows_of j q.db.inbox)
ack-rows_of fails q r p j done = elim (ack-rows fails q r p) [
  | inl (_, tables) ↦ rw tables (rows_of-delete_covered r p q.db j)
  | inr (_, failed, _) ↦ cc
]
