-- ===== src/Queue/Resume.antt =====
-- Resume, PendingCount and Ack against one another (internal/coordinator/queue/queue.go).
use walkie.Prelude.{
  ℕ, suc, ◌+◌, ◌≤◌, ◌<◌, ◌≡◌, ◌≢◌, refl, ◌∙◌, String, Bool, true, false, not, none, some, List, [],
  ◌∷◌, arith, eq_iff, length, ltb, filter, All, All-map2, All-filter, All-intro, filter-filter,
  filter-congr,
}
use walkie.Queue.Tables.{
  Row, Tables, rows_of, is_for, is_after, is_covered, select_after, count_after,
}
use walkie.Queue.Framing.{Codec, delivery_from_storage}
use walkie.Queue.Ops.{Stmt, Faults, ok, Queue, Delivery, deliveries, resume, pending_count, ack}
use walkie.Queue.Rows.{Between, Between-filter, order_by_position-Between, next_of}
use walkie.Queue.Sound.{IsSound}
use walkie.Queue.Retention.{ack-rows_of, ack-IsSound}

-- On sound tables the rows of a resume are the recipient's, above `after`, in the order of arrival.
select_after-filter :
    (max : ℕ) (db : Tables) (r : String) (after : ℕ)
    → IsSound max db
    → select_after r after db ≡ filter (is_after after) (rows_of r db.inbox)
unfolding select_after
select_after-filter max db r after s =
    order_by_position-Between 1 _ (next_of r db)
      (Between-filter (is_after after) 1 (rows_of r db.inbox) (next_of r db) (s.spaced r))

-- Positions of deliveries rise, each above `low`.
abbrev pub Rising : ℕ → List Delivery → Type 0
Rising low [] = Unit
Rising low (d ∷ ds) = (low < d.position) × Rising d.position ds

Rising-weaken : (low low' : ℕ) (ds : List Delivery) → low' ≤ low → Rising low ds → Rising low' ds
Rising-weaken low low' [] h r = tt
Rising-weaken low low' (d ∷ ds) h r = (omega arith, r.1)

deliveries-Rising :
    (codec : Codec) (low : ℕ) (rows : List Row) (hi : ℕ)
    → Between (suc low) rows hi
    → Rising low (deliveries codec rows)
unfolding deliveries
deliveries-Rising codec low [] hi b = tt
deliveries-Rising codec low (row ∷ rows) hi b = ground (
  arith,
  deliveries-Rising codec row.position rows hi b.1,
  Rising-weaken row.position low (deliveries codec rows),
)

abbrev pub int64_limit : ℕ
int64_limit = 9223372036854775808

deliveries_above :
    (codec : Codec) (after lo : ℕ) (rows : List Row) (hi : ℕ)
    → Between lo rows hi
    → All (λ row. ltb after row.position ≡ true) rows
    → Rising after (deliveries codec rows)
unfolding deliveries
deliveries_above codec after lo [] hi b a = tt
deliveries_above codec after lo (row ∷ rows) hi b a = ground (
  arith,
  deliveries-Rising codec row.position rows hi b.1,
  deliveries_above codec after (suc row.position) rows hi b.1 a.1,
)

filter-is_after :
    (after : ℕ) (rows : List Row)
    → after < int64_limit
    → filter (is_after after) rows ≡ filter (λ row. ltb after row.position) rows
filter-is_after after rows h = filter-congr _ _ rows (All-intro rows (λ row. ground arith))

pub resume-select :
    (codec : Codec) (fails : Faults) (max : ℕ) (q : Queue) (r : String) (after : ℕ)
    → IsSound max q.db
    → fails Stmt.selecting ≡ false
    → resume codec fails q r after
      ≡ ok (deliveries codec (filter (is_after after) (rows_of r q.db.inbox)))
unfolding resume
resume-select codec fails max q r after s f = ground (arith, select_after-filter max q.db r after s)

-- On sound tables, for a position below 2^63 and where the query succeeds, Resume gives the
-- readable rows of the recipient above `after` and nothing else, in rising order of position.
pub resume_suffix :
    (codec : Codec) (fails : Faults) (q : Queue) (r : String) (after : ℕ)
    → IsSound q.max_size q.db
    → after < int64_limit
    → fails Stmt.selecting ≡ false
    → (ds : List Delivery) × (resume codec fails q r after ≡ ok ds)
      × (ds ≡ deliveries codec (filter (λ row. ltb after row.position) (rows_of r q.db.inbox)))
      × Rising after ds
resume_suffix codec fails q r after s small f = (
  deliveries codec (filter (λ row. ltb after row.position) (rows_of r q.db.inbox)),
  rw (← filter-is_after after (rows_of r q.db.inbox) small)
      (resume-select codec fails q.max_size q r after s f),
  refl,
  deliveries_above codec after 1 _ (next_of r q.db)
      (Between-filter (λ row. ltb after row.position) 1 (rows_of r q.db.inbox) (next_of r q.db)
        (s.spaced r))
      (All-filter (λ row. ltb after row.position) (rows_of r q.db.inbox)),
)

Between-from :
    (lo : ℕ) (rows : List Row) (hi : ℕ) → Between lo rows hi → All (λ row. lo ≤ row.position) rows
Between-from lo [] hi b = tt
Between-from lo (row ∷ rows) hi b = (
  b.0,
  All-map2 rows (λ x one two. omega arith) (Between-from (suc row.position) rows hi b.1)
      (Between-from (suc row.position) rows hi b.1),
)

-- A position of 2^63 or more turns negative in `int64(after)`, so Resume replays the whole inbox,
-- as from position 0.
pub resume_wraps :
    (codec : Codec) (fails : Faults) (q : Queue) (r : String) (after : ℕ)
    → IsSound q.max_size q.db
    → int64_limit ≤ after
    → after < 18446744073709551616
    → resume codec fails q r after ≡ resume codec fails q r 0
unfolding resume
resume_wraps codec fails q r after s big wide = rw (
  select_after-filter q.max_size q.db r after s,
  select_after-filter q.max_size q.db r 0 s,
  filter-congr (is_after after) (is_after 0) (rows_of r q.db.inbox) (
      All-map2 (rows_of r q.db.inbox) (λ row one two. ground arith)
        (Between-from 1 (rows_of r q.db.inbox) (next_of r q.db) (s.spaced r))
        (Between-from 1 (rows_of r q.db.inbox) (next_of r q.db) (s.spaced r))),
)

filter-covered :
    (r : String) (p a : ℕ) (rows : List Row)
    → a ≤ p
    → p < int64_limit
    → filter (is_after a) (filter (λ row. not (is_covered r p row)) (rows_of r rows))
      ≡ filter (is_after p) (rows_of r rows)
filter-covered r p a rows le small =
    filter-filter (is_after a) (λ row. not (is_covered r p row)) (rows_of r rows)
    ∙ filter-congr _ _ (rows_of r rows) (
        All-map2 (rows_of r rows) (λ row mine one. ground arith) (All-filter (is_for r) rows)
          (All-filter (is_for r) rows))

filter-not_covered :
    (r j : String) (p : ℕ) (rows : List Row)
    → r ≢ j
    → filter (λ row. not (is_covered r p row)) (rows_of j rows) ≡ rows_of j rows
filter-not_covered r j p [] ne = refl
filter-not_covered r j p (row ∷ rows) ne =
    ground (arith, filter-not_covered r j p rows ne, eq_iff row.recipient r, eq_iff row.recipient j)

-- After a successful Ack of p below 2^63, a resume of that recipient from p or from any older
-- position gives what a resume from p gave before: nothing acknowledged comes back, whatever the
-- client reports. A resume of another recipient is unchanged.
pub ack-resume :
    (codec : Codec) (fails fails' : Faults) (q : Queue) (r : String) (p a : ℕ)
    → IsSound q.max_size q.db
    → (ack fails q r p).0 ≡ ok tt
    → a ≤ p
    → p < int64_limit
    → (resume codec fails' (ack fails q r p).1 r a ≡ resume codec fails' q r p)
      × ((j : String) (b : ℕ)
          → r ≢ j
          → resume codec fails' (ack fails q r p).1 j b ≡ resume codec fails' q j b)
unfolding resume
ack-resume codec fails fails' q r p a s done le small =
    let s' : IsSound q.max_size (ack fails q r p).1.db = ack-IsSound fails q r p s in
    (
      rw (
        select_after-filter q.max_size (ack fails q r p).1.db r a s',
        ack-rows_of fails q r p r done,
        filter-covered r p a q.db.inbox le small,
        select_after-filter q.max_size q.db r p s,
      ),
      λ j b ne. rw (
        select_after-filter q.max_size (ack fails q r p).1.db j b s',
        ack-rows_of fails q r p j done,
        filter-not_covered r j p q.db.inbox ne,
        select_after-filter q.max_size q.db j b s,
      ),
    )

-- The rows that Resume skips.
abbrev pub is_unreadable : Codec → Row → Bool
is_unreadable codec row = elim (delivery_from_storage codec row.position row.body) [
  | none ↦ true
  | some env ↦ false
]

length-deliveries :
    (codec : Codec) (rows : List Row)
    → length (deliveries codec rows) + length (filter (is_unreadable codec) rows) ≡ length rows
unfolding deliveries
length-deliveries codec [] = refl
length-deliveries codec (row ∷ rows) = ground (arith, length-deliveries codec rows)

-- PendingCount exceeds what Resume delivers by the number of rows above `after` that cannot be
-- read: the two agree exactly when there is none.
pub pending_count-resume :
    (codec : Codec) (fails : Faults) (q : Queue) (r : String) (after : ℕ) {n : ℕ}
    {ds : List Delivery}
    → IsSound q.max_size q.db
    → pending_count fails q r after ≡ ok n
    → resume codec fails q r after ≡ ok ds
    → n
      ≡ length ds
        + length (filter (is_unreadable codec) (filter (is_after after) (rows_of r q.db.inbox)))
unfolding pending_count count_after resume
pending_count-resume codec fails q r after s counted resumed = ground (
  arith,
  select_after-filter q.max_size q.db r after s,
  length-deliveries codec (filter (is_after after) (rows_of r q.db.inbox)),
)
