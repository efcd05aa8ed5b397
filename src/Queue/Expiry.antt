-- ===== src/Queue/Expiry.antt =====
-- The TTL sweep and the watcher (internal/coordinator/queue/queue.go): the rows that expire are the
-- rows that go, and the timer is armed at the earliest deadline that is left.
use walkie.Prelude.{
  ℕ, suc, ◌+◌, ◌<◌, ◌≡◌, refl, sym, ap, ◌∙◌, String, Bool, false, not, List, [], ◌∷◌, arith, eq_iff,
  length, filter, any, All, max, filter-filter, filter-congr, All-map2, All-intro, inl, inr,
  Bool-cases,
}
use walkie.Queue.Tables.{
  Row, Tables, rows_of, is_for, is_expired, select_expired, delete_row, same_key,
}
use walkie.Queue.Ops.{Faults, ok, Queue, evict_all, observe_all, observe_depth, evicting}
use walkie.Queue.Rows.{Between}
use walkie.Queue.Sound.{IsSound, filter-IsSound}

-- No two rows have one key.
abbrev Distinct : List Row → Type 0
Distinct [] = Unit
Distinct (x ∷ xs) = All (λ y. same_key x y ≡ false) xs × Distinct xs

abbrev Spread : List Row → Type 0
Spread rows = (r : String) → (lo : ℕ) × (hi : ℕ) × Between lo (rows_of r rows) hi

apart_from :
    (x : Row) (lo hi : ℕ) (rows : List Row)
    → x.position < lo
    → Between lo (rows_of x.recipient rows) hi
    → All (λ y. same_key x y ≡ false) rows
apart_from x lo hi [] h b = tt
apart_from x lo hi (y ∷ rows) h b = ground (
  arith,
  apart_from x lo hi rows h,
  apart_from x (suc y.position) hi rows,
  eq_iff y.recipient x.recipient,
)

Spread-tail : (x : Row) (rows : List Row) → Spread (x ∷ rows) → Spread rows
Spread-tail x rows h r = elim (Bool-cases (is_for r x)) [
  | inl this ↦ (suc x.position, (h r).1, ground (arith, (h r).2))
  | inr other ↦ ((h r).0, (h r).1, ground (arith, (h r).2))
]

Spread-Distinct : (rows : List Row) → Spread rows → Distinct rows
Spread-Distinct [] h = tt
Spread-Distinct (x ∷ rows) h = (
  apart_from x (suc x.position) (h x.recipient).1 rows (omega arith)
      (ground (arith, (h x.recipient).2, eq_iff x.recipient x.recipient)),
  Spread-Distinct rows (Spread-tail x rows h),
)

pub IsSound-Distinct : (max : ℕ) (db : Tables) → IsSound max db → Distinct db.inbox
IsSound-Distinct max db s = Spread-Distinct db.inbox (λ r. (1, _, s.spaced r))

any_unmarked :
    (p : Row → Bool) (x : Row) (rows : List Row)
    → All (λ y. same_key x y ≡ false) rows
    → any (λ e. same_key e x) (filter p rows) ≡ false
any_unmarked p x [] h = refl
any_unmarked p x (y ∷ rows) h = ground (
  arith,
  any_unmarked p x rows h.1,
  eq_iff x.recipient y.recipient,
  eq_iff y.recipient x.recipient,
)

-- Among rows with distinct keys, those selected by a test are those with the key of one selected.
marked :
    (p : Row → Bool) (rows : List Row)
    → Distinct rows
    → All (λ row. any (λ e. same_key e row) (filter p rows) ≡ p row) rows
marked p [] d = tt
marked p (x ∷ rows) d = (
  ground (arith, any_unmarked p x rows d.0, eq_iff x.recipient x.recipient),
  All-map2 rows (λ y apart here. ground arith) d.0 (marked p rows d.1),
)

-- The queue without the rows that have the key of one in `due`, the evictions counted.
abbrev pub without : List Row → Queue → Queue
without due q = record q {
  db = record q.db { inbox = filter (λ row. not (any (λ e. same_key e row) due)) q.db.inbox };
  metrics = record q.metrics { ttl = q.metrics.ttl + length due };
}

-- The fields that a run of evictions or observations leaves alone.
abbrev pub Kept : Queue → Queue → Type 0
Kept q q' =
    (q'.ttl ≡ q.ttl)
    × (q'.max_size ≡ q.max_size)
    × (q'.timer ≡ q.timer)
    × (q'.is_closed ≡ q.is_closed)
    × (q'.swept ≡ q.swept)
    × (q'.db.cursors ≡ q.db.cursors)

pub evict_all-Kept :
    (fails : Faults) (due : List Row) (q : Queue) → Kept q (evict_all fails due q).1
unfolding evict_all delete_row
evict_all-Kept fails [] q = ground arith
evict_all-Kept fails (e ∷ due) q = ground (arith, evict_all-Kept fails due (without (e ∷ []) q))

pub evict_all-IsSound :
    (fails : Faults) (max : ℕ) (due : List Row) (q : Queue)
    → IsSound max q.db
    → IsSound max (evict_all fails due q).1.db
unfolding evict_all delete_row
evict_all-IsSound fails max [] q s = s
evict_all-IsSound fails max (e ∷ due) q s = elim (Bool-cases (fails (evicting e))) [
  | inl stuck ↦ rw stuck s
  | inr gone ↦
      rw gone (
        evict_all-IsSound fails max due _ (filter-IsSound max (λ row. not (same_key e row)) q.db s))
]

filter-without :
    (e : Row) (due rows : List Row)
    → filter
        (λ row. not (any (λ e. same_key e row) due))
        (filter (λ row. not (same_key e row)) rows)
      ≡ filter (λ row. not (any (λ e. same_key e row) (e ∷ due))) rows
filter-without e due rows =
    filter-filter (λ row. not (any (λ e. same_key e row) due)) (λ row. not (same_key e row)) rows
    ∙ filter-congr _ _ rows (All-intro rows (λ row. ground arith))

filter-without_none :
    (rows : List Row) → filter (λ row. not (any (λ e. same_key e row) [])) rows ≡ rows
filter-without_none [] = refl
filter-without_none (row ∷ rows) = ap (◌∷◌ row) (filter-without_none rows)

evict_all-inbox :
    (fails : Faults) (due : List Row) (q : Queue)
    → (evict_all fails due q).0 ≡ ok tt
    → (evict_all fails due q).1.db.inbox
      ≡ filter (λ row. not (any (λ e. same_key e row) due)) q.db.inbox
unfolding evict_all delete_row
evict_all-inbox fails [] q h = sym (filter-without_none q.db.inbox)
evict_all-inbox fails (e ∷ due) q h = ground (
  arith,
  evict_all-inbox fails due (record q {
    db = record q.db { inbox = filter (λ row. not (same_key e row)) q.db.inbox };
    metrics = record q.metrics { ttl = q.metrics.ttl + 1 };
  }),
  filter-without e due q.db.inbox,
)

-- What the sweep selects and deletes by key is what has expired.
pub evict_all-expired :
    (fails : Faults) (now : ℕ) (q : Queue)
    → IsSound q.max_size q.db
    → (evict_all fails (select_expired q.ttl now q.db) q).0 ≡ ok tt
    → (evict_all fails (select_expired q.ttl now q.db) q).1.db.inbox
      ≡ filter (λ row. not (is_expired q.ttl now row)) q.db.inbox
unfolding select_expired
evict_all-expired fails now q s h =
    evict_all-inbox fails (filter (is_expired q.ttl now) q.db.inbox) q h
    ∙ filter-congr _ _ q.db.inbox (
        All-map2 q.db.inbox (λ row one two. ap not one)
          (marked (is_expired q.ttl now) q.db.inbox (IsSound-Distinct q.max_size q.db s))
          (marked (is_expired q.ttl now) q.db.inbox (IsSound-Distinct q.max_size q.db s)))

pub observe_all-Kept :
    (fails : Faults) (rs : List String) (q : Queue) → Kept q (observe_all fails rs q)
observe_all-Kept fails [] q = ground arith
observe_all-Kept fails (r ∷ rs) q =
    ground (arith, observe_all-Kept fails rs (observe_depth fails r q))

pub observe_all-inbox :
    (fails : Faults) (rs : List String) (q : Queue) → (observe_all fails rs q).db ≡ q.db
observe_all-inbox fails [] q = refl
observe_all-inbox fails (r ∷ rs) q =
    ground (arith, observe_all-inbox fails rs (observe_depth fails r q))
