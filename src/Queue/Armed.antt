-- ===== src/Queue/Armed.antt =====
-- What the timer stands at after a sweep (internal/coordinator/queue/queue.go).
use walkie.Prelude.{
  ℕ, ◌+◌, ◌-◌, ◌≤◌, ◌<◌, ◌≡◌, refl, false, none, some, List, [], ◌∷◌, arith, All, All-map2, inl,
  inr, Option-cases,
}
use walkie.Queue.Tables.{Row, is_expired, min_enqueued_at}
use walkie.Queue.Ops.{Faults, Queue, Timer, rearm_locked, finding_earliest}

min_enqueued_at-none : (rows : List Row) → min_enqueued_at rows ≡ none → rows ≡ []
unfolding min_enqueued_at
min_enqueued_at-none [] h = refl
min_enqueued_at-none (row ∷ rows) h = ground arith

min_enqueued_at-le :
    (rows : List Row) {m : ℕ}
    → min_enqueued_at rows ≡ some m
    → All (λ row. m ≤ row.enqueued_at) rows
unfolding min_enqueued_at
min_enqueued_at-le [] h = tt
min_enqueued_at-le (row ∷ rows) {m} h = elim (Option-cases (min_enqueued_at rows)) [
  | inl last ↦ (ground arith, rw (min_enqueued_at-none rows last) tt)
  | inr (k, more) ↦ (
    ground arith,
    All-map2 rows (λ r one two. ground arith) (min_enqueued_at-le rows more)
        (min_enqueued_at-le rows more),
  )
]

min_enqueued_at-unexpired :
    (ttl now : ℕ) (rows : List Row) {m : ℕ}
    → min_enqueued_at rows ≡ some m
    → All (λ row. is_expired ttl now row ≡ false) rows
    → now < m + ttl
unfolding min_enqueued_at
min_enqueued_at-unexpired ttl now [] h u = cc
min_enqueued_at-unexpired ttl now (row ∷ rows) {m} h u =
    elim (Option-cases (min_enqueued_at rows)) [
      | inl last ↦ ground arith
      | inr (k, more) ↦ ground (arith, min_enqueued_at-unexpired ttl now rows more u.1)
    ]

-- The timer stands at the earliest deadline of the retained rows, which lies ahead; with nothing
-- retained there is none.
pub data IsArmed (now : ℕ) (q : Queue) : Type 0 where
  idle : q.timer ≡ none → q.db.inbox ≡ [] → IsArmed now q
  armed :
      (t : Timer)
      → q.timer ≡ some t
      → t.taken ≡ false
      → now < t.deadline
      → All (λ row. t.deadline ≤ row.enqueued_at + q.ttl) q.db.inbox
      → IsArmed now q

pub rearm_locked-IsArmed :
    (fails : Faults) (now : ℕ) (q : Queue)
    → fails finding_earliest ≡ false
    → All (λ row. is_expired q.ttl now row ≡ false) q.db.inbox
    → IsArmed now (rearm_locked fails now q)
unfolding rearm_locked
rearm_locked-IsArmed fails now q f u = elim (Option-cases (min_enqueued_at q.db.inbox)) [
  | inl none_left ↦ rw (f, none_left) (idle refl (min_enqueued_at-none q.db.inbox none_left))
  | inr (m, found) ↦
      rw (f, found)
        (armed (record { deadline = now + (m + q.ttl - now); taken = false }) refl refl
          (omega (arith, min_enqueued_at-unexpired q.ttl now q.db.inbox found u))
          (All-map2 q.db.inbox (λ row early one. ground arith) (min_enqueued_at-le q.db.inbox found)
            u))
]
