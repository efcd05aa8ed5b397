-- ===== src/Queue/Sweep.antt =====
-- sweep and watch (internal/coordinator/queue/queue.go), whole.
use walkie.Prelude.{
  ℕ, ◌≡◌, refl, ap, ◌∙◌, true, false, not, Option, none, some, List, [], ◌∷◌, arith, filter, All,
  All-filter, All-map2, inl, inr, ◌⊎◌,
}
use walkie.Queue.Tables.{Row, Tables, is_expired, select_expired}
use walkie.Queue.Ops.{
  Faults, Error, Result, ok, err, Queue, Timer, sweep, evict_all, rearm_locked, watch_turn,
  recipients, observe_all, finding_earliest, signal_swept, take_fire, is_due,
}
use walkie.Queue.Sound.{IsSound}
use walkie.Queue.Expiry.{
  evict_all-Kept, evict_all-IsSound, evict_all-expired, observe_all-Kept, observe_all-inbox,
}
use walkie.Queue.Armed.{IsArmed, rearm_locked-IsArmed}

-- The queue after the evictions, with the depths of the touched inboxes observed.
abbrev observed : Faults → ℕ → Queue → Queue
observed fails now q =
    observe_all fails (recipients (select_expired q.ttl now q.db))
      (evict_all fails (select_expired q.ttl now q.db) q).1

result-cases : (r : Result (Unit {0})) → (r ≡ ok tt) ⊎ ((e : Error) × (r ≡ err e))
result-cases (ok u) = inl refl
result-cases (err e) = inr (e, refl)

sweep-ok :
    (fails : Faults) (now : ℕ) (q : Queue)
    → (sweep fails now q).0 ≡ ok tt
    → ((evict_all fails (select_expired q.ttl now q.db) q).0 ≡ ok tt)
      × ((sweep fails now q).1
          ≡ signal_swept
              (select_expired q.ttl now q.db)
              (rearm_locked fails now (observed fails now q)))
unfolding sweep
sweep-ok fails now q h = ground arith

sweep-err :
    (fails : Faults) (now : ℕ) (q : Queue) {e : Error}
    → (sweep fails now q).0 ≡ err e
    → ((sweep fails now q).1 ≡ (evict_all fails (select_expired q.ttl now q.db) q).1)
      ⊎ ((sweep fails now q).1 ≡ q)
unfolding sweep
sweep-err fails now q h = ground arith

db-signal_swept : (due : List Row) (q : Queue) → (signal_swept due q).db ≡ q.db
db-signal_swept [] q = refl
db-signal_swept (e ∷ due) q = refl

db-rearm_locked : (fails : Faults) (now : ℕ) (q : Queue) → (rearm_locked fails now q).db ≡ q.db
unfolding rearm_locked
db-rearm_locked fails now q = ground arith

IsArmed-signal_swept :
    (now : ℕ) (due : List Row) (q : Queue) → IsArmed now q → IsArmed now (signal_swept due q)
IsArmed-signal_swept now [] q a = a
IsArmed-signal_swept now (e ∷ due) q (IsArmed.idle t i) = IsArmed.idle t i
IsArmed-signal_swept now (e ∷ due) q (IsArmed.armed t e1 e2 e3 e4) = IsArmed.armed t e1 e2 e3 e4

unexpired :
    (ttl now : ℕ) (rows : List Row)
    → All
        (λ row. is_expired ttl now row ≡ false)
        (filter (λ row. not (is_expired ttl now row)) rows)
unexpired ttl now rows =
    All-map2 _ (λ row one two. ground arith) (All-filter (λ row. not (is_expired ttl now row)) rows)
      (All-filter (λ row. not (is_expired ttl now row)) rows)

-- On sound tables, a sweep that reports success has removed exactly the rows whose time is up, and
-- has touched no cursor.
pub sweep_removes_expired :
    (fails : Faults) (now : ℕ) (q : Queue)
    → IsSound q.max_size q.db
    → (sweep fails now q).0 ≡ ok tt
    → ((sweep fails now q).1.db.inbox ≡ filter (λ row. not (is_expired q.ttl now row)) q.db.inbox)
      × ((sweep fails now q).1.db.cursors ≡ q.db.cursors)
sweep_removes_expired fails now q s h =
    let (done, result) = sweep-ok fails now q h in
    let same : (sweep fails now q).1.db ≡ (evict_all fails (select_expired q.ttl now q.db) q).1.db =
      ap (λ (q' : Queue). q'.db) result
      ∙ db-signal_swept (select_expired q.ttl now q.db)
          (rearm_locked fails now (observed fails now q))
      ∙ db-rearm_locked fails now (observed fails now q)
      ∙ observe_all-inbox fails (recipients (select_expired q.ttl now q.db))
          (evict_all fails (select_expired q.ttl now q.db) q).1 in
    (
      ap (λ (db : Tables). db.inbox) same ∙ evict_all-expired fails now q s done,
      ap (λ (db : Tables). db.cursors) same
          ∙ (evict_all-Kept fails (select_expired q.ttl now q.db) q).5,
    )

-- After such a sweep, if the earliest deadline could be read, the timer stands at the earliest
-- deadline left, which is ahead, and there is no timer only if nothing is retained.
pub sweep-IsArmed :
    (fails : Faults) (now : ℕ) (q : Queue)
    → IsSound q.max_size q.db
    → (sweep fails now q).0 ≡ ok tt
    → fails finding_earliest ≡ false
    → IsArmed now (sweep fails now q).1
sweep-IsArmed fails now q s h readable =
    let due : List Row = select_expired q.ttl now q.db in
    let (done, result) = sweep-ok fails now q h in
    let evicted : Queue = (evict_all fails due q).1 in
    let same_db : (observed fails now q).db ≡ evicted.db =
      observe_all-inbox fails (recipients due) evicted in
    let same_ttl : (observed fails now q).ttl ≡ q.ttl =
      (observe_all-Kept fails (recipients due) evicted).0 ∙ (evict_all-Kept fails due q).0 in
    let left : (observed fails now q).db.inbox
        ≡ filter (λ row. not (is_expired q.ttl now row)) q.db.inbox =
      ap (λ (db : Tables). db.inbox) same_db ∙ evict_all-expired fails now q s done in
    rw result (
      IsArmed-signal_swept now due _ (
        rearm_locked-IsArmed fails now (observed fails now q) readable
          (rw (left, same_ttl) (unexpired q.ttl now q.db.inbox))))

-- Whatever fails on the way, a sweep keeps the invariant.
pub sweep-IsSound :
    (fails : Faults) (max : ℕ) (now : ℕ) (q : Queue)
    → IsSound max q.db
    → IsSound max (sweep fails now q).1.db
sweep-IsSound fails max now q s =
    let due : List Row = select_expired q.ttl now q.db in
    let evicted : IsSound max (evict_all fails due q).1.db = evict_all-IsSound fails max due q s in
    elim (result-cases (sweep fails now q).0) [
      | inl h ↦
          rw
            (
              (sweep-ok fails now q h).1,
              db-signal_swept due (rearm_locked fails now (observed fails now q)),
              db-rearm_locked fails now (observed fails now q),
              observe_all-inbox fails (recipients due) (evict_all fails due q).1,
            )
            evicted
      | inr (e, h) ↦ elim (sweep-err fails now q h) [ inl r ↦ rw r evicted | inr r ↦ rw r s ]
    ]

spent_stays :
    (fails : Faults) (now : ℕ) (q : Queue) (t : Timer)
    → q.timer ≡ some t
    → t.taken ≡ true
    → watch_turn fails now q ≡ q
unfolding watch_turn
spent_stays fails now q t h taken = ground arith

is_due-some :
    (now : ℕ) (timer : Option Timer) → is_due now timer ≡ true → (t : Timer) × (timer ≡ some t)
is_due-some now none h = cc
is_due-some now (some t) h = (t, refl)

watch_turn-due :
    (fails : Faults) (now : ℕ) (q : Queue)
    → q.is_closed ≡ false
    → is_due now q.timer ≡ true
    → watch_turn fails now q ≡ (sweep fails now (record q { timer = take_fire q.timer })).1
unfolding watch_turn
watch_turn-due fails now q is_open due = rw (is_open, due)

timer-sweep_err :
    (fails : Faults) (now : ℕ) (q : Queue) {e : Error}
    → (sweep fails now q).0 ≡ err e
    → (sweep fails now q).1.timer ≡ q.timer
timer-sweep_err fails now q h = elim (sweep-err fails now q h) [
  | inl r ↦ rw r ((evict_all-Kept fails (select_expired q.ttl now q.db) q).2)
  | inr r ↦ rw r
]

-- A sweep that fails leaves the watcher on a timer whose fire it has taken: until another operation
-- re-arms the timer, no later turn sweeps again, however much expires.
pub watch_turn_stalls :
    (fails fails' : Faults) (now now' : ℕ) (q : Queue) {e : Error}
    → q.is_closed ≡ false
    → is_due now q.timer ≡ true
    → (sweep fails now (record q { timer = take_fire q.timer })).0 ≡ err e
    → watch_turn fails' now' (watch_turn fails now q) ≡ watch_turn fails now q
watch_turn_stalls fails fails' now now' q is_open due failed =
    let (t, pending) = is_due-some now q.timer due in
    rw (watch_turn-due fails now q is_open due) (
      spent_stays fails' now' _ (record t { taken = true })
        (timer-sweep_err fails now (record q { timer = take_fire q.timer }) failed
          ∙ ap take_fire pending)
        refl)

-- A sweep leaves the bounds and the cursors alone, whatever fails.
pub sweep-Kept :
    (fails : Faults) (now : ℕ) (q : Queue)
    → ((sweep fails now q).1.db.cursors ≡ q.db.cursors)
      × ((sweep fails now q).1.max_size ≡ q.max_size)
      × ((sweep fails now q).1.ttl ≡ q.ttl)
unfolding sweep rearm_locked
sweep-Kept fails now q =
    let due : List Row = select_expired q.ttl now q.db in
    let out : Result (Unit {0}) × Queue = evict_all fails due q in
    ground (arith, evict_all-Kept fails due q, observe_all-Kept fails (recipients due) out.1)
