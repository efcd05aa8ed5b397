-- ===== src/Client/Beats.antt =====
-- The heartbeat keeps its grid (internal/control/heartbeat.go).
use walkie.Prelude.{
  Bool-cases, ℕ, suc, zero, ◌+◌, ◌*◌, ◌≤◌, ◌<◌, ◌≡◌, refl, ◌∙◌, false, none, some, arith, ltb, ◌⊎◌,
  inl, inr,
}
use native.Mathlib.Nat.{suc-mul}
use walkie.Client.Config.{Config, validate}
use walkie.Client.Watchdog.{Watchdog, push_beat, beat}

next_slot : (next k period : ℕ) → next + period + k * period ≡ next + suc k * period
next_slot next k period = omega (arith, suc-mul k period)

push_beat-ends :
    (rounds period now next : ℕ)
    → 0 < period
    → now < next + rounds
    → (k : ℕ) × (next' : ℕ) × (push_beat (suc rounds) period now next ≡ some next')
      × (next' ≡ next + k * period)
      × (now < next')
      × ((next' ≡ next) ⊎ (next' ≤ now + period))
unfolding push_beat
push_beat-ends zero period now next positive enough =
    (0, next, ground (arith, enough), omega arith, omega arith, inl refl)
push_beat-ends (suc rounds) period now next positive enough = elim (Bool-cases (ltb now next)) [
  | inl ahead ↦ (0, next, rw ahead refl, omega arith, ground arith, inl refl)
  | inr behind ↦
      let (k, next', runs, grid, later, near) =
        push_beat-ends rounds period now (next + period) positive (omega arith) in
      (
        suc k,
        next',
        rw behind runs,
        grid ∙ next_slot next k period,
        later,
        inr (ground (arith, near)),
      )
]

-- The beat loop's inner loop ends, within `now + 2` rounds, on any watchdog that runs under a valid
-- configuration: the next beat stays on the grid of the period, lies after `now`, and is the first
-- such slot, so at most one period ahead unless it was ahead already; the timer is armed for it.
pub beat_ends :
    (cfg : Config) (now : ℕ) (w : Watchdog)
    → validate cfg ≡ none
    → w.stopped ≡ false
    → (k : ℕ) × (w' : Watchdog) × (beat (now + 2) cfg now w ≡ some w')
      × (w'.next_beat ≡ w.next_beat + k * cfg.heartbeat_period)
      × (now < w'.next_beat)
      × ((w'.next_beat ≡ w.next_beat) ⊎ (w'.next_beat ≤ now + cfg.heartbeat_period))
      × (w'.hb_timer ≡ some w'.next_beat)
unfolding beat validate
beat_ends cfg now w valid running =
    let positive : 0 < cfg.heartbeat_period = ground (arith, valid) in
    let (k, next, runs, grid, later, near) =
      push_beat-ends (suc now) cfg.heartbeat_period now w.next_beat positive (omega arith) in
    let rounds : now + 2 ≡ suc (suc now) = omega arith in
    (
      k,
      record w { hb_timer = some next; next_beat = next },
      rw (running, rounds, runs) refl,
      grid,
      later,
      near,
      refl,
    )
