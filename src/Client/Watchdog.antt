-- ===== src/Client/Watchdog.antt =====
-- The watchdog of a session (internal/control/heartbeat.go).
use walkie.Prelude.{
  ℕ, suc, zero, ◌+◌, ◌%◌, ◌^◌, Bool, true, false, not, Option, none, some, ltb, ◌==◌, if◌then◌else◌,
}
use walkie.Control.State.{State, online}
use walkie.Client.Config.{Config, validate}

-- The two timers are kept as the times they are armed for.
pub record Watchdog : Type 0 where
  pub gen : ℕ
  pub hb_timer : Option ℕ
  pub deadline : Option ℕ
  pub stopped : Bool
  pub next_beat : ℕ

-- armDeadlineLocked; the timer of the deadline before is stopped, its goroutine still there.
abbrev pub arm_deadline : Config → ℕ → Watchdog → Watchdog
arm_deadline cfg now w = record w {
  gen = (w.gen + 1) % 2 ^ 64;
  deadline = some (now + cfg.dead_peer_interval);
}

abbrev pub beginning : Config → ℕ → Watchdog
beginning cfg now = arm_deadline cfg now (record {
  gen = 0;
  hb_timer = some (now + cfg.heartbeat_period);
  deadline = none;
  stopped = false;
  next_beat = now + cfg.heartbeat_period;
})

-- StartWatchdog; `none` is an error.
unfoldable pub start_watchdog : Config → ℕ → Option Watchdog
unfolding validate
start_watchdog cfg now = elim (validate cfg) [ none ↦ some (beginning cfg now) | some e ↦ none ]

-- Activity
unfoldable pub activity : Config → ℕ → Watchdog → Watchdog
activity cfg now w = if w.stopped then w else arm_deadline cfg now w

-- The claim of SendFailed: whether this call is the one to give the verdict.
unfoldable pub send_failed : Watchdog → Bool × Watchdog
send_failed w = if w.stopped then (false, w) else (true, record w { stopped = true })

-- Stop, as often as it is called.
unfoldable pub stop : Watchdog → Watchdog
stop w = record w { stopped = true; hb_timer = none; deadline = none }

-- What watchDead does with a deadline that has fired: nothing, retire the watchdog, or claim the
-- verdict.
unfoldable pub watch_dead : ℕ → State → Watchdog → Bool × Watchdog
unfolding stop
watch_dead gen cur w =
    if w.stopped
    then (false, w)
    else if not (gen == w.gen)
    then (false, w)
    else elim cur [ online ↦ (true, record w { stopped = true }) | _ ↦ (false, stop w) ]

-- The loop that pushes `next` past `now`, in at most `rounds` rounds.
unfoldable pub push_beat : ℕ → ℕ → ℕ → ℕ → Option ℕ
push_beat zero period now next = none
push_beat (suc rounds) period now next =
    let rest = push_beat rounds period now (next + period) in
    if ltb now next then some next else rest

abbrev pub rearmed : Watchdog → Option ℕ → Option Watchdog
rearmed w none = none
rearmed w (some next) = some (record w { hb_timer = some next; next_beat = next })

-- One turn of beatLoop up to its send, `none` where the loop returns instead or runs out of rounds.
unfoldable pub beat : ℕ → Config → ℕ → Watchdog → Option Watchdog
unfolding push_beat
beat rounds cfg now w =
    if w.stopped then none else rearmed w (push_beat rounds cfg.heartbeat_period now w.next_beat)
