-- ===== src/Client/Steady.antt =====
-- What every turn of the client's goroutines keeps (internal/control/client.go and
-- internal/control/heartbeat.go).
use walkie.Prelude.{
  Bool-cases, ℕ, ◌+◌, ◌≡◌, refl, String, Bool, true, false, not, ◌&&◌, List, [], ◌∷◌, arith, ◌⊎◌,
  inl, inr,
}
use walkie.Control.State.{
  State, disconnected, connecting, handshaking, online, degraded, same_state, can_transition,
  Machine, transition, close_machine,
}
use walkie.Client.Config.{Config}
use walkie.Client.Watchdog.{activity, send_failed, watch_dead, stop}
use walkie.Client.Supervisor.{
  Client, Phase, at_top, dialing, shaking, serving, waiting, returned, Reader, reading, failing,
  ended, Verdict, degrade, disconnect, is_refused, is_panicked, change, redial, fail, dial, leave,
  notice, read_fail, claimed,
}

-- The machine's state while the verdict of a session is open: claimed, under way, or carried out.
abbrev pub settling : List Verdict → State → Bool
settling [] disconnected = true
settling (degrade ∷ []) online = true
settling (disconnect ∷ []) online = true
settling (disconnect ∷ []) degraded = true
settling _ _ = false

-- The states that go together, with whether the watchdog is stopped.
abbrev pub fits : Phase → Bool → Reader → List Verdict → State → Bool
fits at_top true ended [] disconnected = true
fits dialing true ended [] connecting = true
fits shaking true ended [] handshaking = true
fits serving false reading [] online = true
fits serving true reading vs cur = settling vs cur
fits serving true failing [] online = true
fits serving true ended vs cur = settling vs cur
fits waiting true ended vs cur = settling vs cur
fits returned true ended [] cur = true
fits returned true ended vs cur = settling vs cur
fits _ _ _ _ _ = false

-- Nothing has panicked, and with the machine not closed the states go together.
pub record IsSteady (c : Client) : Type 0 where
  pub running : c.crashed ≡ false
  pub fit :
      c.mach.closed ≡ false → fits c.phase c.watchdog.stopped c.reader c.verdicts c.mach.cur ≡ true

-- What a call of Transition does.
pub record Transitions (now : ℕ) (to : State) (reason : String) (m : Machine) : Type 0 where
  pub refuses_closed : is_refused (transition now to reason m).0 ≡ m.closed
  pub panics :
      is_panicked (transition now to reason m).0
      ≡ (not m.closed && (not (same_state m.cur to) && not (can_transition m.cur to)))
  pub cur :
      m.closed ≡ false
      → (can_transition m.cur to ≡ true) ⊎ (same_state m.cur to ≡ true)
      → (transition now to reason m).1.cur ≡ to
  pub closed : (transition now to reason m).1.closed ≡ m.closed

same_state-eq : (s t : State) → same_state s t ≡ true → s ≡ t
same_state-eq disconnected disconnected e = refl
same_state-eq connecting connecting e = refl
same_state-eq handshaking handshaking e = refl
same_state-eq online online e = refl
same_state-eq degraded degraded e = refl
same_state-eq _ _ e = absurd (ground (arith, e))

moved_cur :
    (now : ℕ) (to : State) (reason : String) (m : Machine)
    → m.closed ≡ false
    → (can_transition m.cur to ≡ true) ⊎ (same_state m.cur to ≡ true)
    → (transition now to reason m).1.cur ≡ to
unfolding transition
moved_cur now to reason m open_machine legal = elim (Bool-cases (same_state m.cur to)) [
  | inl same ↦ rw (open_machine, same) (same_state-eq m.cur to same)
  | inr other ↦ ground (arith, open_machine, legal, other)
]

pub transition-Transitions :
    (now : ℕ) (to : State) (reason : String) (m : Machine) → Transitions now to reason m
unfolding transition
transition-Transitions now to reason m = record {
  refuses_closed = ground arith;
  panics = ground arith;
  cur = moved_cur now to reason m;
  closed = ground arith;
}

module _ (now : ℕ) (c : Client) (steady : IsSteady c) where
  pub redial-IsSteady : c.phase ≡ at_top → IsSteady (redial now c)
  unfolding can_transition
  redial-IsSteady at =
      let t = transition-Transitions now connecting "dial attempt started" c.mach in
      record {
        running = ground (arith, at, steady.running, steady.fit, t.panics);
        fit = λ o. ground (arith, at, steady.fit, t.refuses_closed, t.closed, t.cur, o);
      }

  pub fail-IsSteady :
      (reason : String) → (c.phase ≡ dialing) ⊎ (c.phase ≡ shaking) → IsSteady (fail now reason c)
  unfolding can_transition
  fail-IsSteady reason at =
      let t = transition-Transitions now disconnected reason c.mach in
      record {
        running = ground (arith, at, steady.running, steady.fit, t.panics);
        fit = λ o. ground (arith, at, steady.fit, t.refuses_closed, t.closed, t.cur, o);
      }

  pub dial-IsSteady : (session : ℕ) → c.phase ≡ dialing → IsSteady (dial now session c)
  unfolding can_transition
  dial-IsSteady session at =
      let t = transition-Transitions now handshaking "transport established" c.mach in
      record {
        running = ground (arith, at, steady.running, steady.fit, t.panics);
        fit = λ o. ground (arith, at, steady.fit, t.refuses_closed, t.closed, t.cur, o);
      }

  pub leave-IsSteady : c.phase ≡ serving → c.reader ≡ ended → IsSteady (leave c)
  unfolding stop
  leave-IsSteady at done = record {
    running = steady.running;
    fit = λ o. ground (arith, at, done, steady.fit, o);
  }

  pub notice-IsSteady : c.phase ≡ serving → IsSteady (notice c.mach.cur c)
  unfolding stop
  notice-IsSteady at = record {
    running = ground (arith, steady.running);
    fit = λ o. ground (arith, at, steady.fit, o);
  }

  pub read_fail-IsSteady : c.reader ≡ reading → IsSteady (read_fail (send_failed c.watchdog) c)
  unfolding send_failed
  read_fail-IsSteady at = record {
    running = steady.running;
    fit = λ o. ground (arith, at, steady.fit, o);
  }

  pub beat_fail-IsSteady : IsSteady (claimed disconnect (send_failed c.watchdog) c)
  unfolding send_failed
  beat_fail-IsSteady = record { running = steady.running; fit = λ o. ground (arith, steady.fit, o) }

  pub silent-IsSteady :
      (gen : ℕ) → IsSteady (claimed degrade (watch_dead gen c.mach.cur c.watchdog) c)
  unfolding watch_dead stop
  silent-IsSteady gen = record {
    running = steady.running;
    fit = λ o. ground (arith, steady.fit, o);
  }

  pub receive-IsSteady :
      (cfg : Config) → IsSteady (record c { watchdog = activity cfg now c.watchdog })
  unfolding activity
  receive-IsSteady cfg = record {
    running = steady.running;
    fit = λ o. ground (arith, steady.fit, o);
  }

  pub read_end-IsSteady :
      c.reader ≡ failing
      → IsSteady (record (change now disconnected "transport error" c) {
        watchdog = stop c.watchdog;
        reader = ended;
      })
  unfolding can_transition stop
  read_end-IsSteady at =
      let t = transition-Transitions now disconnected "transport error" c.mach in
      record {
        running = ground (arith, at, steady.running, steady.fit, t.panics);
        fit = λ o. ground (arith, at, steady.fit, t.refuses_closed, t.closed, t.cur, o);
      }

  pub close-IsSteady : IsSteady (record c { mach = close_machine c.mach })
  unfolding close_machine
  close-IsSteady = record { running = steady.running; fit = λ o. ground (arith, steady.fit, o) }

  pub wait-IsSteady :
      c.phase ≡ waiting
      → c.verdicts ≡ []
      → IsSteady (record c { attempt = c.attempt + 1; phase = at_top })
  wait-IsSteady at quiet = record {
    running = steady.running;
    fit = λ o. ground (arith, at, quiet, steady.fit, o);
  }

  pub halt-IsSteady : IsSteady (record c { stopping = true })
  halt-IsSteady = record { running = steady.running; fit = steady.fit }

  pub give_up-IsSteady : c.phase ≡ waiting → IsSteady (record c { phase = returned })
  give_up-IsSteady at = record {
    running = steady.running;
    fit = λ o. ground (arith, at, steady.fit, o);
  }
