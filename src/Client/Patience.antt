-- ===== src/Client/Patience.antt =====
-- When the client keeps to the transition table (internal/control/client.go and
-- internal/control/heartbeat.go).
use walkie.Prelude.{
  if-then, some_eq, subst, ℕ, ◌+◌, ◌≡◌, refl, true, false, none, some, List, [], ◌∷◌, arith, inl,
  inr, get_elem?,
}
use walkie.Control.State.{connecting, online, can_transition}
use walkie.Client.Config.{Config}
use walkie.Client.Supervisor.{
  Client, Phase, at_top, dialing, shaking, serving, waiting, Reader, reading, failing, ended,
  Verdict, Turn, redials, dial_fails, dials, shake_fails, shakes, over, notices, waits, gives_up,
  halts, closes, receives, read_fails, read_ends, beat_fails, silent, convicts, turn, turn_at,
  redial, new_client,
}
use walkie.Client.Steady.{
  IsSteady, transition-Transitions, redial-IsSteady, fail-IsSteady, dial-IsSteady, leave-IsSteady,
  notice-IsSteady, read_fail-IsSteady, beat_fail-IsSteady, silent-IsSteady, receive-IsSteady,
  read_end-IsSteady, close-IsSteady, wait-IsSteady, halt-IsSteady, give_up-IsSteady,
}
use walkie.Client.Verdicts.{convict-IsSteady, shake-IsSteady}

-- The supervisor leaves its backoff with no verdict under way.
abbrev pub Patient : Turn → Client → Type 0
Patient waits c = c.verdicts ≡ []
Patient _ c = Unit

turn_at-IsSteady :
    (cfg : Config) (now : ℕ) (t : Turn) (p : Phase) (r : Reader) (c c' : Client)
    → c.phase ≡ p
    → c.reader ≡ r
    → Patient t c
    → turn_at cfg now t p r c ≡ some c'
    → IsSteady c
    → IsSteady c'
turn_at-IsSteady cfg now redials at_top r c c' at here wait e s =
    subst IsSteady (some_eq e) (redial-IsSteady now c s at)
turn_at-IsSteady cfg now dial_fails dialing r c c' at here wait e s =
    subst IsSteady (some_eq e) (fail-IsSteady now c s "dial failed" (inl at))
turn_at-IsSteady cfg now (dials session) dialing r c c' at here wait e s =
    subst IsSteady (some_eq e) (dial-IsSteady now c s session at)
turn_at-IsSteady cfg now shake_fails shaking r c c' at here wait e s =
    let landed : IsSteady (record c { inflight = none }) = record {
      running = s.running;
      fit = s.fit;
    } in
    subst IsSteady (some_eq e)
      (fail-IsSteady now (record c { inflight = none }) landed "handshake failed" (inr at))
turn_at-IsSteady cfg now (shakes session device) shaking r c c' at here wait e s =
    subst IsSteady (some_eq e) (shake-IsSteady now c s cfg session device at)
turn_at-IsSteady cfg now notices serving r c c' at here wait e s =
    subst IsSteady (some_eq e) (notice-IsSteady now c s at)
turn_at-IsSteady cfg now over serving ended c c' at here wait e s =
    subst IsSteady (some_eq e) (leave-IsSteady now c s at here)
turn_at-IsSteady cfg now waits waiting r c c' at here wait e s =
    subst IsSteady (some_eq e) (wait-IsSteady now c s at wait)
turn_at-IsSteady cfg now gives_up waiting r c c' at here wait e s =
    subst IsSteady (some_eq (if-then _ _ _ e)) (give_up-IsSteady now c s at)
turn_at-IsSteady cfg now halts p r c c' at here wait e s =
    subst IsSteady (some_eq e) (halt-IsSteady now c s)
turn_at-IsSteady cfg now closes p r c c' at here wait e s =
    subst IsSteady (some_eq e) (close-IsSteady now c s)
turn_at-IsSteady cfg now receives p reading c c' at here wait e s =
    subst IsSteady (some_eq e) (receive-IsSteady now c s cfg)
turn_at-IsSteady cfg now read_fails p reading c c' at here wait e s =
    subst IsSteady (some_eq e) (read_fail-IsSteady now c s here)
turn_at-IsSteady cfg now read_ends p failing c c' at here wait e s =
    subst IsSteady (some_eq e) (read_end-IsSteady now c s here)
turn_at-IsSteady cfg now beat_fails p r c c' at here wait e s =
    subst IsSteady (some_eq e) (beat_fail-IsSteady now c s)
turn_at-IsSteady cfg now (silent gen) p r c c' at here wait e s =
    subst IsSteady (some_eq e) (silent-IsSteady now c s gen)
turn_at-IsSteady cfg now (convicts i) p r c c' at here wait e s =
    convict-IsSteady now c s i (get_elem? c.verdicts i) c' refl e
turn_at-IsSteady cfg now _ p r c c' at here wait e s = absurd (ground (arith, e))

-- A run of the client, from its start, in which the supervisor is patient.
pub data Reached (cfg : Config) : Client → Type 0 where
  start : Reached cfg new_client
  next :
      {c c' : Client} (before : Reached cfg c) (now : ℕ) (t : Turn) (wait : Patient t c)
      (e : turn cfg now t c ≡ some c')
      → Reached cfg c'

Reached-IsSteady : (cfg : Config) (c : Client) → Reached cfg c → IsSteady c
unfolding turn
Reached-IsSteady cfg _ start = record { running = refl; fit = λ o. refl }
Reached-IsSteady cfg _ (next {c} {c'} before now t wait e) =
    turn_at-IsSteady cfg now t c.phase c.reader c c' refl refl wait e
      (Reached-IsSteady cfg c before)

-- However the supervisor, the read loop, the heartbeat loop, the silence deadlines, Stop and the
-- closing of the machine take turns, no call of Transition panics in a run in which the supervisor
-- leaves its backoff only with no verdict under way; and while the watchdog of a session that is
-- served has no verdict, the machine, if it is not closed, is online.
pub patient_never_crashes :
    (cfg : Config) (c : Client)
    → Reached cfg c
    → (c.crashed ≡ false)
      × (c.phase ≡ serving
          → c.watchdog.stopped ≡ false
          → c.mach.closed ≡ false
          → c.mach.cur ≡ online)
patient_never_crashes cfg c reached =
    let s = Reached-IsSteady cfg c reached in
    (s.running, λ at unclaimed o. ground (arith, at, unclaimed, s.fit o))

-- Nothing in the code makes the supervisor wait so: from any backoff that such a run reaches with a
-- verdict under way, neither the machine closed nor the client stopped, the supervisor's next two turns, the end of its backoff and the
-- redial, are possible, and the second panics.
pub hasty_redial_crashes :
    (cfg : Config) (now later : ℕ) (c : Client) (v : Verdict) (vs : List Verdict)
    → Reached cfg c
    → c.phase ≡ waiting
    → c.verdicts ≡ v ∷ vs
    → c.mach.closed ≡ false
    → c.stopping ≡ false
    → (c' : Client) × (c'' : Client) × (turn cfg now waits c ≡ some c')
      × (turn cfg later redials c' ≡ some c'')
      × (c''.crashed ≡ true)
unfolding turn can_transition
hasty_redial_crashes cfg now later c v vs reached at open_verdict o live =
    let s = Reached-IsSteady cfg c reached in
    let t = transition-Transitions later connecting "dial attempt started" c.mach in
    let rested : Client = record c { attempt = c.attempt + 1; phase = at_top } in
    (
      rested,
      redial later rested,
      ground (arith, at),
      refl,
      ground (arith, at, open_verdict, s.fit o, live, o, t.panics),
    )
