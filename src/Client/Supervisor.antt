-- ===== src/Client/Supervisor.antt =====
-- The supervisor and the goroutines of a session, one turn at a time (internal/control/client.go and
-- internal/control/heartbeat.go).
use walkie.Prelude.{
  ℕ, suc, zero, ◌+◌, String, Bool, true, false, ◌||◌, Option, none, some, List, [], ◌∷◌, ◌++◌,
  if◌then◌else◌, get_elem?, set,
}
use walkie.Control.State.{
  State, disconnected, connecting, handshaking, online, degraded, Machine, new_machine, Outcome,
  refused, panicked, transition, close_machine,
}
use walkie.Client.Config.{Config}
use walkie.Client.Watchdog.{Watchdog, start_watchdog, activity, send_failed, watch_dead, stop}

-- Where `run` stands: at the top of its loop, in dial, in handshake, in serve, in backoffWait, or
-- returned.
pub data Phase : Type 0 where
  at_top dialing shaking serving waiting returned : Phase

-- Where the read loop stands: in Recv, giving its verdict, or returned with sessDone closed.
pub data Reader : Type 0 where
  reading failing ended : Reader

-- A claimed verdict that its goroutine, of this watchdog or of an earlier one, has still to carry
-- out: degraded first, or disconnected right away.
pub data Verdict : Type 0 where
  degrade disconnect : Verdict

pub record Client : Type 0 where
  pub mach : Machine
  pub stopping : Bool
  pub phase : Phase
  pub attempt : ℕ
  pub sess : Option ℕ
  pub inflight : Option ℕ
  pub identity : String
  pub watchdog : Watchdog
  pub reader : Reader
  pub verdicts : List Verdict
  pub crashed : Bool  -- a call of Transition has panicked

abbrev pub no_watchdog : Watchdog
no_watchdog = record { gen = 0; hb_timer = none; deadline = none; stopped = true; next_beat = 0 }

-- NewClient on a new machine, its loop about to start.
abbrev pub new_client : Client
new_client = record {
  mach = new_machine;
  stopping = false;
  phase = at_top;
  attempt = 0;
  sess = none;
  inflight = none;
  identity = "";
  watchdog = no_watchdog;
  reader = ended;
  verdicts = [];
  crashed = false;
}

abbrev pub is_refused : Outcome → Bool
is_refused refused = true
is_refused _ = false

abbrev pub is_panicked : Outcome → Bool
is_panicked panicked = true
is_panicked _ = false

abbrev pub noted : Outcome → Machine → Client → Client
noted out m c = record c { mach = m; crashed = c.crashed || is_panicked out }

-- A call of Transition by any of the goroutines.
abbrev pub change : ℕ → State → String → Client → Client
change now to reason c =
    noted (transition now to reason c.mach).0 (transition now to reason c.mach).1 c

-- Whether a call of Transition returns an error.
abbrev pub refuses : ℕ → State → String → Client → Bool
refuses now to reason c = is_refused (transition now to reason c.mach).0

-- What goroutines do next, `session` naming a new session and `i` a verdict.
pub data Turn : Type 0 where
  redials dial_fails shake_fails notices over waits gives_up halts closes : Turn
  receives read_fails read_ends beat_fails : Turn
  dials : (session : ℕ) → Turn
  shakes : (session : ℕ) (device : String) → Turn
  silent : (gen : ℕ) → Turn
  convicts : (i : ℕ) → Turn

abbrev pub enters : Phase → Bool → Client → Client
enters phase halted c = if halted then record c { phase = returned } else record c { phase = phase }

-- The loop's head: to connecting, then dial.
abbrev pub redial : ℕ → Client → Client
redial now c =
    if c.stopping
    then record c { phase = returned }
    else enters dialing (refuses now connecting "dial attempt started" c)
        (change now connecting "dial attempt started" c)

-- A failed dial or handshake: to disconnected, then the backoff.
abbrev pub fail : ℕ → String → Client → Client
fail now reason c =
    if c.stopping
    then record c { phase = returned }
    else record (change now disconnected reason c) { phase = waiting }

-- A dialled session is the one in flight, unless the machine refuses.
abbrev pub dial : ℕ → ℕ → Client → Client
dial now session c =
    if refuses now handshaking "transport established" c
    then record (change now handshaking "transport established" c) { phase = returned }
    else record (change now handshaking "transport established" c) {
      phase = shaking;
      inflight = some session;
    }

-- serve up to its loop: with no watchdog the session is given up.
abbrev pub serve_with : ℕ → Option Watchdog → Client → Client
serve_with now none c = record (change now disconnected "watchdog refused" c) { phase = waiting }
serve_with now (some w) c = record c { phase = serving; watchdog = w; reader = reading }

-- A handshake that succeeds: the session is installed, then online, then serve.
abbrev pub shake : Config → ℕ → ℕ → String → Client → Client
shake cfg now session device c =
    let installed = record c { sess = some session; inflight = none; identity = device } in
    if refuses now online "handshake completed" installed
    then record (change now online "handshake completed" installed) { phase = returned }
    else serve_with now (start_watchdog cfg now)
        (record (change now online "handshake completed" installed) { attempt = 0 })

-- A change of the machine is a hint: serve tears the session down where the state condemns it.
abbrev pub notice : State → Client → Client
notice degraded c = record c { watchdog = stop c.watchdog }
notice disconnected c = record c { watchdog = stop c.watchdog }
notice _ c = c

-- sessDone: the session is torn down and cleared, then the backoff.
abbrev pub leave : Client → Client
leave c = record c {
  phase = if c.stopping then returned else waiting;
  watchdog = stop c.watchdog;
  sess = none;
}

-- Recv fails: SendFailed claims the verdict, or leaves it to the one that has.
abbrev pub read_fail : Bool × Watchdog → Client → Client
read_fail claim c = record c { watchdog = claim.1; reader = if claim.0 then failing else ended }

abbrev pub claimed : Verdict → Bool × Watchdog → Client → Client
claimed verdict claim c = record c {
  watchdog = claim.1;
  verdicts = if claim.0 then c.verdicts ++ verdict ∷ [] else c.verdicts;
}

abbrev pub without : ℕ → List Verdict → List Verdict
without i [] = []
without zero (v ∷ vs) = vs
without (suc i) (v ∷ vs) = v ∷ without i vs

-- A verdict's goroutine goes on: after degraded, disconnected; after disconnected, it is done. Its
-- watchdog is stopped already, and the timers that its last call of Stop disarms are left out.
abbrev pub convict : ℕ → ℕ → Option Verdict → Client → Option Client
convict now i none c = none
convict now i (some degrade) c =
    if refuses now degraded "no inbound traffic" c
    then some
        (record (change now degraded "no inbound traffic" c) { verdicts = without i c.verdicts })
    else some (record (change now degraded "no inbound traffic" c) {
      verdicts = set c.verdicts i disconnect;
    })
convict now i (some disconnect) c =
    some (record (change now disconnected "dead peer" c) { verdicts = without i c.verdicts })

-- One turn at a phase of `run` and of its read loop; `none` where no goroutine stands there.
abbrev pub turn_at : Config → ℕ → Turn → Phase → Reader → Client → Option Client
turn_at cfg now redials at_top r c = some (redial now c)
turn_at cfg now dial_fails dialing r c = some (fail now "dial failed" c)
turn_at cfg now (dials session) dialing r c = some (dial now session c)
turn_at cfg now shake_fails shaking r c =
    some (fail now "handshake failed" (record c { inflight = none }))
turn_at cfg now (shakes session device) shaking r c = some (shake cfg now session device c)
turn_at cfg now notices serving r c = some (notice c.mach.cur c)
turn_at cfg now over serving ended c = some (leave c)
turn_at cfg now waits waiting r c = some (record c { attempt = c.attempt + 1; phase = at_top })
turn_at cfg now gives_up waiting r c =
    if c.stopping then some (record c { phase = returned }) else none
turn_at cfg now halts p r c = some (record c { stopping = true })
turn_at cfg now closes p r c = some (record c { mach = close_machine c.mach })
turn_at cfg now receives p reading c = some (record c { watchdog = activity cfg now c.watchdog })
turn_at cfg now read_fails p reading c = some (read_fail (send_failed c.watchdog) c)
turn_at cfg now read_ends p failing c = some (record (change now disconnected "transport error" c) {
  watchdog = stop c.watchdog;
  reader = ended;
})
turn_at cfg now beat_fails p r c = some (claimed disconnect (send_failed c.watchdog) c)
turn_at cfg now (silent gen) p r c = some (claimed degrade (watch_dead gen c.mach.cur c.watchdog) c)
turn_at cfg now (convicts i) p r c = convict now i (get_elem? c.verdicts i) c
turn_at cfg now _ p r c = none

unfoldable pub turn : Config → ℕ → Turn → Client → Option Client
unfolding transition close_machine start_watchdog activity send_failed watch_dead stop
turn cfg now t c = turn_at cfg now t c.phase c.reader c
