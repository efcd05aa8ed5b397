-- ===== src/Control/State.antt =====
-- The connection state machine (internal/control/state.go).
use walkie.Prelude.{
  ℕ, String, Bool, true, false, not, Option, none, some, List, [], ◌∷◌, ◌++◌, ◌==◌, if◌then◌else◌,
  map, filter,
}

pub data State : Type 0 where
  disconnected connecting handshaking online degraded : State

abbrev pub same_state : State → State → Bool
same_state disconnected disconnected = true
same_state connecting connecting = true
same_state handshaking handshaking = true
same_state online online = true
same_state degraded degraded = true
same_state _ _ = false

-- The table legalTransitions.
abbrev pub legal_transition : State → State → Option String
legal_transition disconnected connecting = some "dial attempt started"
legal_transition connecting handshaking = some "transport established"
legal_transition connecting disconnected = some "dial failed"
legal_transition handshaking online = some "handshake completed"
legal_transition handshaking disconnected = some "handshake failed"
legal_transition online degraded = some "peer went silent"
legal_transition online disconnected = some "transport error or close"
legal_transition degraded disconnected = some "dead peer torn down"
legal_transition _ _ = none

abbrev pub is_some {ℓ} : {A : Type ℓ} → Option A → Bool
is_some none = false
is_some (some x) = true

unfoldable pub can_transition : State → State → Bool
can_transition from to = is_some (legal_transition from to)

pub record Change : Type 0 where
  pub from : State
  pub to : State
  pub reason : String
  pub at : ℕ

-- Where the pump of a subscription stands: about to take what is pending, sending what it took,
-- waiting to be woken, or returned with its channel closed.
pub data Phase : Type 0 where
  taking waiting stopped : Phase
  sending : (changes : List Change) → Phase

pub record Subscription : Type 0 where
  pub pend : List Change
  pub sig : Bool
  pub out : List Change
  pub done : Bool
  pub drain_on_close : Bool
  pub phase : Phase

pub record Machine : Type 0 where
  pub cur : State
  pub closed : Bool
  pub subs : List (ℕ × Subscription)
  pub left : List (ℕ × Subscription)  -- no longer registered, their pumps still running

abbrev pub new_machine : Machine
new_machine = record { cur = disconnected; closed = false; subs = []; left = [] }

-- Subscription.enqueue
unfoldable pub enqueue : Change → Subscription → Subscription
enqueue ch s = record s { pend = s.pend ++ ch ∷ []; sig = true }

-- Subscription.finish; only the first call counts.
unfoldable pub finish : Bool → Subscription → Subscription
finish drain s = if s.done then s else record s { done = true; drain_on_close = drain }

abbrev pub each : (Subscription → Subscription) → List (ℕ × Subscription) → List (ℕ × Subscription)
each change subs = map (λ s. (s.0, change s.1)) subs

-- What a call of Transition ends in: an error, no change, a change, or a panic.
pub data Outcome : Type 0 where
  refused unchanged panicked : Outcome
  moved : (ch : Change) → Outcome

-- Transition
unfoldable pub transition : ℕ → State → String → Machine → Outcome × Machine
unfolding can_transition enqueue
transition now to reason m =
    if m.closed
    then (refused, m)
    else if same_state m.cur to
    then (unchanged, m)
    else if not (can_transition m.cur to)
    then (panicked, m)
    else let ch : Change = record { from = m.cur; to = to; reason = reason; at = now } in
      (moved ch, record m { cur = to; subs = each (enqueue ch) m.subs })

abbrev pub new_subscription : Subscription
new_subscription = record {
  pend = [];
  sig = false;
  out = [];
  done = false;
  drain_on_close = false;
  phase = taking;
}

-- A subscription of a closed machine has its channel closed and no pump.
abbrev pub shut_subscription : Subscription
shut_subscription = record {
  pend = [];
  sig = false;
  out = [];
  done = true;
  drain_on_close = false;
  phase = stopped;
}

-- Machine.Subscribe, `s` naming the new subscription
unfoldable pub subscribe : ℕ → Machine → Machine
subscribe s m =
    if m.closed
    then record m { left = (s, shut_subscription) ∷ m.left }
    else record m { subs = (s, new_subscription) ∷ m.subs }

-- Machine.Close
unfoldable pub close_machine : Machine → Machine
unfolding finish
close_machine m =
    if m.closed
    then m
    else record m { closed = true; subs = []; left = each (finish true) m.subs ++ m.left }

-- Subscription.Close: it finishes what it finds registered.
unfoldable pub unsubscribe : ℕ → Machine → Machine
unfolding finish
unsubscribe s m = record m {
  subs = filter (λ sub. not (sub.0 == s)) m.subs;
  left = each (finish false) (filter (λ sub. sub.0 == s) m.subs) ++ m.left;
}
