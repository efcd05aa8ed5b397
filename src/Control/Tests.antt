-- ===== src/Control/Tests.antt =====
-- Runs of the state machine, of a subscription and of the backoff on small inputs.
use walkie.Prelude.{
  ◌*◌, ◌^◌, ◌-◌, ◌<◌, ◌≡◌, refl, true, false, some, List, [], ◌∷◌, arith, ◌⊎◌, min,
}
use walkie.Control.State.{
  disconnected, connecting, handshaking, online, Change, Subscription, Machine, new_machine,
  transition, enqueue, sending, can_transition,
}
use walkie.Control.Pump.{Run, subscribed, given, turned, Turn, take_pending, send, pump}
use walkie.Control.Delivery.{held}
use walkie.Control.Order.{run_delivers, pump_never_stuck}
use walkie.Control.Edges.{transitions, Call}
use walkie.Control.Backoff.{Backoff, new_backoff, delay, delay_bounded, doubled}

abbrev dial : Change
dial = record { from = disconnected; to = connecting; reason = "dial"; at = 1 }

abbrev up : Change
up = record { from = connecting; to = handshaking; reason = "up"; at = 2 }

abbrev done : Change
done = record { from = handshaking; to = online; reason = "done"; at = 3 }

abbrev dial_up : List Call
dial_up = (1, connecting, "dial") ∷ (2, handshaking, "up") ∷ (3, online, "done") ∷ []

abbrev online_machine : Machine
online_machine = record { cur = online; closed = false; subs = []; left = [] }

transitions-dial_up : transitions dial_up new_machine ≡ some (dial ∷ up ∷ done ∷ [], online_machine)
unfolding transitions transition can_transition
transitions-dial_up = refl

-- One change sent, a second pending.
abbrev busy : Subscription
busy = record {
  pend = up ∷ [];
  sig = true;
  out = dial ∷ [];
  done = false;
  drain_on_close = false;
  phase = sending [];
}

busy-Run : Run (dial ∷ up ∷ []) [] busy
unfolding pump enqueue
busy-Run = given (turned (turned (given subscribed refl dial) take_pending refl) send refl) refl up

run_delivers_example :
    (rest : List Change) × (dial ∷ rest ≡ dial ∷ up ∷ [])
    × (false ≡ false → rest ≡ held busy)
    × (false ≡ true → false ≡ true → rest ≡ [])
run_delivers_example = run_delivers (dial ∷ up ∷ []) [] busy busy-Run

pump_never_stuck_example :
    ((turn : Turn) × (s' : Subscription) × (pump turn busy ≡ some s')) ⊎ (held busy ≡ [])
pump_never_stuck_example = pump_never_stuck (dial ∷ up ∷ []) [] busy busy-Run refl (omega arith)

abbrev default_backoff : Backoff
default_backoff = record { base = 500; cap = 3000 }

new_backoff-default : new_backoff 500 3000 ≡ some default_backoff
unfolding new_backoff
new_backoff-default = refl

delay_bounded_example :
    (delay (λ n. n) 2 default_backoff < min 3000 (500 * 2 ^ 2))
    × (delay (λ n. n) 2 default_backoff ≡ min (min 3000 (500 * 2 ^ 2)) (min 3000 (500 * 2 ^ 2) - 1))
delay_bounded_example =
    delay_bounded (λ n. n) 2 500 3000 default_backoff (omega arith) new_backoff-default

delay-values : (delay (λ n. n) 2 default_backoff ≡ 1999) × (delay (λ n. n) 9 default_backoff ≡ 2999)
unfolding delay doubled
delay-values = (refl, refl)
