-- ===== src/Control/Order.antt =====
-- Every subscriber gets every change, in order (internal/control/state.go).
use walkie.Prelude.{
  if-intro, Bool-cases, ◌<◌, ◌≡◌, refl, Bool, true, false, some, List, [], ◌∷◌, ◌++◌, arith, length,
  append_assoc, ◌⊎◌, inl, inr,
}
use walkie.Control.State.{
  Change, Phase, taking, waiting, stopped, sending, Subscription, enqueue, finish,
}
use walkie.Control.Pump.{
  Turn, take_pending, send, all_sent, wake_signal, pump, pump_at, Run, subscribed, given, finished,
  turned, received,
}
use walkie.Control.Delivery.{
  IsDelivering, in_flight, held, is_stopped, is_awake, pump_at-IsDelivering,
}

pump-IsDelivering :
    (all got : List Change) (s s' : Subscription) (turn : Turn)
    → pump turn s ≡ some s'
    → IsDelivering all got s
    → IsDelivering all got s'
unfolding pump
pump-IsDelivering all got s s' turn e d = pump_at-IsDelivering all got s s' turn s.phase refl e d

-- A subscription that is registered has a running pump.
given-IsDelivering :
    (all got : List Change) (s : Subscription) (ch : Change)
    → s.done ≡ false
    → IsDelivering all got s
    → IsDelivering (all ++ ch ∷ []) got (enqueue ch s)
unfolding enqueue
given-IsDelivering all got s ch registered d =
    let running : is_stopped s.phase ≡ false =
      ground (arith, d.drained, Bool-cases (is_stopped s.phase)) in
    record {
      rest = d.rest ++ ch ∷ [];
      whole = rw (← append_assoc (got ++ s.out) d.rest (ch ∷ []), d.whole) refl;
      holds = λ r. ground (arith, d.holds, append_assoc (in_flight s.phase) s.pend (ch ∷ []));
      drained = λ r. absurd (ground (arith, r, running));
      signalled = λ r a. inl refl;
    }

finished-IsDelivering :
    (all got : List Change) (s : Subscription) (drain : Bool)
    → IsDelivering all got s
    → IsDelivering all got (finish drain s)
unfolding finish
finished-IsDelivering all got s drain d =
    if-intro (IsDelivering all got) s.done s (record s { done = true; drain_on_close = drain })
      (λ h. d)
      (λ h. record {
        rest = d.rest;
        whole = d.whole;
        holds = d.holds;
        drained = λ r. absurd (ground (arith, r, d.drained, h));
        signalled = d.signalled;
      })

received-IsDelivering :
    (all got rest : List Change) (s : Subscription) (ch : Change)
    → s.out ≡ ch ∷ rest
    → IsDelivering all got s
    → IsDelivering all (got ++ ch ∷ []) (record s { out = rest })
received-IsDelivering all got rest s ch e d = record {
  rest = d.rest;
  whole = rw (append_assoc got (ch ∷ []) rest) (rw e at d.whole);
  holds = d.holds;
  drained = d.drained;
  signalled = d.signalled;
}

run-IsDelivering :
    (all got : List Change) (s : Subscription) → Run all got s → IsDelivering all got s
run-IsDelivering _ _ _ subscribed = record {
  rest = [];
  whole = refl;
  holds = λ r. refl;
  drained = λ r. absurd (ground (arith, r));
  signalled = λ r a. inr refl;
}
run-IsDelivering _ _ _ (given {all} {got} {s} before registered ch) =
    given-IsDelivering all got s ch registered (run-IsDelivering all got s before)
run-IsDelivering _ _ _ (finished {all} {got} {s} before drain) =
    finished-IsDelivering all got s drain (run-IsDelivering all got s before)
run-IsDelivering _ _ _ (turned {all} {got} {s} {s'} before turn e) =
    pump-IsDelivering all got s s' turn e (run-IsDelivering all got s before)
run-IsDelivering _ _ _ (received {all} {got} {rest} {s} before ch e) =
    received-IsDelivering all got rest s ch e (run-IsDelivering all got s before)

-- In every interleaving of changes, pump turns, receives and closes, the changes received and those
-- buffered are, in order and each once, the first ones given; and once the pump has returned on a subscription closed by
-- its machine, they are all of them.
pub run_delivers :
    (all got : List Change) (s : Subscription)
    → Run all got s
    → (rest : List Change) × (got ++ s.out ++ rest ≡ all)
      × (is_stopped s.phase ≡ false → rest ≡ held s)
      × (is_stopped s.phase ≡ true → s.drain_on_close ≡ true → rest ≡ [])
run_delivers all got s run =
    let d = run-IsDelivering all got s run in
    (d.rest, d.whole, d.holds, λ over drain. (d.drained over).1 drain)

turn_at :
    (s : Subscription) (phase : Phase)
    → is_stopped phase ≡ false
    → length s.out < 16
    → (is_awake phase ≡ false → (s.sig ≡ true) ⊎ (s.pend ≡ []))
    → ((turn : Turn) × (s' : Subscription) × (pump_at turn phase s ≡ some s'))
      ⊎ (in_flight phase ++ s.pend ≡ [])
turn_at s taking running room signal = inl (take_pending, _, refl)
turn_at s (sending []) running room signal = inl (all_sent, _, refl)
turn_at s (sending (ch ∷ changes)) running room signal =
    inl (send, record s { out = s.out ++ ch ∷ []; phase = sending changes }, ground (arith, room))
turn_at s waiting running room signal = elim (signal refl) [
  | inl set ↦ inl (wake_signal, record s { sig = false; phase = taking }, ground (arith, set))
  | inr nothing ↦ inr nothing
]
turn_at s stopped running room signal = absurd (ground (arith, running))

-- No wake-up is lost: in every run, while the pump has not returned and the channel's buffer has
-- room, the pump can take a turn unless it holds no change and none is pending.
pub pump_never_stuck :
    (all got : List Change) (s : Subscription)
    → Run all got s
    → is_stopped s.phase ≡ false
    → length s.out < 16
    → ((turn : Turn) × (s' : Subscription) × (pump turn s ≡ some s')) ⊎ (held s ≡ [])
unfolding pump
pump_never_stuck all got s run running room =
    turn_at s s.phase running room ((run-IsDelivering all got s run).signalled running)
