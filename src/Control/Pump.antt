-- ===== src/Control/Pump.antt =====
-- The pump of a subscription and its consumer, one turn at a time (internal/control/state.go).
use walkie.Prelude.{
  ℕ, ◌≡◌, Bool, true, false, not, Option, none, some, List, [], ◌∷◌, ◌++◌, ltb, if◌then◌else◌,
  length,
}
use walkie.Control.State.{
  Change, Phase, taking, waiting, stopped, sending, Subscription, enqueue, finish, new_subscription,
}

abbrev pub subscription_buffer : ℕ
subscription_buffer = 16

-- What a pump can do next: take the pending changes, send one into the channel's buffer, give up on
-- a closed subscription, find all sent, wake on the signal, or wake on `done`.
pub data Turn : Type 0 where
  take_pending send give_up all_sent wake_signal wake_done : Turn

abbrev pub empty : List Change → Bool
empty [] = true
empty (ch ∷ changes) = false

-- One turn of `pump`; `none` where it cannot be taken in this phase.
abbrev pub pump_at : Turn → Phase → Subscription → Option Subscription
pump_at take_pending taking s = some (record s { phase = sending s.pend; pend = [] })
pump_at send (sending (ch ∷ changes)) s =
    if ltb (length s.out) subscription_buffer
    then some (record s { out = s.out ++ ch ∷ []; phase = sending changes })
    else none
pump_at give_up (sending (ch ∷ changes)) s =
    if not s.done
    then none
    else if s.drain_on_close
    then none
    else some (record s { phase = stopped })
pump_at all_sent (sending []) s = some (record s { phase = waiting })
pump_at wake_signal waiting s =
    if s.sig then some (record s { sig = false; phase = taking }) else none
pump_at wake_done waiting s =
    if not s.done
    then none
    else if not s.drain_on_close
    then some (record s { phase = stopped })
    else if empty s.pend
    then some (record s { phase = stopped })
    else some (record s { phase = taking })
pump_at _ _ s = none

unfoldable pub pump : Turn → Subscription → Option Subscription
pump turn s = pump_at turn s.phase s

-- A subscription with the changes it was given and those its consumer has received.
pub data Run : List Change → List Change → Subscription → Type 0 where
  subscribed : Run [] [] new_subscription
  given :
      {all got : List Change} {s : Subscription} (before : Run all got s)
      (registered : s.done ≡ false) (ch : Change)
      → Run (all ++ ch ∷ []) got (enqueue ch s)
  finished :
      {all got : List Change} {s : Subscription} (before : Run all got s) (drain : Bool)
      → Run all got (finish drain s)
  turned :
      {all got : List Change} {s s' : Subscription} (before : Run all got s) (turn : Turn)
      (e : pump turn s ≡ some s')
      → Run all got s'
  received :
      {all got rest : List Change} {s : Subscription} (before : Run all got s) (ch : Change)
      (e : s.out ≡ ch ∷ rest)
      → Run all (got ++ ch ∷ []) (record s { out = rest })
