-- ===== src/Control/Delivery.antt =====
-- What every turn of a pump keeps (internal/control/state.go).
use walkie.Prelude.{
  if-some, if-then, some_eq, subst, Bool-cases, ◌≡◌, refl, Bool, true, false, not, some, List, [],
  ◌∷◌, ◌++◌, arith, if◌then◌else◌, append_assoc, append-nil, ◌⊎◌, inl, inr,
}
use walkie.Control.State.{Change, Phase, taking, waiting, stopped, sending, Subscription}
use walkie.Control.Pump.{
  Turn, take_pending, send, give_up, all_sent, wake_signal, wake_done, pump_at, empty,
}

abbrev pub in_flight : Phase → List Change
in_flight (sending changes) = changes
in_flight _ = []

-- What the pump has taken or has still to take.
abbrev pub held : Subscription → List Change
held s = in_flight s.phase ++ s.pend

abbrev pub is_stopped : Phase → Bool
is_stopped stopped = true
is_stopped _ = false

abbrev pub is_awake : Phase → Bool
is_awake taking = true
is_awake _ = false

-- Received, buffered and the rest make up what was given; the rest is what the pump holds, unless it has
-- given up on an undrained subscription; a drained one ends with nothing held; and a pump that is not
-- about to look finds its signal set when something is pending.
pub record IsDelivering (all got : List Change) (s : Subscription) : Type 0 where
  pub rest : List Change
  pub whole : got ++ s.out ++ rest ≡ all
  pub holds : is_stopped s.phase ≡ false → rest ≡ held s
  pub drained : is_stopped s.phase ≡ true → (s.done ≡ true) × (s.drain_on_close ≡ true → rest ≡ [])
  pub signalled :
      is_stopped s.phase ≡ false → is_awake s.phase ≡ false → (s.sig ≡ true) ⊎ (s.pend ≡ [])

empty_nil : (changes : List Change) → empty changes ≡ true → changes ≡ []
empty_nil [] e = refl
empty_nil (ch ∷ changes) e = absurd (ground (arith, e))

module _ (all got : List Change) (s : Subscription) (d : IsDelivering all got s) where
  IsDelivering-take :
      s.phase ≡ taking → IsDelivering all got (record s { phase = sending s.pend; pend = [] })
  IsDelivering-take at = record {
    rest = d.rest;
    whole = d.whole;
    holds = λ r. ground (arith, at, d.holds, append-nil s.pend);
    drained = λ r. absurd (ground (arith, r));
    signalled = λ r a. inr refl;
  }

  IsDelivering-send :
      (ch : Change) (changes : List Change)
      → s.phase ≡ sending (ch ∷ changes)
      → IsDelivering all got (record s { out = s.out ++ ch ∷ []; phase = sending changes })
  IsDelivering-send ch changes at =
      let whole : d.rest ≡ ch ∷ changes ++ s.pend = ground (arith, at, d.holds) in
      record {
        rest = changes ++ s.pend;
        whole =
            rw
              (
                ← append_assoc got s.out (ch ∷ []),
                append_assoc (got ++ s.out) (ch ∷ []) (changes ++ s.pend),
              )
              (rw whole at d.whole);
        holds = λ r. refl;
        drained = λ r. absurd (ground (arith, r));
        signalled = λ r a. ground (arith, at, d.signalled);
      }

  IsDelivering-give_up :
      (ch : Change) (changes : List Change)
      → s.phase ≡ sending (ch ∷ changes)
      → s.done ≡ true
      → s.drain_on_close ≡ false
      → IsDelivering all got (record s { phase = stopped })
  IsDelivering-give_up ch changes at over undrained = record {
    rest = d.rest;
    whole = d.whole;
    holds = λ r. absurd (ground (arith, r));
    drained = λ r. (over, λ h. absurd (ground (arith, h, undrained)));
    signalled = λ r. absurd (ground (arith, r));
  }

  IsDelivering-all_sent : s.phase ≡ sending [] → IsDelivering all got (record s { phase = waiting })
  IsDelivering-all_sent at = record {
    rest = d.rest;
    whole = d.whole;
    holds = λ r. ground (arith, at, d.holds);
    drained = λ r. absurd (ground (arith, r));
    signalled = λ r a. ground (arith, at, d.signalled);
  }

  IsDelivering-woken :
      (sig : Bool)
      → s.phase ≡ waiting
      → IsDelivering all got (record s { sig = sig; phase = taking })
  IsDelivering-woken sig at = record {
    rest = d.rest;
    whole = d.whole;
    holds = λ r. ground (arith, at, d.holds);
    drained = λ r. absurd (ground (arith, r));
    signalled = λ r a. absurd (ground (arith, a));
  }

  IsDelivering-ended :
      s.phase ≡ waiting
      → s.done ≡ true
      → (s.drain_on_close ≡ true → s.pend ≡ [])
      → IsDelivering all got (record s { phase = stopped })
  IsDelivering-ended at over nothing = record {
    rest = d.rest;
    whole = d.whole;
    holds = λ r. absurd (ground (arith, r));
    drained = λ r. (over, λ drain. ground (arith, at, d.holds, nothing drain));
    signalled = λ r. absurd (ground (arith, r));
  }

  done_woken :
      (s' : Subscription)
      → s.phase ≡ waiting
      → s.done ≡ true
      → (if not s.drain_on_close
          then some (record s { phase = stopped })
          else if empty s.pend
          then some (record s { phase = stopped })
          else some (record s { phase = taking }))
        ≡ some s'
      → IsDelivering all got s'
  done_woken s' at over e = elim (Bool-cases s.drain_on_close) [
    | inr undrained ↦
        let here : some (record s { phase = stopped }) ≡ some s' = ground (arith, undrained, e) in
        subst (IsDelivering all got) (some_eq here)
          (IsDelivering-ended at over (λ h. absurd (ground (arith, h, undrained))))
    | inl drain ↦ elim (Bool-cases (empty s.pend)) [
      | inl nothing ↦
          let here : some (record s { phase = stopped }) ≡ some s' =
            ground (arith, drain, nothing, e) in
          subst (IsDelivering all got) (some_eq here)
            (IsDelivering-ended at over (λ h. empty_nil s.pend nothing))
      | inr more ↦
          let here : some (record s { phase = taking }) ≡ some s' =
            ground (arith, drain, more, e) in
          subst (IsDelivering all got) (some_eq here) (IsDelivering-woken s.sig at)
    ]
  ]

pub pump_at-IsDelivering :
    (all got : List Change) (s s' : Subscription) (turn : Turn) (phase : Phase)
    → s.phase ≡ phase
    → pump_at turn phase s ≡ some s'
    → IsDelivering all got s
    → IsDelivering all got s'
pump_at-IsDelivering all got s s' take_pending taking at e d =
    subst (IsDelivering all got) (some_eq e) (IsDelivering-take all got s d at)
pump_at-IsDelivering all got s s' send (sending (ch ∷ changes)) at e d =
    subst (IsDelivering all got) (some_eq (if-then _ _ _ e))
      (IsDelivering-send all got s d ch changes at)
pump_at-IsDelivering all got s s' give_up (sending (ch ∷ changes)) at e d =
    let (over, e') = if-some (not s.done) _ s' e in
    let (undrained, e'') = if-some s.drain_on_close _ s' e' in
    subst (IsDelivering all got) (some_eq e'')
      (IsDelivering-give_up all got s d ch changes at (ground arith) undrained)
pump_at-IsDelivering all got s s' all_sent (sending []) at e d =
    subst (IsDelivering all got) (some_eq e) (IsDelivering-all_sent all got s d at)
pump_at-IsDelivering all got s s' wake_signal waiting at e d =
    subst (IsDelivering all got) (some_eq (if-then _ _ _ e))
      (IsDelivering-woken all got s d false at)
pump_at-IsDelivering all got s s' wake_done waiting at e d =
    let (over, e') = if-some (not s.done) _ s' e in done_woken all got s d s' at (ground arith) e'
pump_at-IsDelivering all got s s' _ _ at e d = absurd (ground (arith, e))
