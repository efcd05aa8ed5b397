-- ===== src/App/Turns.antt =====
-- The turns of a drain come to the drain as a whole (cmd/walkie/app.go).
use walkie.Prelude.{
  ℕ, suc, zero, ◌≡◌, refl, sym, ap, ◌∙◌, Bool, true, false, some, List, [], ◌∷◌, ◌++◌,
  if◌then◌else◌, Bool-cases, inl, inr, append_assoc, append-nil,
}
use walkie.Wire.{Envelope}
use walkie.Queue.Framing.{Codec}
use walkie.Client.Outbox.{Outbox, pending, remove, drain_all, drained, drain_outbox}
use walkie.App.Acked.{send}
use walkie.App.Assembled.{App}
use walkie.App.Drains.{
  Drain, starting, returned, sending, removing, stopped, claimed, sent_by, drain_turn, run_drain,
  loop_turns, after_drain,
}

module _ (codec : Codec) (reads : Bool) (goes removes : Envelope → Bool) where
  run_drain-returned :
      (n : ℕ) (a : App) → run_drain codec reads goes removes n returned a ≡ (returned, a)
  unfolding run_drain drain_turn
  run_drain-returned zero a = refl
  run_drain-returned (suc n) a = run_drain-returned n a

  turn_goes :
      (env : Envelope) (envs : List Envelope) (a : App)
      → goes env ≡ true
      → drain_turn codec reads goes removes (sending (env ∷ envs)) a
        ≡ (removing env envs, record a { link = record a.link { sent = a.link.sent ++ env ∷ [] } })
  unfolding drain_turn send
  turn_goes env envs a up =
      ap
        (λ b.
          sent_by env envs
            (b, if b then record a.link { sent = a.link.sent ++ env ∷ [] } else a.link) a)
        up

  turn_fails :
      (env : Envelope) (envs : List Envelope) (a : App)
      → goes env ≡ false
      → drain_turn codec reads goes removes (sending (env ∷ envs)) a ≡ stopped a
  unfolding drain_turn send
  turn_fails env envs a down =
      ap
        (λ b.
          sent_by env envs
            (b, if b then record a.link { sent = a.link.sent ++ env ∷ [] } else a.link) a)
        down

  turn_removes :
      (env : Envelope) (envs : List Envelope) (a : App) (b : Bool)
      → removes env ≡ b
      → drain_turn codec reads goes removes (removing env envs) a
        ≡ (if b then (sending envs, record a { box = remove env.message_id a.box }) else stopped a)
  unfolding drain_turn
  turn_removes env envs a b e =
      ap
        (λ x.
          if x then (sending envs, record a { box = remove env.message_id a.box }) else stopped a)
        e

  then_one :
      (n : ℕ) (d : Drain) (a : App) (r : Drain × App)
      → drain_turn codec reads goes removes d a ≡ r
      → run_drain codec reads goes removes (suc n) d a
        ≡ run_drain codec reads goes removes n r.0 r.1
  unfolding run_drain
  then_one n d a r e = ap (λ x. run_drain codec reads goes removes n x.0 x.1) e

  then_stopped :
      (n : ℕ) (d : Drain) (a : App) (frames : List Envelope)
      → drain_turn codec reads goes removes d (record a { link = record a.link { sent = frames } })
        ≡ stopped (record a { link = record a.link { sent = frames } })
      → run_drain codec reads goes removes
          (suc n)
          d
          (record a { link = record a.link { sent = frames } })
        ≡ (returned, record a { link = record a.link { sent = frames }; draining = false })
  then_stopped n d a frames e = then_one n d _ _ e ∙ run_drain-returned n _

  turn_claims :
      (envs : List Envelope) (a : App)
      → a.draining ≡ false
      → pending codec reads a.box ≡ some envs
      → drain_turn codec reads goes removes starting a
        ≡ (sending envs, record a { draining = true })
  unfolding drain_turn
  turn_claims envs a free held =
      ap (λ b. if b then (returned, a) else claimed (pending codec reads a.box) a) free
      ∙ ap (λ o. claimed o a) held

  loop_ends : (a : App) → run_drain codec reads goes removes 1 (sending []) a ≡ stopped a
  unfolding run_drain drain_turn
  loop_ends a = refl

  -- The turns of the loop come to what Client.Outbox says of it as a whole.
  run_drain-drain_all :
      (envs : List Envelope) (a : App)
      → let r = drain_all goes removes envs a.box in
        run_drain codec reads goes removes (loop_turns envs) (sending envs) a
        ≡ (returned, after_drain a r.0 r.1)
  unfolding drain_all
  run_drain-drain_all [] a =
      loop_ends a
      ∙ ap
          (λ frames.
            (returned, record a { link = record a.link { sent = frames }; draining = false }))
          (sym (append-nil a.link.sent))
  run_drain-drain_all (env ∷ envs) a =
      let rest = drain_all goes removes envs (remove env.message_id a.box) in
      let left = a.link.sent in
      let result : List Envelope × Outbox → Drain × App = λ r. (returned, after_drain a r.0 r.1) in
      elim (Bool-cases (goes env)) [
        | inl up ↦
            then_one (suc (loop_turns envs)) (sending (env ∷ envs)) a _ (turn_goes env envs a up)
            ∙ elim (Bool-cases (removes env)) [
              | inl gone ↦
                  then_one (loop_turns envs) (removing env envs) _ _
                    (turn_removes env envs _ true gone)
                  ∙ run_drain-drain_all envs (record a {
                    link = record a.link { sent = left ++ env ∷ [] };
                    box = remove env.message_id a.box;
                  })
                  ∙ ap
                      (λ frames. (
                        returned,
                        record a {
                          link = record a.link { sent = frames };
                          box = rest.1;
                          draining = false;
                        },
                      ))
                      (append_assoc left (env ∷ []) rest.0)
                  ∙ ap result (sym (rw (up, gone) refl))
              | inr stays ↦
                  then_stopped (loop_turns envs) (removing env envs) a (left ++ env ∷ [])
                    (turn_removes env envs _ false stays)
                  ∙ ap result (sym (rw (up, stays) refl))
            ]
        | inr down ↦
            then_stopped (suc (loop_turns envs)) (sending (env ∷ envs)) a left
              (turn_fails env envs a down)
            ∙ ap
                (λ frames.
                  (returned, record a { link = record a.link { sent = frames }; draining = false }))
                (sym (append-nil left))
            ∙ ap result (sym (rw down refl))
      ]

  -- A drain that finds none running reads the outbox, and its turns come to drain_outbox.
  pub run_drain-drain_outbox :
      (envs : List Envelope) (a : App)
      → a.draining ≡ false
      → pending codec reads a.box ≡ some envs
      → let r = drain_outbox codec reads goes removes a.box in
        run_drain codec reads goes removes (suc (loop_turns envs)) starting a
        ≡ (returned, after_drain a r.0 r.1)
  unfolding drain_outbox
  run_drain-drain_outbox envs a free held =
      let all : List Envelope × Outbox → Drain × App = λ r. (returned, after_drain a r.0 r.1) in
      then_one (loop_turns envs) starting a _ (turn_claims envs a free held)
      ∙ run_drain-drain_all envs (record a { draining = true })
      ∙ ap (λ o. all (drained goes removes o a.box)) (sym held)
