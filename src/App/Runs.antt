-- ===== src/App/Runs.antt =====
-- Sequences of envelopes at the assembled client (cmd/walkie/app.go).
use walkie.Prelude.{ℕ, max, ◌≡◌, refl, ap, ◌∙◌, Option, none, some, List, [], ◌∷◌}
use walkie.Wire.{Envelope}
use walkie.Queue.Framing.{Codec}
use walkie.App.Assembled.{App, Moment, on_envelope}
use walkie.App.Incoming.{IsConnected, on_envelope-Handled, link_after-acked, sealed_position}

-- The envelopes that arrive, one after another.
unfoldable pub handle_all : Codec → List (Moment × Envelope) → App → Option App
handle_all codec [] a = some a
handle_all codec ((m, env) ∷ envs) a = elim (on_envelope codec m env a) [
  | none ↦ none
  | some a' ↦ handle_all codec envs a'
]

-- The highest position among the sealed deliveries, or `acked`.
unfoldable pub highest : ℕ → List (Moment × Envelope) → ℕ
highest acked [] = acked
highest acked ((m, env) ∷ envs) = highest (max acked (sealed_position env env.payload)) envs

-- Whatever envelopes arrive at an app that knows its name, on a sound filter, and whatever the sends
-- and the statements of the history do: no handler panics, and the acknowledged position is then
-- the highest that a sealed delivery carried, or the one before where that is higher.
pub acked_is_highest :
    (codec : Codec) (envs : List (Moment × Envelope)) (a : App)
    → IsConnected a
    → (a' : App) × (handle_all codec envs a ≡ some a')
      × IsConnected a'
      × (a'.link.acked ≡ highest a.link.acked envs)
unfolding handle_all highest
acked_is_highest codec [] a c = (a, refl, c, refl)
acked_is_highest codec ((m, env) ∷ envs) a c =
    let (a1, handled, c1, link) = on_envelope-Handled codec m env a c in
    let (a2, all, c2, top) = acked_is_highest codec envs a1 c1 in
    let moved = ap (λ l. l.acked) link ∙ link_after-acked m env env.payload a.link in
    let rest : Option App → Option App =
      λ o. elim o [ none ↦ none | some a' ↦ handle_all codec envs a' ] in
    (a2, ap rest handled ∙ all, c2, top ∙ ap (λ n. highest n envs) moved)
