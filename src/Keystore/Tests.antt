-- ===== src/Keystore/Tests.antt =====
-- Runs of the keystore on small inputs.
use walkie.Prelude.{◌≡◌, refl, true, none, some, [], ◌∷◌, lookup}
use walkie.Keystore.Pins.{Keystore, authorize, open_keystore, key_changed, decoded, checked}

abbrev one_pin : Keystore
one_pin = record {
  peers = ("ann", record { key = 1 ∷ 2 ∷ []; pinned_at = 5; confirmed_at = none }) ∷ [];
  file = none;
}

-- A changed key that nobody confirms is refused.
authorize-changed :
    authorize 9 true none "ann" (1 ∷ 3 ∷ []) one_pin
    ≡ (some (key_changed (1 ∷ 2 ∷ []) (1 ∷ 3 ∷ [])), one_pin)
unfolding authorize lookup
authorize-changed = refl

-- A file whose record has a short key is not opened.
open_keystore-short :
    open_keystore (
      decoded (record {
        version = 1;
        entries = ("ann", some (record { key = 1 ∷ []; pinned_at = 5; confirmed_at = none })) ∷ [];
      }))
    ≡ none
unfolding open_keystore checked
open_keystore-short = refl
