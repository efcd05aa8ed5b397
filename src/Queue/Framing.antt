-- ===== src/Queue/Framing.antt =====
-- The at-rest seam and the stored-body framing (internal/coordinator/queue/sealed.go).
use walkie.Prelude.{ℕ, String, Bool, true, false, Option, none, some, [], ◌∷◌, ◌==◌, if◌then◌else◌}
use walkie.Wire.{Bytes, Envelope, sealed_delivery, just}

-- google.golang.org/protobuf, which the repository does not hold: `none` is an error.
pub record Codec : Type 0 where
  pub marshal : Envelope → Option Bytes
  pub unmarshal : Bytes → Option Envelope

-- AtRest.Seal: the stored bytes and whether they are a sealed box; `none` is an error.
abbrev pub Seal : Type 0
Seal = String → Bytes → Option (Bytes × Bool)

abbrev sealed_with : Bytes → Option Bytes → Option (Bytes × Bool)
sealed_with marshalled none = none
sealed_with marshalled (some box) = some (box, true)

abbrev seal_to_pin : (Bytes → Bytes → Option Bytes) → Bytes → Option Bytes → Option (Bytes × Bool)
seal_to_pin seal_box marshalled none = some (marshalled, false)
seal_to_pin seal_box marshalled (some pub_key) =
    sealed_with marshalled (seal_box pub_key marshalled)

-- keystoreSealer.Seal: `pinned_key` is PinnedKeyLookup and `seal_box` is crypto.Seal.
unfoldable pub keystore_sealer : (String → Option Bytes) → (Bytes → Bytes → Option Bytes) → Seal
keystore_sealer pinned_key seal_box recipient marshalled =
    seal_to_pin seal_box marshalled (pinned_key recipient)

abbrev pub stored_plain_marker : ℕ
stored_plain_marker = 0

abbrev pub stored_sealed_marker : ℕ
stored_sealed_marker = 1

abbrev frame_sealed : Option (Bytes × Bool) → Option Bytes
frame_sealed none = none
frame_sealed (some (stored, sealed)) =
    some ((if sealed then stored_sealed_marker else stored_plain_marker) ∷ stored)

-- `none` for the seam is the plain queue of `New`.
unfoldable pub seal_for_storage : Option Seal → String → Bytes → Option Bytes
seal_for_storage none recipient marshalled = some (stored_plain_marker ∷ marshalled)
seal_for_storage (some seal) recipient marshalled = frame_sealed (seal recipient marshalled)

abbrev stamp_position : ℕ → Option Envelope → Option Envelope
stamp_position position none = none
stamp_position position (some env) = some (record env { position = position })

-- The wire envelope of one row, or `none` where the row is skipped with a log line.
unfoldable pub delivery_from_storage : Codec → ℕ → Bytes → Option Envelope
delivery_from_storage codec position [] = none
delivery_from_storage codec position (marker ∷ payload) =
    if marker == stored_sealed_marker
    then some (record (just (sealed_delivery payload)) { position = position })
    else if marker == stored_plain_marker
    then stamp_position position (codec.unmarshal payload)
    else none
