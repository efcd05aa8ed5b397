-- ===== src/Message/Text.antt =====
-- Messages, body validation and conversation keys (internal/message/message.go).
use Prim.Native.String.{◌++◌}
use walkie.Prelude.{
  ℕ, suc, zero, String, Bool, true, false, ◌&&◌, Option, none, some, [], ◌∷◌, leb, ltb, ◌==◌,
  if◌then◌else◌, str_eq, length,
}
use walkie.Wire.{Bytes}

pub record Message : Type 0 where
  pub id : String
  pub sender : String
  pub recipient : String
  pub body : Bytes
  pub sent_at : Option ℕ  -- `none` is the zero time
  pub received_at : Option ℕ

abbrev pub max_body_bytes : ℕ
max_body_bytes = 4096

-- Between `lo` and `hi`, both included.
abbrev pub within : ℕ → ℕ → ℕ → Bool
within lo hi b = leb lo b && leb b hi

-- What a first byte of UTF-8 wants: how many bytes follow, and the range of the next one.
abbrev pub leads : ℕ → Option (ℕ × ℕ × ℕ)
leads b =
    if ltb b 0x80
    then some (0, 0x80, 0xbf)
    else if within 0xc2 0xdf b
    then some (1, 0x80, 0xbf)
    else if b == 0xe0
    then some (2, 0xa0, 0xbf)
    else if b == 0xed
    then some (2, 0x80, 0x9f)
    else if within 0xe1 0xef b
    then some (2, 0x80, 0xbf)
    else if b == 0xf0
    then some (3, 0x90, 0xbf)
    else if within 0xf1 0xf3 b
    then some (3, 0x80, 0xbf)
    else if b == 0xf4
    then some (3, 0x80, 0x8f)
    else none

-- utf8.ValidString, `n` more bytes of a sequence being due, the next between `lo` and `hi`.
unfoldable pub valid_from : ℕ → ℕ → ℕ → Bytes → Bool
valid_from zero lo hi [] = true
valid_from (suc n) lo hi [] = false
valid_from zero lo hi (b ∷ bytes) = elim (leads b) [
  | none ↦ false
  | some (n, next_lo, next_hi) ↦ valid_from n next_lo next_hi bytes
]
valid_from (suc n) lo hi (b ∷ bytes) =
    let rest = valid_from n 0x80 0xbf bytes in if within lo hi b then rest else false

unfoldable pub valid_string : Bytes → Bool
unfolding valid_from
valid_string bytes = valid_from 0 0x80 0xbf bytes

pub data BodyError : Type 0 where
  too_long not_utf8 : BodyError

-- ValidateBody; `none` is a nil error.
unfoldable pub validate_body : Bytes → Option BodyError
validate_body body =
    if ltb max_body_bytes (length body)
    then some too_long
    else if valid_string body
    then none
    else some not_utf8

unfoldable pub is_broadcast : Message → Bool
is_broadcast msg = str_eq msg.recipient ""

abbrev pub broadcast_conversation : String
broadcast_conversation = "broadcast"

unfoldable pub conversation_key : String → String
conversation_key peer = "dm:" ++ peer

unfoldable pub conversation_key_for : String → Message → String
unfolding is_broadcast
conversation_key_for local msg =
    if is_broadcast msg
    then broadcast_conversation
    else conversation_key (if str_eq msg.sender local then msg.recipient else msg.sender)
