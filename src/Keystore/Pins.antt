-- ===== src/Keystore/Pins.antt =====
-- The keystore's operations (internal/crypto/keystore.go).
use walkie.Prelude.{
  ℕ, String, Bool, true, false, not, ◌||◌, Option, none, some, List, [], ◌∷◌, ◌==◌, if◌then◌else◌,
  str_eq, length, lookup, insert, erase, map, sort_names,
}
use walkie.Wire.{Bytes}

pub record PinRecord : Type 0 where
  pub key : Bytes
  pub pinned_at : ℕ
  pub confirmed_at : Option ℕ

abbrev pub Peers : Type 0
Peers = List (String × PinRecord)

-- What a keystore file decodes to. A peer's record may be absent, as JSON's null is.
pub record KeystoreFile : Type 0 where
  pub version : ℕ
  pub entries : List (String × Option PinRecord)

-- What reading the file gives.
pub data Contents : Type 0 where
  missing unreadable corrupt : Contents
  decoded : (file : KeystoreFile) → Contents

-- The pins in memory, and those of the file last renamed into place, if there is one.
pub record Keystore : Type 0 where
  pub peers : Peers
  pub file : Option Peers

abbrev pub pub_key_size : ℕ
pub_key_size = 32

abbrev pub keystore_version : ℕ
keystore_version = 1

abbrev pub bad_entry : String → Option PinRecord → Bool
bad_entry peer none = true
bad_entry peer (some rec) = str_eq peer "" || not (length rec.key == pub_key_size)

abbrev pub good : Bool → String → Option PinRecord → Option Peers → Option Peers
good false peer (some rec) (some peers) = some ((peer, rec) ∷ peers)
good _ peer entry rest = none

-- The entries of a file, once each has been found good.
unfoldable pub checked : List (String × Option PinRecord) → Option Peers
checked [] = some []
checked ((peer, entry) ∷ entries) = good (bad_entry peer entry) peer entry (checked entries)

abbrev pub opened : Option Peers → Option Keystore
opened none = none
opened (some peers) = some (record { peers = peers; file = some peers })

-- OpenKeystore, the directory being there with its mode; `none` is an error.
unfoldable pub open_keystore : Contents → Option Keystore
open_keystore missing = some (record { peers = []; file = none })
open_keystore unreadable = none
open_keystore corrupt = none
open_keystore (decoded file) =
    if not (file.version == keystore_version) then none else opened (checked file.entries)

-- saveLocked: a temporary file is written and renamed into place. `saves` tells whether each of its
-- steps succeeds; where one fails the file in place stays as it was.
abbrev pub save : Bool → Keystore → Bool × Keystore
save saves ks = if saves then (true, record ks { file = some ks.peers }) else (false, ks)

pub data AuthorizeError : Type 0 where
  no_peer not_persisted : AuthorizeError
  key_changed : (pinned presented : Bytes) → AuthorizeError

abbrev pub same_bytes : Bytes → Bytes → Bool
same_bytes [] [] = true
same_bytes (x ∷ xs) (y ∷ ys) = let rest = same_bytes xs ys in if x == y then rest else false
same_bytes _ _ = false

-- First contact: the pin is dropped again where it cannot be saved.
abbrev pub pin : ℕ → Bool → String → Bytes → Keystore → Option AuthorizeError × Keystore
pin now saves peer presented ks =
    let fresh : PinRecord = record { key = presented; pinned_at = now; confirmed_at = none } in
    let saved = save saves (record ks { peers = insert peer fresh ks.peers }) in
    if saved.0
    then (none, saved.1)
    else (some not_persisted, record saved.1 { peers = erase peer saved.1.peers })

-- A changed key that the operator confirms: the old pin is put back where the new cannot be saved.
abbrev pub repin :
    ℕ → Bool → String → Bytes → PinRecord → Keystore → Option AuthorizeError × Keystore
repin now saves peer presented existing ks =
    let updated : PinRecord = record {
      key = presented;
      pinned_at = existing.pinned_at;
      confirmed_at = some now;
    } in
    let saved = save saves (record ks { peers = insert peer updated ks.peers }) in
    if saved.0
    then (none, saved.1)
    else (some not_persisted, record saved.1 { peers = insert peer existing saved.1.peers })

-- `confirm` is asked with the fingerprints of the pinned and of the presented key, so with no more
-- than those keys; a nil ConfirmFunc is `none`.
abbrev pub confirms : Option (String → Bytes → Bytes → Bool) → String → Bytes → Bytes → Bool
confirms none peer pinned presented = false
confirms (some confirm) peer pinned presented = confirm peer pinned presented

abbrev pub against :
    ℕ
    → Bool
    → Option (String → Bytes → Bytes → Bool)
    → String
    → Bytes
    → Option PinRecord
    → Keystore
    → Option AuthorizeError × Keystore
against now saves confirm peer presented none ks = pin now saves peer presented ks
against now saves confirm peer presented (some existing) ks =
    if same_bytes existing.key presented
    then (none, ks)
    else if not (confirms confirm peer existing.key presented)
    then (some (key_changed existing.key presented), ks)
    else repin now saves peer presented existing ks

-- Authorize
unfoldable pub authorize :
    ℕ
    → Bool
    → Option (String → Bytes → Bytes → Bool)
    → String
    → Bytes
    → Keystore
    → Option AuthorizeError × Keystore
authorize now saves confirm peer presented ks =
    if str_eq peer ""
    then (some no_peer, ks)
    else against now saves confirm peer presented (lookup peer ks.peers) ks

abbrev pub key_of : Option PinRecord → Option Bytes
key_of none = none
key_of (some rec) = some rec.key

-- PinnedKey
unfoldable pub pinned_key : String → Keystore → Option Bytes
pinned_key peer ks = key_of (lookup peer ks.peers)

-- Entries
unfoldable pub entries : Keystore → List (String × Bytes)
entries ks = sort_names (map (λ p. (p.0, p.1.key)) ks.peers)
