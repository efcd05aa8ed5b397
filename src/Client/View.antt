-- ===== src/Client/View.antt =====
-- The client's view of the other devices (internal/presenceview/view.go).
use walkie.Prelude.{
  ℕ, String, Bool, true, false, not, ◌&&◌, Option, none, some, List, [], ◌∷◌, ◌++◌, ltb, ◌==◌,
  if◌then◌else◌, str_eq, length, map, filter, lookup, insert, sort_names,
}
use walkie.Wire.{Bytes, PresenceUpdate, PresenceState, unspecified, online, offline}
use walkie.Keystore.Pins.{same_bytes}

-- A last-seen time of 0 is that of a device never observed alive.
pub record Entry : Type 0 where
  pub online : Bool
  pub last_seen : ℕ
  pub status : Bytes

pub record Device : Type 0 where
  pub device : String
  pub entry : Entry

pub record View : Type 0 where
  pub entries : List (String × Entry)
  pub subs : List (ℕ × List Device)

abbrev pub new_view : View
new_view = record { entries = []; subs = [] }

-- Reading a missing key gives the zero entry.
abbrev pub or_zero : Option Entry → Entry
or_zero none = record { online = false; last_seen = 0; status = [] }
or_zero (some e) = e

abbrev pub seen_or : ℕ → Option ℕ → ℕ
seen_or old none = old
seen_or old (some t) = t

abbrev pub with_state : PresenceUpdate → PresenceState → Entry → Entry
with_state pu online e = record e { online = true }
with_state pu offline e = record e { online = false; last_seen = seen_or e.last_seen pu.last_seen }
with_state pu unspecified e = e

abbrev pub same_bool : Bool → Bool → Bool
same_bool true b = b
same_bool false b = not b

-- A zero entry has no name, so it differs from every entry that has one.
abbrev pub differs : Option Entry → Entry → Bool
differs none e = true
differs (some old) e = not (
    same_bool old.online e.online
    && (old.last_seen == e.last_seen)
    && same_bytes old.status e.status)

-- notifyLocked: a subscription whose buffer is full misses the change.
unfoldable pub notify : Device → List (ℕ × List Device) → List (ℕ × List Device)
notify d [] = []
notify d ((s, buffer) ∷ subs) =
    let rest = notify d subs in
    (s, if ltb (length buffer) 32 then buffer ++ d ∷ [] else buffer) ∷ rest

abbrev pub updated : PresenceUpdate → View → Entry
updated pu v =
    with_state pu pu.state (record (or_zero (lookup pu.device v.entries)) { status = pu.status })

-- Apply
unfoldable pub apply : PresenceUpdate → View → View
unfolding lookup insert notify
apply pu v =
    if str_eq pu.device ""
    then v
    else let e = updated pu v in
      record {
        entries = insert pu.device e v.entries;
        subs =
            if differs (lookup pu.device v.entries) e
            then notify (record { device = pu.device; entry = e }) v.subs
            else v.subs;
      }

-- Snapshot
unfoldable pub snapshot : View → List Device
snapshot v = map (λ e. record { device = e.0; entry = e.1 }) (sort_names v.entries)

-- Subscribe, under the name `s`.
abbrev pub subscribe : ℕ → View → View
subscribe s v = record v { subs = (s, []) ∷ v.subs }

-- Subscription.Close
abbrev pub unsubscribe : ℕ → View → View
unsubscribe s v = record v { subs = filter (λ sub. not (sub.0 == s)) v.subs }
