-- ===== src/Presence/Status.antt =====
-- Status labels (internal/coordinator/presence/status.go), subscriptions
-- (internal/coordinator/presence/view.go) and the start from stored rows
-- (internal/coordinator/presence/tracker.go).
use walkie.Prelude.{
  ℕ, String, Bool, false, not, Option, none, some, List, [], ◌∷◌, ltb, ◌==◌, if◌then◌else◌, length,
  filter, lookup, insert,
}
use walkie.Wire.{Bytes}
use walkie.Message.Text.{valid_string}
use walkie.Presence.Tracker.{Time, Device, Tables, Tracker, or_new, device_state, notify, change_of}

abbrev pub max_status_bytes : ℕ
max_status_bytes = 256

pub data StatusError : Type 0 where
  status_too_long status_not_utf8 tracker_closed status_not_stored : StatusError

abbrev pub labelled : ℕ → Bytes → Device → Device
labelled now status d = record d { text = status; updated_at = some now }

-- The part of SetStatus behind its checks and its write.
abbrev pub relabel : ℕ → String → Bytes → Tracker → Tracker
relabel now device status t =
    let d = labelled now status (device_state device t) in
    record t {
      devices = insert device d t.devices;
      subs = notify (change_of device d) t.subs;
      tables = record t.tables {
        statuses = insert device (status, some (some now)) t.tables.statuses;
      };
    }

-- SetStatus, with the error it returns. `stored` tells whether the row's write succeeds.
unfoldable pub set_status : ℕ → Bool → String → Bytes → Tracker → Option StatusError × Tracker
set_status now stored device status t =
    if ltb max_status_bytes (length status)
    then (some status_too_long, t)
    else if not (valid_string status)
    then (some status_not_utf8, t)
    else if t.closed
    then (some tracker_closed, t)
    else if not stored
    then (some status_not_stored, t)
    else (none, relabel now device status t)

-- Subscribe; on a closed tracker the subscription is not registered. `s` is the new subscription's name.
unfoldable pub subscribe : ℕ → Tracker → Tracker
subscribe s t = if t.closed then t else record t { subs = (s, []) ∷ t.subs }

-- Subscription.Close
unfoldable pub unsubscribe : ℕ → Tracker → Tracker
unsubscribe s t = record t { subs = filter (λ sub. not (sub.0 == s)) t.subs }

-- One row of presence_liveness; `none` where its time does not parse.
abbrev pub load_seen :
    List (String × Device) → String → Option Time → Option (List (String × Device))
load_seen devices device none = none
load_seen devices device (some seen) =
    some (insert device (record (or_new (lookup device devices)) { last_seen = seen }) devices)

unfoldable pub load_liveness :
    List (String × Option Time) → List (String × Device) → Option (List (String × Device))
load_liveness [] devices = some devices
load_liveness ((device, stored) ∷ rows) devices = elim (load_seen devices device stored) [
  | none ↦ none
  | some devices' ↦ load_liveness rows devices'
]

abbrev pub load_label :
    List (String × Device) → String → Bytes → Option Time → Option (List (String × Device))
load_label devices device text none = none
load_label devices device text (some updated) = some (
    insert device (record (or_new (lookup device devices)) { text = text; updated_at = updated })
      devices)

unfoldable pub load_statuses :
    List (String × (Bytes × Option Time)) → List (String × Device) → Option (List (String × Device))
load_statuses [] devices = some devices
load_statuses ((device, (text, stored)) ∷ rows) devices =
    elim (load_label devices device text stored) [
      | none ↦ none
      | some devices' ↦ load_statuses rows devices'
    ]

abbrev pub then_statuses :
    List (String × (Bytes × Option Time))
    → Option (List (String × Device))
    → Option (List (String × Device))
then_statuses rows none = none
then_statuses rows (some devices) = load_statuses rows devices

-- loadPersisted. `reads` tells whether the queries succeed.
unfoldable pub load_persisted : Bool → Tables → Option (List (String × Device))
load_persisted reads tables =
    if not reads then none else then_statuses tables.statuses (load_liveness tables.liveness [])

abbrev pub tracker_of : ℕ → Tables → Option (List (String × Device)) → Option Tracker
tracker_of ttl tables none = none
tracker_of ttl tables (some devices) = some (record {
  ttl = ttl;
  devices = devices;
  subs = [];
  closed = false;
  tables = tables;
  started = [];
})

-- NewTracker
unfoldable pub new_tracker : Bool → ℕ → Tables → Option Tracker
new_tracker reads ttl tables =
    if ttl == 0 then none else tracker_of ttl tables (load_persisted reads tables)
