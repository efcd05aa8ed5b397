-- ===== src/Presence/Tracker.antt =====
-- The presence tracker: liveness facts and their leases (internal/coordinator/presence/tracker.go), and
-- the view of them (internal/coordinator/presence/view.go).
use walkie.Prelude.{
  ℕ, ◌+◌, ◌-◌, ◌%◌, ◌^◌, String, Bool, true, false, not, Option, none, some, List, [], ◌∷◌, ◌++◌,
  ltb, ◌==◌, if◌then◌else◌, length, lookup, insert, map, sort_names,
}
use walkie.Wire.{Bytes}

-- A time in nanoseconds; `none` is the zero time.
abbrev pub Time : Type 0
Time = Option ℕ

pub record Device : Type 0 where
  pub conns : ℕ
  pub online : Bool
  pub last_seen : Time
  pub lease : Option ℕ  -- the deadline of the armed timer
  pub gen : ℕ
  pub text : Bytes
  pub updated_at : Time

pub record Change : Type 0 where
  pub device : String
  pub online : Bool
  pub last_seen : Time
  pub status : Bytes

-- A goroutine of `watch`: it may call expire from the deadline on.
pub record Watch : Type 0 where
  pub device : String
  pub gen : ℕ
  pub deadline : ℕ

-- A stored time is `none` where its text does not parse.
pub record Tables : Type 0 where
  pub liveness : List (String × Option Time)
  pub statuses : List (String × (Bytes × Option Time))

pub record Tracker : Type 0 where
  pub ttl : ℕ
  pub devices : List (String × Device)
  pub subs : List (ℕ × List Change)
  pub closed : Bool
  pub tables : Tables
  pub started : List Watch  -- every `watch` started, the last one first

abbrev pub new_device : Device
new_device = record {
  conns = 0;
  online = false;
  last_seen = none;
  lease = none;
  gen = 0;
  text = [];
  updated_at = none;
}

abbrev pub or_new : Option Device → Device
or_new none = new_device
or_new (some d) = d

-- deviceLocked, less the entry it makes
abbrev pub device_state : String → Tracker → Device
device_state device t = or_new (lookup device t.devices)

abbrev pub put : String → Device → Tracker → Tracker
put device d t = record t { devices = insert device d t.devices }

abbrev pub subscription_buffer : ℕ
subscription_buffer = 32

unfoldable pub notify : Change → List (ℕ × List Change) → List (ℕ × List Change)
notify ch [] = []
notify ch ((s, buffer) ∷ subs) =
    let rest = notify ch subs in
    (s, if ltb (length buffer) subscription_buffer then buffer ++ ch ∷ [] else buffer) ∷ rest

abbrev pub change_of : String → Device → Change
change_of device d = record {
  device = device;
  online = d.online;
  last_seen = d.last_seen;
  status = d.text;
}

-- saveLiveness; a failed write is logged and the state goes on without it.
abbrev pub save_liveness : Bool → String → Time → Tables → Tables
save_liveness stored device seen tables =
    if stored
    then record tables { liveness = insert device (some seen) tables.liveness }
    else tables

abbrev pub renewed : ℕ → ℕ → Device → Device
renewed ttl now d = record d {
  online = true;
  last_seen = some now;
  lease = some (now + ttl);
  gen = (d.gen + 1) % 2 ^ 64;
}

-- markAliveLocked; the device's old timer is stopped and its new one armed.
abbrev pub mark_alive : ℕ → Bool → String → Device → Tracker → Tracker
mark_alive now stored device d t =
    let d' = renewed t.ttl now d in
    record t {
      devices = insert device d' t.devices;
      subs = if d.online then t.subs else notify (change_of device d') t.subs;
      tables = save_liveness stored device (some now) t.tables;
      started = record { device = device; gen = d'.gen; deadline = now + t.ttl } ∷ t.started;
    }

abbrev pub ended : Time → Device → Device
ended seen d = record d { online = false; last_seen = seen; lease = none }

-- markOfflineLocked
abbrev pub mark_offline : Bool → String → Time → Device → Tracker → Tracker
mark_offline stored device seen d t =
    let d' = ended seen d in
    record t {
      devices = insert device d' t.devices;
      subs = notify (change_of device d') t.subs;
      tables = save_liveness stored device seen t.tables;
    }

unfoldable pub observe_heartbeat : ℕ → Bool → String → Tracker → Tracker
observe_heartbeat now stored device t =
    if t.closed then t else mark_alive now stored device (device_state device t) t

unfoldable pub connection_established : ℕ → Bool → String → Tracker → Tracker
connection_established now stored device t =
    if t.closed
    then t
    else let d = device_state device t in
      mark_alive now stored device (record d { conns = d.conns + 1 }) t

abbrev pub lose : ℕ → Bool → String → Option Device → Tracker → Tracker
lose now stored device none t = t
lose now stored device (some d) t =
    if d.conns == 0
    then t
    else let d' = record d { conns = d.conns - 1 } in
      if ltb 0 d'.conns
      then put device d' t
      else if not d'.online
      then put device d' t
      else mark_offline stored device (some now) d' t

unfoldable pub connection_lost : ℕ → Bool → String → Tracker → Tracker
unfolding lookup
connection_lost now stored device t =
    if t.closed then t else lose now stored device (lookup device t.devices) t

abbrev pub expire_device : Bool → String → ℕ → Option Device → Tracker → Tracker
expire_device stored device gen none t = t
expire_device stored device gen (some d) t =
    if not d.online
    then t
    else if d.gen == gen
    then mark_offline stored device d.last_seen d t
    else t

unfoldable pub expire : Bool → String → ℕ → Tracker → Tracker
unfolding lookup
expire stored device gen t =
    if t.closed then t else expire_device stored device gen (lookup device t.devices) t

unfoldable pub end_leases : List (String × Device) → List (String × Device)
end_leases [] = []
end_leases ((device, d) ∷ devices) = (device, record d { lease = none }) ∷ end_leases devices

-- Close
unfoldable pub close_tracker : Tracker → Tracker
unfolding end_leases
close_tracker t = if t.closed then t else record t { closed = true; devices = end_leases t.devices }

-- Known
unfoldable pub known : String → Tracker → Bool
unfolding lookup
known device t = elim (lookup device t.devices) [ none ↦ false | some d ↦ true ]

-- Snapshot; an Entry has the fields of a Change.
unfoldable pub snapshot : Tracker → List Change
snapshot t = map (λ d. change_of d.0 d.1) (sort_names t.devices)
