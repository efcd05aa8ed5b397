-- ===== src/Presence/Tests.antt =====
-- Runs of the presence tracker on small inputs.
use walkie.Prelude.{
  ℕ, ◌+◌, ◌≤◌, ◌≡◌, refl, true, false, none, some, [], ◌∷◌, arith, inl, lookup, insert,
}
use walkie.Message.Text.{valid_string}
use walkie.Presence.Tracker.{
  Device, Watch, Tables, Tracker, new_device, device_state, connection_established, expire, notify,
}
use walkie.Presence.Status.{set_status, new_tracker, load_persisted, load_liveness, load_statuses}
use walkie.Presence.Reached.{connect, fire, step, Reached, start, next}
use walkie.Presence.Expiry.{fire_never_early}

abbrev no_tables : Tables
no_tables = record { liveness = []; statuses = [] }

abbrev idle_tracker : Tracker
idle_tracker = record {
  ttl = 30;
  devices = [];
  subs = [];
  closed = false;
  tables = no_tables;
  started = [];
}

new_tracker-idle : new_tracker true 30 no_tables ≡ some idle_tracker
unfolding new_tracker load_persisted load_liveness load_statuses
new_tracker-idle = refl

abbrev base : Device
base = record new_device { conns = 1; online = true; last_seen = some 5; lease = some 35; gen = 1 }

abbrev base_watch : Watch
base_watch = record { device = "base"; gen = 1; deadline = 35 }

abbrev one_online : Tracker
one_online = record {
  ttl = 30;
  devices = ("base", base) ∷ [];
  subs = [];
  closed = false;
  tables = record { liveness = ("base", some (some 5)) ∷ []; statuses = [] };
  started = base_watch ∷ [];
}

one_online-Reached : Reached 1 one_online
unfolding step connection_established insert notify
one_online-Reached = next (start true 30 no_tables new_tracker-idle) (connect 5 true "base") tt

off_at_40 : (device_state "base" (step (fire 40 true base_watch) one_online)).online ≡ false
unfolding step expire insert lookup
off_at_40 = refl

fire_never_early_example :
    (seen : ℕ) × ((device_state "base" one_online).last_seen ≡ some seen)
    × (seen + 30 ≤ 40)
    × ((device_state "base" (step (fire 40 true base_watch) one_online)).last_seen ≡ some seen)
unfolding lookup
fire_never_early_example =
    fire_never_early 1 one_online 40 true base_watch (omega arith) one_online-Reached (inl refl)
      (omega arith) refl off_at_40

-- The text of that status is stored and no error returned.
set_status-hi : (t' : Tracker) × (set_status 7 true "base" (104 ∷ 105 ∷ []) one_online ≡ (none, t'))
unfolding set_status valid_string
set_status-hi = (_, refl)
