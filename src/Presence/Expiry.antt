-- ===== src/Presence/Expiry.antt =====
-- When a lease expires (internal/coordinator/presence/tracker.go).
use walkie.Prelude.{
  subst, ℕ, ◌+◌, ◌^◌, ◌≤◌, ◌<◌, ◌≡◌, refl, ap, ◌∙◌, String, Bool, true, false, not, Option, none,
  some, arith, ◌==◌, if◌then◌else◌, eq_refl, lookup, lookup-insert,
}
use walkie.Presence.Tracker.{
  Time, Device, Watch, Tracker, or_new, device_state, ended, expire_device, expire,
}
use walkie.Presence.Reached.{IsStarted, step, Reached, fire}
use walkie.Presence.Live.{LiveAt, due, watch_of}
use walkie.Presence.Runs.{reached-IsLive}

expire_device-of :
    (stored : Bool) (b : String) (gen : ℕ) (o : Option Device) (t : Tracker)
    → lookup b t.devices ≡ o
    → device_state b (expire_device stored b gen o t) ≡ (
        let d = or_new o in
        if not d.online then d else if d.gen == gen then ended d.last_seen d else d)
expire_device-of stored b gen none t e = ap or_new e
expire_device-of stored b gen (some d) t e =
    ground (arith, e, lookup-insert b b (ended d.last_seen d) t.devices, eq_refl b)

-- What expire does to its device, open and closed.
device-expire :
    (stored : Bool) (b : String) (gen : ℕ) (t : Tracker)
    → device_state b (expire stored b gen t) ≡ (
        let d = device_state b t in
        if t.closed
        then d
        else if not d.online
        then d
        else if d.gen == gen
        then ended d.last_seen d
        else d)
unfolding expire
device-expire stored b gen t =
    ground (arith, expire_device-of stored b gen (lookup b t.devices) t refl)

went_offline :
    (d d' : Device) (closed : Bool) (gen : ℕ)
    → d' ≡ (
        if closed
        then d
        else if not d.online
        then d
        else if d.gen == gen
        then ended d.last_seen d
        else d)
    → d.online ≡ true
    → d'.online ≡ false
    → (gen ≡ d.gen) × (d'.last_seen ≡ d.last_seen)
went_offline d d' closed gen e on off =
    ground (arith, ap (λ x. x.online) e, ap (λ x. x.last_seen) e)

due_at :
    (ttl seen deadline : ℕ) (last : Time)
    → last ≡ some seen
    → due ttl last ≡ some deadline
    → seen + ttl ≡ deadline
due_at ttl seen deadline last at e = ground (arith, at, e)

-- A lease never ends early: in a run of fewer than 2 ^ 64 events, a watch that fires, even one whose
-- timer was stopped and superseded, takes its online device offline only where `ttl` has passed
-- since the device was last seen, and leaves that time as it was.
pub fire_never_early :
    (n : ℕ) (t : Tracker) (now : ℕ) (stored : Bool) (w : Watch)
    → n < 2 ^ 64
    → Reached n t
    → IsStarted w t.started
    → w.deadline ≤ now
    → (device_state w.device t).online ≡ true
    → (device_state w.device (step (fire now stored w) t)).online ≡ false
    → (seen : ℕ) × ((device_state w.device t).last_seen ≡ some seen)
      × (seen + t.ttl ≤ now)
      × ((device_state w.device (step (fire now stored w) t)).last_seen ≡ some seen)
unfolding step
fire_never_early n t now stored w room reached known ripe on off =
    let live : LiveAt n t.ttl t.closed t.started w.device (device_state w.device t) =
      reached-IsLive n t room reached w.device in
    let (newest, kept) =
      went_offline (device_state w.device t) _ t.closed w.gen
        (device-expire stored w.device w.gen t) on off in
    let (seen, at, lease, watch) = live.leased on in
    let own : IsStarted (watch_of w.device (device_state w.device t).gen w.deadline) t.started =
      subst (λ gen. IsStarted (watch_of w.device gen w.deadline) t.started) newest known in
    let deadline = due_at t.ttl seen w.deadline _ at (live.current w.deadline own on) in
    (seen, at, omega (arith, deadline, ripe), kept ∙ at)
