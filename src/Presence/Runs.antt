-- ===== src/Presence/Runs.antt =====
-- Every run of the presence tracker keeps its leases (internal/coordinator/presence/tracker.go).
use walkie.Prelude.{
  ℕ, suc, ◌+◌, ◌-◌, ◌^◌, ◌<◌, ◌≡◌, refl, sym, ap, String, Bool, not, Option, none, some, List, [],
  ◌∷◌, arith, ltb, ◌==◌, if◌then◌else◌, if-intro, length, lookup,
}
use walkie.Wire.{Bytes}
use walkie.Presence.Tracker.{
  Device, Tracker, or_new, device_state, lose, expire_device, observe_heartbeat,
  connection_established, connection_lost, expire, close_tracker, end_leases,
}
use walkie.Message.Text.{valid_string}
use walkie.Presence.Status.{
  StatusError, status_too_long, status_not_utf8, tracker_closed, status_not_stored,
  max_status_bytes, relabel, set_status, subscribe, unsubscribe, labelled,
}
use walkie.Presence.Reached.{
  Event, heartbeat, connect, disconnect, fire, status, subscription, unsubscription, close, step,
  Reached, start, next,
}
use walkie.Presence.Live.{
  SameFacts, LiveAt-later, LiveAt-unleased, IsLive, alive-IsLive, offline-IsLive, put-IsLive,
}
use walkie.Presence.Start.{new_tracker-IsLive}

module _ (n : ℕ) (t : Tracker) (live : IsLive n t) where
  later : IsLive (suc n) t
  later a = LiveAt-later (live a)

  found : (b : String) (d : Device) → lookup b t.devices ≡ some d → device_state b t ≡ d
  found b d e = ap or_new e

  facts : (d d' : Device) → d ≡ d' → SameFacts d d'
  facts d d' e = (
    ap (λ x. x.online) (sym e),
    ap (λ x. x.last_seen) (sym e),
    ap (λ x. x.lease) (sym e),
    ap (λ x. x.gen) (sym e),
  )

  lose-IsLive :
      (now : ℕ) (stored : Bool) (b : String) (o : Option Device)
      → lookup b t.devices ≡ o
      → IsLive (suc n) (lose now stored b o t)
  lose-IsLive now stored b none e = later
  lose-IsLive now stored b (some d) e =
      let same = facts (device_state b t) d (found b d e) in
      let d' : Device = record d { conns = d.conns - 1 } in
      if-intro (IsLive (suc n)) (d.conns == 0) _ _ (λ h. later)
        (λ h.
          if-intro (IsLive (suc n)) (ltb 0 d'.conns) _ _ (λ h. put-IsLive n t live b d' same)
            (λ h.
              if-intro (IsLive (suc n)) (not d'.online) _ _ (λ h. put-IsLive n t live b d' same)
                (λ h. offline-IsLive n t live stored b (some now) d' same)))

  expire-IsLive :
      (stored : Bool) (b : String) (gen : ℕ) (o : Option Device)
      → lookup b t.devices ≡ o
      → IsLive (suc n) (expire_device stored b gen o t)
  expire-IsLive stored b gen none e = later
  expire-IsLive stored b gen (some d) e =
      let same = facts (device_state b t) d (found b d e) in
      if-intro (IsLive (suc n)) (not d.online) _ _ (λ h. later)
        (λ h.
          if-intro (IsLive (suc n)) (d.gen == gen) _ _
            (λ h. offline-IsLive n t live stored b d.last_seen d same) (λ h. later))

  status-IsLive :
      (now : ℕ) (stored : Bool) (b : String) (text : Bytes)
      → IsLive (suc n) ((set_status now stored b text t).1)
  unfolding set_status
  status-IsLive now stored b text =
      let P = λ (r : Option StatusError × Tracker). IsLive (suc n) r.1 in
      let set : Option StatusError × Tracker = (none, relabel now b text t) in
      let unstored : Option StatusError × Tracker =
        if not stored then (some status_not_stored, t) else set in
      let shut : Option StatusError × Tracker =
        if t.closed then (some tracker_closed, t) else unstored in
      let bad : Option StatusError × Tracker =
        if not (valid_string text) then (some status_not_utf8, t) else shut in
      if-intro P (ltb max_status_bytes (length text)) (some status_too_long, t) bad (λ h. later)
        (λ h.
          if-intro P (not (valid_string text)) (some status_not_utf8, t) shut (λ h. later)
            (λ h.
              if-intro P t.closed (some tracker_closed, t) unstored (λ h. later)
                (λ h.
                  if-intro P (not stored) (some status_not_stored, t) set (λ h. later)
                    (λ h.
                      put-IsLive n t live b (labelled now text (device_state b t))
                        (refl, refl, refl, refl)))))

  lookup-end_leases :
      (a : String) (devices : List (String × Device))
      → or_new (lookup a (end_leases devices)) ≡ record (or_new (lookup a devices)) { lease = none }
  unfolding end_leases lookup
  lookup-end_leases a [] = refl
  lookup-end_leases a ((b, d) ∷ devices) = ground (arith, lookup-end_leases a devices)

  close-IsLive : IsLive (suc n) (close_tracker t)
  unfolding close_tracker
  close-IsLive =
      if-intro (IsLive (suc n)) t.closed _ _ (λ h. later)
        (λ h a. rw (lookup-end_leases a t.devices) (LiveAt-unleased (live a)))

step-IsLive :
    (n : ℕ) (t : Tracker) (e : Event) → suc n < 2 ^ 64 → IsLive n t → IsLive (suc n) (step e t)
unfolding step observe_heartbeat connection_established connection_lost expire subscribe unsubscribe
step-IsLive n t (heartbeat now stored device) room live =
    if-intro (IsLive (suc n)) t.closed _ _ (λ h. later n t live)
      (λ h.
        alive-IsLive n t live now stored device (device_state device t) (refl, refl, refl, refl)
          room)
step-IsLive n t (connect now stored device) room live =
    let d = device_state device t in
    if-intro (IsLive (suc n)) t.closed _ _ (λ h. later n t live)
      (λ h.
        alive-IsLive n t live now stored device (record d { conns = d.conns + 1 })
          (refl, refl, refl, refl) room)
step-IsLive n t (disconnect now stored device) room live =
    if-intro (IsLive (suc n)) t.closed _ _ (λ h. later n t live)
      (λ h. lose-IsLive n t live now stored device (lookup device t.devices) refl)
step-IsLive n t (fire now stored watch) room live =
    if-intro (IsLive (suc n)) t.closed _ _ (λ h. later n t live)
      (λ h.
        expire-IsLive n t live stored watch.device watch.gen (lookup watch.device t.devices) refl)
step-IsLive n t (status now stored device text) room live =
    status-IsLive n t live now stored device text
step-IsLive n t (subscription s) room live =
    if-intro (IsLive (suc n)) t.closed _ _ (λ h. later n t live) (λ h. later n t live)
step-IsLive n t (unsubscription s) room live = later n t live
step-IsLive n t close room live = close-IsLive n t live

-- In every run of fewer than 2 ^ 64 events from a start, with writes failing as they may and watches
-- of stopped timers firing late, an online device was last seen at some time, its timer is armed for
-- `ttl` past that time unless the tracker is closed, and the watch that serves it was started; an
-- offline device has no timer; and no watch started for a device is newer than its generation.
pub reached-IsLive : (n : ℕ) (t : Tracker) → n < 2 ^ 64 → Reached n t → IsLive n t
reached-IsLive n t room (start reads ttl tables made) = new_tracker-IsLive reads ttl tables t made
reached-IsLive (suc n) _ room (next {t = t} before e can) =
    step-IsLive n t e room (reached-IsLive n t (omega arith) before)
