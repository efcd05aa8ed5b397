-- ===== src/Presence/Conns.antt =====
-- What each operation does to the number of a device's connections
-- (internal/coordinator/presence/tracker.go and internal/coordinator/presence/status.go).
use walkie.Prelude.{
  ℕ, ◌+◌, ◌-◌, ◌≡◌, refl, ap, String, Bool, true, false, Option, none, some, arith, str_eq, eq_iff,
  lookup, insert, lookup-insert, if◌then◌else◌,
}
use walkie.Wire.{Bytes}
use walkie.Presence.Tracker.{
  Device, Tracker, or_new, device_state, observe_heartbeat, connection_established, connection_lost,
  lose, renewed, ended, expire, expire_device,
}
use walkie.Presence.Status.{set_status, labelled}

abbrev pub conns_of : String → Tracker → ℕ
conns_of a t = (device_state a t).conns

module _ (now : ℕ) (stored : Bool) (b a : String) (t : Tracker) where
  put_conns :
      (d : Device)
      → (or_new (lookup a (insert b d t.devices))).conns
        ≡ (if str_eq b a then d.conns else conns_of a t)
  put_conns d = ground (arith, lookup-insert b a d t.devices)

  own : str_eq b a ≡ true → conns_of b t ≡ conns_of a t
  own e = ap (λ x. conns_of x t) ((eq_iff b a).0 e)

  pub conns-connection_established :
      t.closed ≡ false
      → (conns_of a (connection_established now stored b t)
          ≡ (if str_eq b a then conns_of a t + 1 else conns_of a t))
  unfolding connection_established
  conns-connection_established running =
      let d = device_state b t in
      ground (arith, running, own, put_conns (renewed t.ttl now (record d { conns = d.conns + 1 })))

  conns-lose :
      (o : Option Device)
      → lookup b t.devices ≡ o
      → (conns_of a (lose now stored b o t)
          ≡ (if str_eq b a then conns_of a t - 1 else conns_of a t))
  conns-lose none e = ground (arith, own, e)
  conns-lose (some d) e =
      let d' = record d { conns = d.conns - 1 } in
      ground (arith, own, e, put_conns d', put_conns (ended (some now) d'))

  pub conns-connection_lost :
      t.closed ≡ false
      → (conns_of a (connection_lost now stored b t)
          ≡ (if str_eq b a then conns_of a t - 1 else conns_of a t))
  unfolding connection_lost
  conns-connection_lost running = ground (arith, running, conns-lose (lookup b t.devices) refl)

  pub conns-observe_heartbeat : conns_of a (observe_heartbeat now stored b t) ≡ conns_of a t
  unfolding observe_heartbeat
  conns-observe_heartbeat = ground (arith, own, put_conns (renewed t.ttl now (device_state b t)))

  conns-expire_device :
      (gen : ℕ) (o : Option Device)
      → lookup b t.devices ≡ o
      → conns_of a (expire_device stored b gen o t) ≡ conns_of a t
  conns-expire_device gen none e = refl
  conns-expire_device gen (some d) e = ground (arith, own, e, put_conns (ended d.last_seen d))

  pub conns-expire : (gen : ℕ) → conns_of a (expire stored b gen t) ≡ conns_of a t
  unfolding expire
  conns-expire gen = ground (arith, conns-expire_device gen (lookup b t.devices) refl)

  pub conns-set_status :
      (text : Bytes) → conns_of a (set_status now stored b text t).1 ≡ conns_of a t
  unfolding set_status
  conns-set_status text = ground (arith, own, put_conns (labelled now text (device_state b t)))

  -- None of them opens or closes the tracker.
  pub closed-connection_established : (connection_established now stored b t).closed ≡ t.closed
  unfolding connection_established
  closed-connection_established = ground arith

  closed-lose : (o : Option Device) → (lose now stored b o t).closed ≡ t.closed
  closed-lose none = refl
  closed-lose (some d) = ground arith

  pub closed-connection_lost : (connection_lost now stored b t).closed ≡ t.closed
  unfolding connection_lost
  closed-connection_lost = ground (arith, closed-lose (lookup b t.devices))

  pub closed-observe_heartbeat : (observe_heartbeat now stored b t).closed ≡ t.closed
  unfolding observe_heartbeat
  closed-observe_heartbeat = ground arith

  closed-expire_device :
      (gen : ℕ) (o : Option Device) → (expire_device stored b gen o t).closed ≡ t.closed
  closed-expire_device gen none = refl
  closed-expire_device gen (some d) = ground arith

  pub closed-expire : (gen : ℕ) → (expire stored b gen t).closed ≡ t.closed
  unfolding expire
  closed-expire gen = ground (arith, closed-expire_device gen (lookup b t.devices))

  pub closed-set_status : (text : Bytes) → (set_status now stored b text t).1.closed ≡ t.closed
  unfolding set_status
  closed-set_status text = ground arith
