-- ===== src/Coordinator/Steps.antt =====
-- Every step of the server keeps its parts in order (internal/coordinator/server.go).
use walkie.Prelude.{
  ℕ, ◌+◌, ◌-◌, ◌<◌, ◌≡◌, refl, sym, ap, ◌∙◌, String, Bool, true, false, some, ◌∷◌, arith, ◌==◌,
  ==→eq, if◌then◌else◌, get_elem?, if-intro,
}
use walkie.Presence.Tracker.{Tracker, connection_established, connection_lost}
use walkie.Presence.Conns.{
  conns_of, conns-connection_established, closed-connection_established, conns-connection_lost,
  closed-connection_lost,
}
use walkie.Coordinator.Routing.{device_of, has, without, route_targets, add_route, remove_route}
use walkie.Coordinator.Routes.{targets-add_route, targets-remove_route, has-without}
use walkie.Coordinator.Dispatch.{Hub, Moment, watching}
use walkie.Coordinator.Session.{
  House, Conn, Stage, accepted, tracked, established, greeted, routed, leaving, unrouted, lost,
  unsubscribed, released, at, track, release, routing,
}
use walkie.Coordinator.Stages.{
  bit, count, count-there, in_routes, in_presence, in_registry, runs, of, staged, found,
}
use walkie.Coordinator.Orderly.{IsOrderly, Keeps, Traces, moved-IsOrderly}
use walkie.Coordinator.Keeping.{on-some, untouched-Keeps}

module _ {S : Type 0} (s : House S) (kept : IsOrderly s) (i : ℕ) (c : Conn)
    (here : get_elem? s.conns i ≡ some c) where
  found_here : (p : Conn → Bool) (w : ℕ) → (i == w) ≡ true → found p (get_elem? s.conns w) ≡ p c
  found_here p w e = ap (λ x. found p (get_elem? s.conns x)) (sym (==→eq i w e)) ∙ ap (found p) here

  same_routes :
      (st : Stage) (hub : Hub S)
      → hub.server.routes ≡ s.hub.server.routes
      → in_routes c.stage ≡ in_routes st
      → (d : String) (w : ℕ)
      → has w (route_targets d hub.server) ≡ (
          if i == w
          then of d in_routes (record c { stage = st })
          else has w (route_targets d s.hub.server))
  unfolding route_targets
  same_routes st hub same flags d w =
      rw same (ground (arith, flags, found_here (of d in_routes) w, kept.routes d w))

  same_registry :
      (st : Stage)
      → in_registry c.stage ≡ in_registry st
      → (w : ℕ) → has w s.registry ≡ (if i == w then in_registry st else has w s.registry)
  same_registry st flags w = ground (arith, flags, found_here (staged in_registry) w, kept.listed w)

  same_counts :
      (st : Stage) (hub : Hub S)
      → ((t' : Tracker) → hub.tracker ≡ some t' → Traces s.hub t')
      → in_presence c.stage ≡ in_presence st
      → (t' : Tracker) → hub.tracker ≡ some t'
      → (t'.closed ≡ false)
        × ((d : String)
            → conns_of d t' + bit (of d in_presence c)
              ≡ count (of d in_presence) s.conns + bit (of d in_presence (record c { stage = st })))
  same_counts st hub traces flags t' e =
      let (t, was, closed, same) = traces t' e in
      (closed ∙ kept.opened t was, λ d. ground (arith, same d, kept.counts t was d, flags))

  -- A move to a stage that stands as the one before does, with no route and no count changed.
  pub still-IsOrderly :
      (st : Stage) (hub : Hub S)
      → Keeps s.hub hub
      → in_routes c.stage ≡ in_routes st
      → in_presence c.stage ≡ in_presence st
      → in_registry c.stage ≡ in_registry st
      → runs c.stage ≡ runs st
      → IsOrderly (at i c st hub s)
  still-IsOrderly st hub k r p l a =
      moved-IsOrderly s kept i c st hub s.registry s.running here (same_routes st hub k.routes r)
        (same_counts st hub k.tracker p) (same_registry st l) (ap (λ b. s.running + bit b) a)

  pub unchanged : Keeps s.hub s.hub
  unchanged = untouched-Keeps s.hub s.hub refl refl

  running_pos : runs c.stage ≡ true → 0 < s.running
  running_pos a = ground (arith, a, kept.counted, count-there (staged runs) s.conns i c here)

  pub track-IsOrderly : c.stage ≡ accepted → IsOrderly (track i c s)
  unfolding track
  track-IsOrderly e =
      if-intro IsOrderly s.draining (record (at i c released s.hub s) { running = s.running - 1 })
        (record (at i c tracked s.hub s) { registry = i ∷ s.registry })
        (λ late.
          moved-IsOrderly s kept i c released s.hub s.registry (s.running - 1) here
            (same_routes released s.hub refl (rw e refl))
            (same_counts released s.hub unchanged.tracker (rw e refl))
            (same_registry released (rw e refl)) (ground (arith, e, running_pos)))
        (λ early.
          moved-IsOrderly s kept i c tracked s.hub (i ∷ s.registry) s.running here
            (same_routes tracked s.hub refl (rw e refl))
            (same_counts tracked s.hub unchanged.tracker (rw e refl)) (λ w. ground arith)
            (rw e refl))

  pub release-IsOrderly : c.stage ≡ unsubscribed → IsOrderly (release i c s)
  unfolding release
  release-IsOrderly e =
      moved-IsOrderly s kept i c released s.hub (without i s.registry) (s.running - 1) here
        (same_routes released s.hub refl (rw e refl))
        (same_counts released s.hub unchanged.tracker (rw e refl))
        (λ w. ground (arith, has-without w i s.registry)) (ground (arith, e, running_pos))

  pub establish-IsOrderly :
      (m : Moment)
      → c.stage ≡ tracked
      → IsOrderly (
          at i c established
            (watching (connection_established m.now m.stored (device_of c.identity)) s.hub)
            s)
  establish-IsOrderly m e =
      let b = device_of c.identity in
      let hub = watching (connection_established m.now m.stored b) s.hub in
      moved-IsOrderly s kept i c established hub s.registry s.running here
        (same_routes established hub refl (rw e refl))
        (λ t' made.
          let (t, was, is) =
            on-some (connection_established m.now m.stored b) s.hub.tracker t' made in
          let running = kept.opened t was in
          (
            ap (λ x. x.closed) is ∙ closed-connection_established m.now m.stored b b t ∙ running,
            λ d. ground (
              arith,
              e,
              ap (λ x. conns_of d x) is,
              conns-connection_established m.now m.stored b d t running,
              kept.counts t was d,
            ),
          ))
        (same_registry established (rw e refl)) (rw e refl)

  pub lose-IsOrderly :
      (m : Moment)
      → c.stage ≡ unrouted
      → IsOrderly
          (at i c lost (watching (connection_lost m.now m.stored (device_of c.identity)) s.hub) s)
  lose-IsOrderly m e =
      let b = device_of c.identity in
      let hub = watching (connection_lost m.now m.stored b) s.hub in
      moved-IsOrderly s kept i c lost hub s.registry s.running here
        (same_routes lost hub refl (rw e refl))
        (λ t' made.
          let (t, was, is) = on-some (connection_lost m.now m.stored b) s.hub.tracker t' made in
          let running = kept.opened t was in
          (
            ap (λ x. x.closed) is ∙ closed-connection_lost m.now m.stored b b t ∙ running,
            λ d. ground (
              arith,
              e,
              ap (λ x. conns_of d x) is,
              conns-connection_lost m.now m.stored b d t running,
              kept.counts t was d,
              count-there (of d in_presence) s.conns i c here,
            ),
          ))
        (same_registry lost (rw e refl)) (rw e refl)

  pub route-IsOrderly :
      c.stage ≡ greeted
      → IsOrderly (at i c routed (routing (add_route (device_of c.identity) i) s.hub) s)
  route-IsOrderly e =
      let b = device_of c.identity in
      let hub = routing (add_route b i) s.hub in
      moved-IsOrderly s kept i c routed hub s.registry s.running here
        (λ d w. ground (
          arith,
          e,
          targets-add_route s.hub.server b d i w,
          kept.routes d w,
          found_here (of d in_routes) w,
        ))
        (same_counts routed hub unchanged.tracker (rw e refl)) (same_registry routed (rw e refl))
        (rw e refl)

  pub unroute-IsOrderly :
      c.stage ≡ leaving
      → IsOrderly (at i c unrouted (routing (remove_route (device_of c.identity) i) s.hub) s)
  unroute-IsOrderly e =
      let b = device_of c.identity in
      let hub = routing (remove_route b i) s.hub in
      moved-IsOrderly s kept i c unrouted hub s.registry s.running here
        (λ d w. ground (
          arith,
          e,
          targets-remove_route s.hub.server b d i w,
          kept.routes d w,
          found_here (of d in_routes) w,
        ))
        (same_counts unrouted hub unchanged.tracker (rw e refl))
        (same_registry unrouted (rw e refl)) (rw e refl)
