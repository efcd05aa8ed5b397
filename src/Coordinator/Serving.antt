-- ===== src/Coordinator/Serving.antt =====
-- Runs of the server (internal/coordinator/server.go and internal/coordinator/presence.go).
use walkie.Prelude.{
  ℕ, ◌+◌, ◌<◌, ◌≡◌, refl, sym, ◌∙◌, String, Bool, true, false, Option, none, some, [], ◌∷◌, ◌++◌,
  arith, str_eq, inl, inr, get_elem?, any, Bool-cases, subst, if-intro, some_eq, lookup,
}
use walkie.Presence.Tracker.{Tracker}
use walkie.Presence.Conns.{conns_of}
use walkie.Coordinator.Routing.{OfflineSink, Identity, device_of, has, route_targets}
use walkie.Coordinator.Dispatch.{Hub, QueueDrain}
use walkie.Coordinator.Session.{
  House, Conn, accepted, new_house, note_connection, accept, Event, refuses, drains, accepts,
  advances, receives, garbles, pumps, lapses, conn_step, step,
}
use walkie.Coordinator.Stages.{
  count-append, count-there, count-le, in_routes, in_presence, in_registry, runs, of, staged, found,
  found-append,
}
use walkie.Coordinator.Orderly.{IsOrderly, Keeps-IsOrderly}
use walkie.Coordinator.Keeping.{expire-Keeps}
use walkie.Coordinator.Turns.{
  advance_from-IsOrderly, receive_from-IsOrderly, garble_from-IsOrderly, pumped-IsOrderly,
}

-- Before the first connection: no routes, and an open tracker that counts no connection.
pub record IsFresh {S : Type 0} (h : Hub S) : Type 0 where
  pub no_routes : h.server.routes ≡ []
  pub opened : (t : Tracker) → h.tracker ≡ some t → t.closed ≡ false
  pub no_conns : (t : Tracker) → h.tracker ≡ some t → (d : String) → conns_of d t ≡ 0

module _ {S : Type 0} where
  new_house-IsOrderly : (h : Hub S) → IsFresh h → IsOrderly (new_house h)
  unfolding route_targets lookup
  new_house-IsOrderly h fresh = record {
    routes = λ d w. rw fresh.no_routes refl;
    opened = fresh.opened;
    counts = fresh.no_conns;
    listed = λ w. refl;
    counted = refl;
  }

  note-IsOrderly :
      (device : String) (s : House S) → IsOrderly s → IsOrderly (note_connection device s)
  unfolding note_connection
  note-IsOrderly device s kept =
      if-intro IsOrderly (any (λ known. str_eq known device) s.seen)
        (record s { reconnects = s.reconnects + 1 }) (record s { seen = device ∷ s.seen })
        (λ again. record {
          routes = kept.routes;
          opened = kept.opened;
          counts = kept.counts;
          listed = kept.listed;
          counted = kept.counted;
        })
        (λ first. record {
          routes = kept.routes;
          opened = kept.opened;
          counts = kept.counts;
          listed = kept.listed;
          counted = kept.counted;
        })

  joined-IsOrderly :
      (id : Identity) (s : House S)
      → IsOrderly s
      → IsOrderly (record s {
        conns = s.conns ++ record { identity = id; stage = accepted } ∷ [];
        running = s.running + 1;
      })
  joined-IsOrderly id s kept =
      let c : Conn = record { identity = id; stage = accepted } in
      record {
        routes = λ d w. kept.routes d w ∙ sym (found-append (of d in_routes) s.conns c w refl);
        opened = kept.opened;
        counts = λ t wired d.
            omega (arith, kept.counts t wired d, count-append (of d in_presence) s.conns c);
        listed = λ w. kept.listed w ∙ sym (found-append (staged in_registry) s.conns c w refl);
        counted = omega (arith, kept.counted, count-append (staged runs) s.conns c);
      }

abbrev of_event : Event → ℕ
of_event (advances i m) = i
of_event (receives i m env) = i
of_event (garbles i m) = i
of_event (pumps i m) = i
of_event _ = 0

module _ {S : Type 0} (sink : OfflineSink S) (drain : Option (QueueDrain S)) where
  conn_step-IsOrderly :
      (e : Event) (o : Option Conn) (s s' : House S)
      → IsOrderly s
      → get_elem? s.conns (of_event e) ≡ o
      → conn_step sink drain e o s ≡ some s'
      → IsOrderly s'
  conn_step-IsOrderly (advances i m) (some c) s s' kept here made =
      advance_from-IsOrderly s kept i c here m c.stage s' refl made
  conn_step-IsOrderly (receives i m env) (some c) s s' kept here made =
      receive_from-IsOrderly s kept i c here sink drain m env c.stage s' refl made
  conn_step-IsOrderly (garbles i m) (some c) s s' kept here made =
      garble_from-IsOrderly s kept i c here c.stage s' made
  conn_step-IsOrderly (pumps i m) (some c) s s' kept here made =
      pumped-IsOrderly s kept i c here _ s' refl made
  conn_step-IsOrderly e o s s' kept here made = absurd (ground (arith, made))

  step-IsOrderly :
      (e : Event) (s s' : House S) → IsOrderly s → step sink drain e s ≡ some s' → IsOrderly s'
  unfolding step accept
  step-IsOrderly refuses s s' kept made = subst IsOrderly (some_eq made) (record {
    routes = kept.routes;
    opened = kept.opened;
    counts = kept.counts;
    listed = kept.listed;
    counted = kept.counted;
  })
  step-IsOrderly drains s s' kept made = subst IsOrderly (some_eq made) (record {
    routes = kept.routes;
    opened = kept.opened;
    counts = kept.counts;
    listed = kept.listed;
    counted = kept.counted;
  })
  step-IsOrderly (accepts true id) s s' kept made =
      subst IsOrderly (some_eq made) (joined-IsOrderly id _ (note-IsOrderly (device_of id) s kept))
  step-IsOrderly (accepts false id) s s' kept made =
      subst IsOrderly (some_eq made) (note-IsOrderly (device_of id) s kept)
  step-IsOrderly (lapses device gen m) s s' kept made =
      subst IsOrderly (some_eq made)
        (Keeps-IsOrderly s kept _ (expire-Keeps s.hub device gen m.stored))
  step-IsOrderly (advances i m) s s' kept made =
      conn_step-IsOrderly (advances i m) (get_elem? s.conns i) s s' kept refl made
  step-IsOrderly (receives i m env) s s' kept made =
      conn_step-IsOrderly (receives i m env) (get_elem? s.conns i) s s' kept refl made
  step-IsOrderly (garbles i m) s s' kept made =
      conn_step-IsOrderly (garbles i m) (get_elem? s.conns i) s s' kept refl made
  step-IsOrderly (pumps i m) s s' kept made =
      conn_step-IsOrderly (pumps i m) (get_elem? s.conns i) s s' kept refl made

  -- A run of the server from before its first connection.
  pub data Reached : House S → Type 0 where
    start : (h : Hub S) (fresh : IsFresh h) → Reached (new_house h)
    next :
        {s s' : House S} (before : Reached s) (e : Event) (made : step sink drain e s ≡ some s')
        → Reached s'

  pub Reached-IsOrderly : (s : House S) → Reached s → IsOrderly s
  Reached-IsOrderly _ (start h fresh) = new_house-IsOrderly h fresh
  Reached-IsOrderly _ (next {s} {s'} before e made) =
      step-IsOrderly e s s' (Reached-IsOrderly s before) made

  located :
      (p : Conn → Bool) (o : Option Conn)
      → found p o ≡ true
      → (c : Conn) × (o ≡ some c) × (p c ≡ true)
  located p none e = absurd (ground (arith, e))
  located p (some c) e = (c, refl, e)

  -- However connections come, go, send frames and are drained, and leases lapse: where a connection
  -- has a route under a device, the tracker, if one is wired, counts a connection of that
  -- device, the registry that a shutdown closes lists the connection, and the WaitGroup is not zero.
  -- So once the tracker counts none of a device's connections, no message is routed to it.
  pub routed_is_counted :
      (s : House S) (d : String) (w : ℕ)
      → Reached s
      → has w (route_targets d s.hub.server) ≡ true
      → ((t : Tracker) → s.hub.tracker ≡ some t → 0 < conns_of d t)
        × (has w s.registry ≡ true)
        × (0 < s.running)
  routed_is_counted s d w reached routed =
      let kept = Reached-IsOrderly s reached in
      let (c, here, is) =
        located (of d in_routes) (get_elem? s.conns w) (sym (kept.routes d w) ∙ routed) in
      (
        λ t wired.
            ground
              (arith, is, kept.counts t wired d, count-there (of d in_presence) s.conns w c here),
        ground (arith, is, here, kept.listed w),
        ground (arith, is, kept.counted, count-there (staged runs) s.conns w c here),
      )

  -- Once the WaitGroup is zero, no device has a route, the tracker counts no connection of any
  -- device, and the registry is empty: a drain that completes has left nothing behind.
  pub drained_is_empty :
      (s : House S)
      → Reached s
      → s.running ≡ 0
      → ((d : String) (w : ℕ) → has w (route_targets d s.hub.server) ≡ false)
        × ((t : Tracker) → s.hub.tracker ≡ some t → (d : String) → conns_of d t ≡ 0)
        × ((w : ℕ) → has w s.registry ≡ false)
  drained_is_empty s reached done =
      let kept = Reached-IsOrderly s reached in
      let nobody : (c : Conn) (w : ℕ) → get_elem? s.conns w ≡ some c → runs c.stage ≡ false =
        λ c w here.
          ground (arith, done, kept.counted, count-there (staged runs) s.conns w c here) in
      (
        λ d w. elim (Bool-cases (has w (route_targets d s.hub.server))) [
          | inl routed ↦ absurd (omega (arith, done, (routed_is_counted s d w reached routed).2))
          | inr free ↦ free
        ],
        λ t wired d. omega (
          arith,
          done,
          kept.counted,
          kept.counts t wired d,
          count-le (of d in_presence) (staged runs) s.conns (λ c. ground arith),
        ),
        λ w. elim (Bool-cases (has w s.registry)) [
          | inl listed ↦
              let (c, here, is) =
                located (staged in_registry) (get_elem? s.conns w) (sym (kept.listed w) ∙ listed) in
              absurd (ground (arith, is, nobody c w here))
          | inr free ↦ free
        ],
      )
