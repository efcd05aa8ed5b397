-- ===== src/Coordinator/Orderly.antt =====
-- The handlers, the routes, the tracker's counts, the registry and the WaitGroup agree
-- (internal/coordinator/server.go).
use walkie.Prelude.{
  ℕ, ◌+◌, ◌≡◌, ◌∙◌, String, false, some, List, arith, ◌==◌, if◌then◌else◌, get_elem?, set,
}
use walkie.Presence.Tracker.{Tracker}
use walkie.Presence.Conns.{conns_of}
use walkie.Coordinator.Routing.{has, route_targets}
use walkie.Coordinator.Dispatch.{Hub}
use walkie.Coordinator.Session.{House, Conn, Stage}
use walkie.Coordinator.Stages.{
  bit, count, count-set, get-set, in_routes, in_presence, in_registry, runs, of, staged, found,
}

module _ {S : Type 0} where
  -- A route for each connection whose handler is between addRoute and removeRoute, and no other; the
  -- tracker open and counting the handlers between ConnectionEstablished and ConnectionLost; the
  -- registry those between track and release; the WaitGroup all that have not released.
  pub record IsOrderly (s : House S) : Type 0 where
    pub routes :
        (d : String) (w : ℕ)
        → has w (route_targets d s.hub.server) ≡ found (of d in_routes) (get_elem? s.conns w)
    pub opened : (t : Tracker) → s.hub.tracker ≡ some t → t.closed ≡ false
    pub counts :
        (t : Tracker)
        → s.hub.tracker ≡ some t
        → (d : String) → conns_of d t ≡ count (of d in_presence) s.conns
    pub listed : (w : ℕ) → has w s.registry ≡ found (staged in_registry) (get_elem? s.conns w)
    pub counted : s.running ≡ count (staged runs) s.conns

  -- A tracker that is open as that of a hub is, with the same counts.
  abbrev pub Traces : Hub S → Tracker → Type 0
  Traces h t' =
      (t : Tracker) × (h.tracker ≡ some t)
      × (t'.closed ≡ t.closed)
      × ((d : String) → conns_of d t' ≡ conns_of d t)

  -- What a hub keeps that changes no route, and no connection count of its tracker.
  pub record Keeps (h h' : Hub S) : Type 0 where
    pub routes : h'.server.routes ≡ h.server.routes
    pub tracker : (t' : Tracker) → h'.tracker ≡ some t' → Traces h t'

  module _ (s : House S) (kept : IsOrderly s) where
    pub Keeps-IsOrderly : (hub : Hub S) → Keeps s.hub hub → IsOrderly (record s { hub = hub })
    unfolding route_targets
    Keeps-IsOrderly hub k = record {
      routes = λ d w. rw k.routes (kept.routes d w);
      opened = λ t' e. let (t, was, closed, same) = k.tracker t' e in closed ∙ kept.opened t was;
      counts =
          λ t' e d. let (t, was, closed, same) = k.tracker t' e in same d ∙ kept.counts t was d;
      listed = kept.listed;
      counted = kept.counted;
    }

    -- A handler moves on to a stage, with what that changes.
    pub moved-IsOrderly :
        (i : ℕ) (c : Conn) (st : Stage) (hub : Hub S) (registry : List ℕ) (running : ℕ)
        → (let c' = record c { stage = st } in
            get_elem? s.conns i ≡ some c
            → ((d : String) (w : ℕ)
                → has w (route_targets d hub.server)
                  ≡ (if i == w then of d in_routes c' else has w (route_targets d s.hub.server)))
            → ((t' : Tracker)
                → hub.tracker ≡ some t'
                → (t'.closed ≡ false)
                  × ((d : String)
                      → conns_of d t' + bit (of d in_presence c)
                        ≡ count (of d in_presence) s.conns + bit (of d in_presence c')))
            → ((w : ℕ) → has w registry ≡ (if i == w then in_registry st else has w s.registry))
            → running + bit (runs c.stage) ≡ s.running + bit (runs st)
            → IsOrderly (record s {
              hub = hub;
              conns = set s.conns i c';
              registry = registry;
              running = running;
            }))
    moved-IsOrderly i c st hub registry running here routes tracker registry_ok running_ok =
        let c' = record c { stage = st } in
        record {
          routes =
              λ d w. ground (arith, routes d w, kept.routes d w, get-set s.conns i w c c' here);
          opened = λ t' e. (tracker t' e).0;
          counts = λ t' e d.
              omega (arith, (tracker t' e).1 d, count-set (of d in_presence) s.conns i c c' here);
          listed = λ w. ground (arith, registry_ok w, kept.listed w, get-set s.conns i w c c' here);
          counted =
              omega (arith, running_ok, kept.counted, count-set (staged runs) s.conns i c c' here);
        }
