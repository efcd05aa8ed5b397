-- ===== src/Coordinator/Turns.antt =====
-- The turns of a handler keep the server in order (internal/coordinator/server.go).
use walkie.Prelude.{
  ℕ, ◌≡◌, refl, Bool, true, false, Option, none, some, [], ◌∷◌, arith, get_elem?, subst, some_eq,
}
use walkie.Wire.{Envelope, undecodable}
use walkie.Coordinator.Routing.{OfflineSink}
use walkie.Coordinator.Dispatch.{Hub, QueueDrain, Moment, reply, refusal, dispatch}
use walkie.Coordinator.Session.{
  House, Conn, Stage, accepted, tracked, established, subscribed, greeted, routed, leaving,
  unrouted, lost, unsubscribed, released, roster, advance_from, received, receive_from, garble_from,
  pumped, pump_presence,
}
use walkie.Coordinator.Orderly.{IsOrderly, Keeps, Keeps-IsOrderly}
use walkie.Coordinator.Keeping.{
  reply-Keeps, subscribe-Keeps, unsubscribe-Keeps, dispatch-Keeps, pump_presence-Keeps,
}
use walkie.Coordinator.Steps.{
  track-IsOrderly, establish-IsOrderly, still-IsOrderly, route-IsOrderly, unroute-IsOrderly,
  lose-IsOrderly, release-IsOrderly, unchanged,
}

module _ {S : Type 0} (s : House S) (kept : IsOrderly s) (i : ℕ) (c : Conn)
    (here : get_elem? s.conns i ≡ some c) where
  pub advance_from-IsOrderly :
      (m : Moment) (st : Stage) (s' : House S)
      → c.stage ≡ st
      → advance_from st m i c s ≡ some s'
      → IsOrderly s'
  advance_from-IsOrderly m accepted s' at_stage e =
      subst IsOrderly (some_eq e) (track-IsOrderly s kept i c here at_stage)
  advance_from-IsOrderly m tracked s' at_stage e =
      subst IsOrderly (some_eq e) (establish-IsOrderly s kept i c here m at_stage)
  advance_from-IsOrderly m established s' at_stage e = subst IsOrderly (some_eq e) (
      still-IsOrderly s kept i c here subscribed _ (subscribe-Keeps s.hub i) (rw at_stage refl)
        (rw at_stage refl) (rw at_stage refl) (rw at_stage refl))
  advance_from-IsOrderly m subscribed s' at_stage e = subst IsOrderly (some_eq e) (
      still-IsOrderly s kept i c here greeted (reply i (roster s.hub.tracker) s.hub)
        (reply-Keeps s.hub i (roster s.hub.tracker)) (rw at_stage refl) (rw at_stage refl)
        (rw at_stage refl) (rw at_stage refl))
  advance_from-IsOrderly m greeted s' at_stage e =
      subst IsOrderly (some_eq e) (route-IsOrderly s kept i c here at_stage)
  advance_from-IsOrderly m routed s' at_stage e = subst IsOrderly (some_eq e) (
      still-IsOrderly s kept i c here leaving s.hub (unchanged s kept i c here) (rw at_stage refl)
        (rw at_stage refl) (rw at_stage refl) (rw at_stage refl))
  advance_from-IsOrderly m leaving s' at_stage e =
      subst IsOrderly (some_eq e) (unroute-IsOrderly s kept i c here at_stage)
  advance_from-IsOrderly m unrouted s' at_stage e =
      subst IsOrderly (some_eq e) (lose-IsOrderly s kept i c here m at_stage)
  advance_from-IsOrderly m lost s' at_stage e = subst IsOrderly (some_eq e) (
      still-IsOrderly s kept i c here unsubscribed _ (unsubscribe-Keeps s.hub i) (rw at_stage refl)
        (rw at_stage refl) (rw at_stage refl) (rw at_stage refl))
  advance_from-IsOrderly m unsubscribed s' at_stage e =
      subst IsOrderly (some_eq e) (release-IsOrderly s kept i c here at_stage)
  advance_from-IsOrderly m released s' at_stage e = absurd (ground (arith, e))

  received-IsOrderly :
      (r : Bool × Hub S) → Keeps s.hub r.1 → c.stage ≡ routed → IsOrderly (received i c r s)
  received-IsOrderly (true, hub) k e =
      still-IsOrderly s kept i c here routed hub k (rw e refl) (rw e refl) (rw e refl) (rw e refl)
  received-IsOrderly (false, hub) k e =
      still-IsOrderly s kept i c here leaving hub k (rw e refl) (rw e refl) (rw e refl) (rw e refl)

  pub receive_from-IsOrderly :
      (sink : OfflineSink S) (drain : Option (QueueDrain S)) (m : Moment) (env : Envelope)
      (st : Stage) (s' : House S)
      → c.stage ≡ st
      → receive_from st sink drain m i c env s ≡ some s'
      → IsOrderly s'
  receive_from-IsOrderly sink drain m env routed s' at_stage e =
      let r = dispatch sink drain m i c.identity env s.hub in
      subst IsOrderly (some_eq e)
        (received-IsOrderly r (dispatch-Keeps m i c.identity s.hub sink drain env) at_stage)
  receive_from-IsOrderly sink drain m env st s' at_stage e = absurd (ground (arith, e))

  pub garble_from-IsOrderly :
      (st : Stage) (s' : House S) → garble_from st i s ≡ some s' → IsOrderly s'
  garble_from-IsOrderly routed s' e =
      let envs = refusal undecodable ∷ [] in
      subst IsOrderly (some_eq e)
        (Keeps-IsOrderly s kept (reply i envs s.hub) (reply-Keeps s.hub i envs))
  garble_from-IsOrderly st s' e = absurd (ground (arith, e))

  pub pumped-IsOrderly :
      (o : Option (Hub S)) (s' : House S)
      → pump_presence i c s.hub.tracker s.hub ≡ o
      → pumped o s ≡ some s'
      → IsOrderly s'
  pumped-IsOrderly none s' from e = absurd (ground (arith, e))
  pumped-IsOrderly (some hub) s' from e =
      subst IsOrderly (some_eq e)
        (Keeps-IsOrderly s kept hub (pump_presence-Keeps i c s.hub hub s.hub.tracker refl from))
