-- ===== src/Coordinator/Session.antt =====
-- The life of a connection at the coordinator, as turns of its handler
-- (internal/coordinator/server.go and internal/coordinator/presence.go).
use walkie.Prelude.{
  ℕ, ◌+◌, ◌-◌, String, Bool, true, false, not, Option, none, some, List, [], ◌∷◌, ◌++◌, ◌==◌,
  if◌then◌else◌, str_eq, any, map, filter, get_elem?, set,
}
use walkie.Wire.{Envelope, PresenceUpdate, online, offline, just, presence_update, undecodable}
use walkie.Presence.Tracker.{
  Tracker, Change, connection_established, connection_lost, expire, snapshot,
}
use walkie.Presence.Status.{subscribe, unsubscribe}
use walkie.Coordinator.Routing.{OfflineSink, Identity, Server, device_of, add_route, remove_route}
use walkie.Coordinator.Dispatch.{QueueDrain, Hub, Moment, watching, reply, refusal, dispatch}

-- How far a handler has come: ServeHTTP up to Accept, then track, then through serveConn, and back
-- out through its deferred calls.
pub data Stage : Type 0 where
  accepted tracked established subscribed greeted routed leaving : Stage
  unrouted lost unsubscribed released : Stage

pub record Conn : Type 0 where
  pub identity : Identity
  pub stage : Stage

-- The server with its handlers: a connection is its place in `conns`, `registry` the connections that
-- a shutdown would close, `running` the WaitGroup.
pub record House (S : Type 0) : Type 0 where
  pub hub : Hub S
  pub conns : List Conn
  pub registry : List ℕ
  pub running : ℕ
  pub draining : Bool
  pub seen : List String
  pub reconnects : ℕ
  pub auth_refusals : ℕ

abbrev pub new_house : {S : Type 0} → Hub S → House S
new_house hub = record {
  hub = hub;
  conns = [];
  registry = [];
  running = 0;
  draining = false;
  seen = [];
  reconnects = 0;
  auth_refusals = 0;
}

-- presenceUpdateFields; the zero time is `none`.
unfoldable pub presence_update_fields : Change → PresenceUpdate
presence_update_fields ch = record {
  device = ch.device;
  state = if ch.online then online else offline;
  status = ch.status;
  last_seen = if ch.online then none else ch.last_seen;
}

abbrev pub update_envelope : Change → Envelope
update_envelope ch = just (presence_update (presence_update_fields ch))

abbrev pub roster : Option Tracker → List Envelope
roster none = []
roster (some t) = map update_envelope (snapshot t)

-- The first change in the buffer of a subscription, with the buffers after it is taken.
unfoldable pub take_change : ℕ → List (ℕ × List Change) → Option (Change × List (ℕ × List Change))
take_change sub [] = none
take_change sub ((s, []) ∷ subs) =
    let rest = take_change sub subs in
    if s == sub then none else elim rest [ none ↦ none | some r ↦ some (r.0, (s, []) ∷ r.1) ]
take_change sub ((s, ch ∷ buffer) ∷ subs) =
    let rest = take_change sub subs in
    if s == sub
    then some (ch, (s, buffer) ∷ subs)
    else elim rest [ none ↦ none | some r ↦ some (r.0, (s, ch ∷ buffer) ∷ r.1) ]

module _ {S : Type 0} where
  abbrev pub routing : (Server S → Server S) → Hub S → Hub S
  routing f h = record h { server = f h.server }

  -- noteConnection
  unfoldable pub note_connection : String → House S → House S
  note_connection device s =
      if any (λ known. str_eq known device) s.seen
      then record s { reconnects = s.reconnects + 1 }
      else record s { seen = device ∷ s.seen }

  -- ServeHTTP of a resolved identity up to Accept, which upgrades the request or not; where it does
  -- not, the WaitGroup is counted up and down again.
  unfoldable pub accept : Bool → Identity → House S → House S
  unfolding note_connection device_of
  accept true id s =
      let s' = note_connection (device_of id) s in
      record s' {
        conns = s'.conns ++ record { identity = id; stage = accepted } ∷ [];
        running = s'.running + 1;
      }
  accept false id s = note_connection (device_of id) s

  abbrev pub at : ℕ → Conn → Stage → Hub S → House S → House S
  at i c stage hub s = record s { hub = hub; conns = set s.conns i (record c { stage = stage }) }

  -- track; a handler that comes too late releases its connection at once.
  unfoldable pub track : ℕ → Conn → House S → House S
  track i c s =
      if s.draining
      then record (at i c released s.hub s) { running = s.running - 1 }
      else record (at i c tracked s.hub s) { registry = i ∷ s.registry }

  -- release
  unfoldable pub release : ℕ → Conn → House S → House S
  release i c s = record (at i c released s.hub s) {
    registry = filter (λ j. not (j == i)) s.registry;
    running = s.running - 1;
  }

  -- The next step of a handler; in `routed` it is the end of its read loop.
  abbrev pub advance_from : Stage → Moment → ℕ → Conn → House S → Option (House S)
  advance_from accepted m i c s = some (track i c s)
  advance_from tracked m i c s = some (
      at i c established
        (watching (connection_established m.now m.stored (device_of c.identity)) s.hub) s)
  advance_from established m i c s = some (at i c subscribed (watching (subscribe i) s.hub) s)
  advance_from subscribed m i c s = some (at i c greeted (reply i (roster s.hub.tracker) s.hub) s)
  advance_from greeted m i c s =
      some (at i c routed (routing (add_route (device_of c.identity) i) s.hub) s)
  advance_from routed m i c s = some (at i c leaving s.hub s)
  advance_from leaving m i c s =
      some (at i c unrouted (routing (remove_route (device_of c.identity) i) s.hub) s)
  advance_from unrouted m i c s =
      some (at i c lost (watching (connection_lost m.now m.stored (device_of c.identity)) s.hub) s)
  advance_from lost m i c s = some (at i c unsubscribed (watching (unsubscribe i) s.hub) s)
  advance_from unsubscribed m i c s = some (release i c s)
  advance_from released m i c s = none

  abbrev pub received : ℕ → Conn → Bool × Hub S → House S → House S
  received i c (kept, hub) s = at i c (if kept then routed else leaving) hub s

  -- A frame that decodes, in the read loop.
  abbrev pub receive_from :
      Stage
      → OfflineSink S
      → Option (QueueDrain S)
      → Moment
      → ℕ
      → Conn
      → Envelope
      → House S
      → Option (House S)
  receive_from routed sink drain m i c env s =
      some (received i c (dispatch sink drain m i c.identity env s.hub) s)
  receive_from _ sink drain m i c env s = none

  abbrev pub forward :
      ℕ → String → Option (Change × List (ℕ × List Change)) → Tracker → Hub S → Option (Hub S)
  forward i self none t h = none
  forward i self (some (ch, subs)) t h =
      let taken = record h { tracker = some (record t { subs = subs }) } in
      some (if str_eq ch.device self then taken else reply i (update_envelope ch ∷ []) taken)

  -- One turn of pumpPresence: a change about the device itself is not forwarded. What a closed
  -- subscription still has in its buffer is not taken.
  abbrev pub pump_presence : ℕ → Conn → Option Tracker → Hub S → Option (Hub S)
  pump_presence i c none h = none
  pump_presence i c (some t) h = forward i (device_of c.identity) (take_change i t.subs) t h

  abbrev pub pumped : Option (Hub S) → House S → Option (House S)
  pumped none s = none
  pumped (some hub) s = some (record s { hub = hub })

  -- A frame that does not decode; the connection stays.
  abbrev pub garble_from : Stage → ℕ → House S → Option (House S)
  garble_from routed i s = some (record s { hub = reply i (refusal undecodable ∷ []) s.hub })
  garble_from _ i s = none

-- What happens next, `i` naming a connection.
pub data Event : Type 0 where
  refuses drains : Event
  accepts : (upgrades : Bool) → (id : Identity) → Event
  advances garbles pumps : (i : ℕ) → (m : Moment) → Event
  receives : (i : ℕ) → (m : Moment) → (env : Envelope) → Event
  lapses : (device : String) → (gen : ℕ) → (m : Moment) → Event

module _ {S : Type 0} (sink : OfflineSink S) (drain : Option (QueueDrain S)) where
  abbrev pub conn_step : Event → Option Conn → House S → Option (House S)
  conn_step (advances i m) (some c) s = advance_from c.stage m i c s
  conn_step (receives i m env) (some c) s = receive_from c.stage sink drain m i c env s
  conn_step (garbles i m) (some c) s = garble_from c.stage i s
  conn_step (pumps i m) (some c) s = pumped (pump_presence i c s.hub.tracker s.hub) s
  conn_step _ o s = none

  -- One step of the server; `none` where it cannot happen.
  unfoldable pub step : Event → House S → Option (House S)
  unfolding accept
  step refuses s = some (record s { auth_refusals = s.auth_refusals + 1 })
  step drains s = some (record s { draining = true })
  step (accepts upgrades id) s = some (accept upgrades id s)
  step (lapses device gen m) s =
      some (record s { hub = watching (expire m.stored device gen) s.hub })
  step (advances i m) s = conn_step (advances i m) (get_elem? s.conns i) s
  step (receives i m env) s = conn_step (receives i m env) (get_elem? s.conns i) s
  step (garbles i m) s = conn_step (garbles i m) (get_elem? s.conns i) s
  step (pumps i m) s = conn_step (pumps i m) (get_elem? s.conns i) s
