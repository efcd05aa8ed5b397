-- ===== src/Coordinator/Keeping.antt =====
-- The turns that change no route and no count (internal/coordinator/server.go and
-- internal/coordinator/routing.go).
use walkie.Prelude.{
  ℕ, ◌≡◌, refl, sym, ap, ◌∙◌, String, Bool, true, false, not, Option, none, some, List, [], ◌∷◌,
  arith, ◌==◌, str_eq, length, subst, if-intro, some_eq, ltb,
}
use walkie.Wire.{
  just, protocol_error, new_version_unsupported_error, protocol_version_supported, Bytes, Envelope,
  Payload, Hello, DirectMessage, BroadcastMessage, direct_message, broadcast_message, heartbeat,
  hello, presence_status_change, public_key_announce, bad_public_key,
}
use walkie.Message.Text.{validate_body}
use walkie.Presence.Tracker.{Tracker, Change, observe_heartbeat, expire}
use walkie.Presence.Status.{subscribe, unsubscribe, StatusError, set_status}
use walkie.Presence.Conns.{
  conns_of, conns-expire, closed-expire, conns-observe_heartbeat, closed-observe_heartbeat,
  conns-set_status, closed-set_status,
}
use walkie.Keystore.Pins.{
  Keystore, AuthorizeError, key_changed, pub_key_size, authorize, not_persisted, no_peer,
}
use walkie.Coordinator.Routing.{
  OfflineSink, SinkError, capacity, other, Identity, device_of, Server, hold, held, unknown_to,
  is_error, route_targets, deliver_unroutable, handle_direct, handle_broadcast, reject_malformed,
}
use walkie.Coordinator.Dispatch.{
  Hub, resumed, answer, on, watching, Moment, QueueDrain, reply, refusal, announce, announced,
  relabel, status_answer, handle_hello, handle_queue_ack, handle_status_change, handle_key_announce,
  broadcast_directory, dispatch, dispatch_payload,
}
use walkie.Coordinator.Session.{Conn, forward, pump_presence, take_change, update_envelope}
use walkie.Coordinator.Orderly.{Keeps, Traces}

pub on-some :
    {A : Type 0} (f : A → A) (o : Option A) (x : A)
    → on f o ≡ some x
    → (y : A) × (o ≡ some y) × (x ≡ f y)
on-some f none x e = absurd (ground (arith, e))
on-some f (some y) x e = (y, refl, sym (some_eq e))

module _ {S : Type 0} (h : Hub S) where
  same_tracker : (o : Option Tracker) → o ≡ h.tracker → (t' : Tracker) → o ≡ some t' → Traces h t'
  same_tracker o same t' e = (t', sym same ∙ e, refl, λ d. refl)

  -- Neither the routes nor the tracker are touched.
  pub untouched-Keeps :
      (h' : Hub S) → h'.server.routes ≡ h.server.routes → h'.tracker ≡ h.tracker → Keeps h h'
  untouched-Keeps h' routes tracker = record {
    routes = routes;
    tracker = same_tracker h'.tracker tracker;
  }

  -- The tracker alone is, in a way that keeps its counts.
  pub watching-Keeps :
      (f : Tracker → Tracker)
      → ((t : Tracker) → (f t).closed ≡ t.closed)
      → ((t : Tracker) (d : String) → conns_of d (f t) ≡ conns_of d t)
      → Keeps h (watching f h)
  watching-Keeps f closed conns = record {
    routes = refl;
    tracker = λ t' e.
        let (t, was, made) = on-some f h.tracker t' e in
        (t, was, ap (λ x. x.closed) made ∙ closed t, λ d. ap (λ x. conns_of d x) made ∙ conns t d);
  }

  pub expire-Keeps :
      (device : String) (gen : ℕ) (stored : Bool) → Keeps h (watching (expire stored device gen) h)
  expire-Keeps device gen stored =
      watching-Keeps (expire stored device gen) (λ t. closed-expire 0 stored device device t gen)
        (λ t d. conns-expire 0 stored device d t gen)

  pub subscribe-Keeps : (i : ℕ) → Keeps h (watching (subscribe i) h)
  unfolding subscribe
  subscribe-Keeps i = watching-Keeps (subscribe i) (λ t. ground arith) (λ t d. ground arith)

  pub unsubscribe-Keeps : (i : ℕ) → Keeps h (watching (unsubscribe i) h)
  unfolding unsubscribe
  unsubscribe-Keeps i = watching-Keeps (unsubscribe i) (λ t. refl) (λ t d. refl)

  pub reply-Keeps : (out : ℕ) (envs : List Envelope) → Keeps h (reply out envs h)
  reply-Keeps out envs = untouched-Keeps (reply out envs h) refl refl

module _ {S : Type 0} (sink : OfflineSink S) (now out : ℕ) (id : Identity) (env : Envelope)
    (s : Server S) where
  held-routes :
      (recipient : String) (answer : Option SinkError × S)
      → (held out recipient answer s).routes ≡ s.routes
  held-routes recipient (none, offline) = refl
  held-routes recipient (some (capacity cap), offline) = refl
  held-routes recipient (some other, offline) = refl

  hold-routes :
      (recipient : String) (stamped : Envelope) (o : Option S)
      → (hold sink out recipient stamped o s).routes ≡ s.routes
  hold-routes recipient stamped none = refl
  hold-routes recipient stamped (some offline) =
      held-routes recipient (sink.deliver recipient stamped offline)

  handle_direct-routes :
      (dm : DirectMessage) → (handle_direct sink now out id env dm s).routes ≡ s.routes
  unfolding handle_direct reject_malformed deliver_unroutable
  handle_direct-routes dm =
      let P = λ (s' : Server S). s'.routes ≡ s.routes in
      if-intro P (str_eq dm.recipient "") _ _ (λ h. refl)
        (λ h.
          if-intro P (is_error (validate_body dm.body)) _ _ (λ h. refl)
            (λ h.
              if-intro P (ltb 0 (length (route_targets dm.recipient s))) _ _ (λ h. refl)
                (λ h.
                  if-intro P (unknown_to dm.recipient s.presence) _ _ (λ h. refl)
                    (λ h. hold-routes dm.recipient _ s.offline))))

  handle_broadcast-routes :
      (bm : BroadcastMessage) → (handle_broadcast now out id env bm s).routes ≡ s.routes
  unfolding handle_broadcast reject_malformed
  handle_broadcast-routes bm = ground arith

module _ {S : Type 0} (m : Moment) (out : ℕ) (id : Identity) (h : Hub S) where
  announced-Keeps : (r : Option AuthorizeError × Keystore) → Keeps h (announced out r h)
  unfolding broadcast_directory
  announced-Keeps (none, ks) = untouched-Keeps h _ refl refl
  announced-Keeps (some (key_changed pinned presented), ks) = untouched-Keeps h _ refl refl
  announced-Keeps (some no_peer, ks) = untouched-Keeps h _ refl refl
  announced-Keeps (some not_persisted, ks) = untouched-Keeps h _ refl refl

  announce-Keeps : (key : Bytes) (keys : Option Keystore) → Keeps h (announce m out id key keys h)
  announce-Keeps key none = untouched-Keeps h h refl refl
  announce-Keeps key (some ks) =
      let r = authorize m.now m.saves m.confirm (device_of id) key ks in
      if-intro (Keeps h) (length key == pub_key_size) (announced out r h)
        (reply out (refusal bad_public_key ∷ []) h) (λ sized. announced-Keeps r)
        (λ bad. reply-Keeps h out (refusal bad_public_key ∷ []))

  hello-Keeps :
      (drain : Option (QueueDrain S)) (hi : Hello) → Keeps h (handle_hello drain m out id hi h).1
  unfolding handle_hello
  hello-Keeps drain hi =
      let refused =
        just (protocol_error (new_version_unsupported_error hi.protocol_version)) ∷ [] in
      let ds = resumed drain (device_of id) hi.last_acked_position h.server.offline in
      let greeted = answer m.now (device_of id) ds h.keys in
      if-intro (λ (r : Bool × Hub S). Keeps h r.1)
        (not (protocol_version_supported hi.protocol_version)) (false, reply out refused h)
        (true, reply out greeted h) (λ bad. reply-Keeps h out refused)
        (λ good. reply-Keeps h out greeted)

  status_answer-Keeps :
      (t : Tracker) (r : Option StatusError × Tracker)
      → h.tracker ≡ some t
      → r.1.closed ≡ t.closed
      → ((d : String) → conns_of d r.1 ≡ conns_of d t)
      → Keeps h (status_answer out r h)
  status_answer-Keeps t (none, t') wired closed conns = record {
    routes = refl;
    tracker = λ x e. subst (Traces h) (some_eq e) (t, wired, closed, conns);
  }
  status_answer-Keeps t (some error, t') wired closed conns = record {
    routes = refl;
    tracker = λ x e. subst (Traces h) (some_eq e) (t, wired, closed, conns);
  }

  relabel-Keeps :
      (status : Bytes) (o : Option Tracker) → h.tracker ≡ o → Keeps h (relabel m out id status o h)
  relabel-Keeps status none wired = untouched-Keeps h h refl refl
  relabel-Keeps status (some t) wired =
      status_answer-Keeps t (set_status m.now m.stored (device_of id) status t) wired
        (closed-set_status m.now m.stored (device_of id) (device_of id) t status)
        (λ d. conns-set_status m.now m.stored (device_of id) d t status)

  heartbeat-Keeps :
      (envs : List Envelope)
      → Keeps h (reply out envs (watching (observe_heartbeat m.now m.stored (device_of id)) h))
  heartbeat-Keeps envs =
      let k =
        watching-Keeps h (observe_heartbeat m.now m.stored (device_of id))
          (λ t. closed-observe_heartbeat m.now m.stored (device_of id) (device_of id) t)
          (λ t d. conns-observe_heartbeat m.now m.stored (device_of id) d t) in
      record { routes = refl; tracker = k.tracker }

  dispatch_payload-Keeps :
      (sink : OfflineSink S) (drain : Option (QueueDrain S)) (env : Envelope) (payload : Payload)
      → Keeps h (dispatch_payload sink drain m out id env payload h).1
  unfolding handle_queue_ack handle_key_announce handle_status_change
  dispatch_payload-Keeps sink drain env heartbeat = heartbeat-Keeps (just heartbeat ∷ [])
  dispatch_payload-Keeps sink drain env (presence_status_change status) =
      relabel-Keeps status h.tracker refl
  dispatch_payload-Keeps sink drain env (hello hi) = hello-Keeps drain hi
  dispatch_payload-Keeps sink drain env (public_key_announce key) = announce-Keeps key h.keys
  dispatch_payload-Keeps sink drain env (direct_message dm) =
      untouched-Keeps h _ (handle_direct-routes sink m.now out id env _ dm) refl
  dispatch_payload-Keeps sink drain env (broadcast_message bm) =
      untouched-Keeps h _ (handle_broadcast-routes sink m.now out id env _ bm) refl
  dispatch_payload-Keeps sink drain env _ = untouched-Keeps h _ refl refl

  pub dispatch-Keeps :
      (sink : OfflineSink S) (drain : Option (QueueDrain S)) (env : Envelope)
      → Keeps h (dispatch sink drain m out id env h).1
  unfolding dispatch
  dispatch-Keeps sink drain env = dispatch_payload-Keeps sink drain env env.payload

module _ {S : Type 0} (i : ℕ) (self : String) (h h' : Hub S) where
  forward-Keeps :
      (t : Tracker) (r : Option (Change × List (ℕ × List Change)))
      → h.tracker ≡ some t
      → forward i self r t h ≡ some h'
      → Keeps h h'
  forward-Keeps t none wired e = absurd (ground (arith, e))
  forward-Keeps t (some (ch, subs)) wired e =
      let taken : Hub S = record h { tracker = some (record t { subs = subs }) } in
      let k : Keeps h taken = record {
        routes = refl;
        tracker = λ x at. subst (Traces h) (some_eq at) (t, wired, refl, λ d. refl);
      } in
      subst (Keeps h) (some_eq e) (
        if-intro (Keeps h) (str_eq ch.device self) taken (reply i (update_envelope ch ∷ []) taken)
          (λ own. k) (λ others. record { routes = refl; tracker = k.tracker }))

pub pump_presence-Keeps :
    {S : Type 0} (i : ℕ) (c : Conn) (h h' : Hub S) (o : Option Tracker)
    → h.tracker ≡ o
    → pump_presence i c o h ≡ some h'
    → Keeps h h'
pump_presence-Keeps i c h h' none wired e = absurd (ground (arith, e))
pump_presence-Keeps i c h h' (some t) wired e =
    forward-Keeps i (device_of c.identity) h h' t (take_change i t.subs) wired e
