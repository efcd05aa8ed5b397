-- ===== src/Coordinator/Dispatch.antt =====
-- What the coordinator does with one frame of a connection (internal/coordinator/server.go and
-- internal/coordinator/keys.go).
use walkie.Prelude.{
  ℕ, String, Bool, true, false, not, Option, none, some, List, [], ◌∷◌, ◌++◌, ◌==◌, if◌then◌else◌,
  length, map,
}
use walkie.Wire.{
  Bytes, Envelope, Payload, just, Hello, heartbeat, hello, hello_ack, presence_status_change,
  direct_message, broadcast_message, queue_ack, public_key_announce, public_key_directory,
  protocol_error, malformed, Detail, status_rejected, bad_public_key, key_refused,
  max_protocol_version, protocol_version_supported, new_version_unsupported_error,
}
use walkie.Queue.Ops.{Delivery}
use walkie.Presence.Tracker.{Tracker, observe_heartbeat, known}
use walkie.Presence.Status.{StatusError, set_status}
use walkie.Keystore.Pins.{Keystore, AuthorizeError, key_changed, authorize, entries, pub_key_size}
use walkie.Coordinator.Routing.{
  OfflineSink, Identity, Server, device_of, write_all, route_targets_except, handle_direct,
  handle_broadcast,
}

-- The QueueDrain interface; `none` and `false` are errors.
pub record QueueDrain (S : Type 0) : Type 0 where
  pub resume : String → ℕ → S → Option (List Delivery)
  pub ack : String → ℕ → S → Bool × S

-- The server with the tracker and the keystore wired to it. What the routing reads of the tracker
-- is set anew at each frame.
pub record Hub (S : Type 0) : Type 0 where
  pub server : Server S
  pub tracker : Option Tracker
  pub keys : Option Keystore

-- What one frame meets: the clock, whether a row of the tracker and the file of the keystore can be
-- written, and the ConfirmFunc.
pub record Moment : Type 0 where
  pub now : ℕ
  pub stored : Bool
  pub saves : Bool
  pub confirm : Option (String → Bytes → Bytes → Bool)

-- directoryEnvelope
abbrev pub directory : Keystore → Envelope
directory ks = just (public_key_directory (entries ks))

abbrev pub directory_frames : Option Keystore → List Envelope
directory_frames none = []
directory_frames (some ks) = directory ks ∷ []

abbrev pub known_by : Option Tracker → Option (String → Bool)
known_by none = none
known_by (some t) = some (λ device. known device t)

abbrev pub greeting : ℕ → String → ℕ → Envelope
greeting now device pending = just (
    hello_ack (record {
      device = device;
      received_at = some now;
      pending_count = pending;
      protocol_version = max_protocol_version;
    }))

abbrev pub refusal : Detail → Envelope
refusal detail =
    just (protocol_error (record { code = malformed; detail = detail; protocol_version = 0 }))

abbrev pub or_no_deliveries : Option (List Delivery) → List Delivery
or_no_deliveries none = []
or_no_deliveries (some ds) = ds

-- The frames that answer a Hello: the greeting, the suffix it promises, the directory.
abbrev pub answer : ℕ → String → List Delivery → Option Keystore → List Envelope
answer now device ds keys =
    greeting now device (length ds) ∷ map (λ d. d.envelope) ds ++ directory_frames keys

abbrev pub on : {A : Type 0} → (A → A) → Option A → Option A
on f none = none
on f (some x) = some (f x)

module _ {S : Type 0} where
  abbrev pub route : (Server S → Server S) → Hub S → Hub S
  route change h = record h { server = change (record h.server { presence = known_by h.tracker }) }

  abbrev pub watching : (Tracker → Tracker) → Hub S → Hub S
  watching f h = record h { tracker = on f h.tracker }

  -- Frames written to one connection, in order.
  abbrev pub reply : ℕ → List Envelope → Hub S → Hub S
  reply out envs h = record h {
    server = record h.server { sent = h.server.sent ++ map (λ env. (out, env)) envs };
  }

  -- What the drain gives; with no sink that can be drained, or where it fails, nothing.
  abbrev pub resumed : Option (QueueDrain S) → String → ℕ → Option S → List Delivery
  resumed (some drain) device after (some q) = or_no_deliveries (drain.resume device after q)
  resumed _ device after _ = []

  -- handleHello
  unfoldable pub handle_hello :
      Option (QueueDrain S) → Moment → ℕ → Identity → Hello → Hub S → Bool × Hub S
  unfolding device_of protocol_version_supported new_version_unsupported_error
  handle_hello drain m out id hi h =
      if not (protocol_version_supported hi.protocol_version)
      then (
        false,
        reply out (just (protocol_error (new_version_unsupported_error hi.protocol_version)) ∷ [])
            h,
      )
      else let ds = resumed drain (device_of id) hi.last_acked_position h.server.offline in
        (true, reply out (answer m.now (device_of id) ds h.keys) h)

  abbrev pub acknowledge : Option (QueueDrain S) → String → ℕ → Option S → Option S
  acknowledge (some drain) device position (some q) = some (drain.ack device position q).1
  acknowledge _ device position offline = offline

  -- handleQueueAck
  unfoldable pub handle_queue_ack : Option (QueueDrain S) → Identity → ℕ → Hub S → Bool × Hub S
  unfolding device_of
  handle_queue_ack drain id position h = (
    true,
    record h {
      server = record h.server {
        offline = acknowledge drain (device_of id) position h.server.offline;
      };
    },
  )

  abbrev pub status_answer : ℕ → Option StatusError × Tracker → Hub S → Hub S
  status_answer out (none, t) h = record h { tracker = some t }
  status_answer out (some e, t) h =
      reply out (refusal status_rejected ∷ []) (record h { tracker = some t })

  abbrev pub relabel : Moment → ℕ → Identity → Bytes → Option Tracker → Hub S → Hub S
  relabel m out id status none h = h
  relabel m out id status (some t) h =
      status_answer out (set_status m.now m.stored (device_of id) status t) h

  -- handleStatusChange
  unfoldable pub handle_status_change : Moment → ℕ → Identity → Bytes → Hub S → Bool × Hub S
  unfolding device_of set_status
  handle_status_change m out id status h = (true, relabel m out id status h.tracker h)

  -- broadcastDirectory; routeTargetsAll leaves out the empty name.
  unfoldable pub broadcast_directory : Keystore → Hub S → Hub S
  unfolding route_targets_except
  broadcast_directory ks h = record h {
    server = write_all (route_targets_except "" h.server) (directory ks) h.server;
  }

  abbrev pub announced : ℕ → Option AuthorizeError × Keystore → Hub S → Hub S
  announced out (none, ks) h = broadcast_directory ks (record h { keys = some ks })
  announced out (some (key_changed pinned presented), ks) h =
      reply out (refusal (key_refused pinned presented) ∷ []) (record h { keys = some ks })
  announced out (some e, ks) h = record h { keys = some ks }

  abbrev pub announce : Moment → ℕ → Identity → Bytes → Option Keystore → Hub S → Hub S
  announce m out id key none h = h
  announce m out id key (some ks) h =
      if length key == pub_key_size
      then announced out (authorize m.now m.saves m.confirm (device_of id) key ks) h
      else reply out (refusal bad_public_key ∷ []) h

  -- handleKeyAnnounce
  unfoldable pub handle_key_announce : Moment → ℕ → Identity → Bytes → Hub S → Bool × Hub S
  unfolding device_of authorize broadcast_directory
  handle_key_announce m out id key h = (true, announce m out id key h.keys h)

  abbrev pub dispatch_payload :
      OfflineSink S
      → Option (QueueDrain S)
      → Moment
      → ℕ
      → Identity
      → Envelope
      → Payload
      → Hub S
      → Bool × Hub S
  dispatch_payload sink drain m out id env (hello hi) h = handle_hello drain m out id hi h
  dispatch_payload sink drain m out id env heartbeat h = (
    true,
    reply out (just heartbeat ∷ []) (watching (observe_heartbeat m.now m.stored (device_of id)) h),
  )
  dispatch_payload sink drain m out id env (presence_status_change status) h =
      handle_status_change m out id status h
  dispatch_payload sink drain m out id env (direct_message dm) h =
      (true, route (handle_direct sink m.now out id env dm) h)
  dispatch_payload sink drain m out id env (broadcast_message bm) h =
      (true, route (handle_broadcast m.now out id env bm) h)
  dispatch_payload sink drain m out id env (queue_ack position) h =
      handle_queue_ack drain id position h
  dispatch_payload sink drain m out id env (public_key_announce key) h =
      handle_key_announce m out id key h
  dispatch_payload sink drain m out id env _ h = (true, h)

  -- dispatch, with whether the connection is kept.
  unfoldable pub dispatch :
      OfflineSink S
      → Option (QueueDrain S)
      → Moment
      → ℕ
      → Identity
      → Envelope
      → Hub S
      → Bool × Hub S
  unfolding device_of observe_heartbeat handle_hello handle_queue_ack handle_status_change
      handle_key_announce handle_direct handle_broadcast
  dispatch sink drain m out id env h = dispatch_payload sink drain m out id env env.payload h
