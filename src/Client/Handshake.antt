-- ===== src/Client/Handshake.antt =====
-- The client's side of the handshake, and how it meets the coordinator's (internal/control/client.go and
-- internal/coordinator/server.go).
use walkie.Prelude.{
  ℕ, ◌≡◌, refl, ◌∙◌, append-nil, String, true, Option, some, List, [], ◌∷◌, ◌++◌, if◌then◌else◌,
  map, length,
}
use walkie.Wire.{
  Envelope, Payload, Hello, HelloAck, hello_ack, protocol_error, presence_update,
  max_protocol_version, protocol_version_supported,
}
use walkie.Presence.Tracker.{Change}
use walkie.Keystore.Pins.{Keystore}
use walkie.Queue.Ops.{Delivery}
use walkie.Coordinator.Dispatch.{answer, directory_frames}
use walkie.Coordinator.Session.{update_envelope}

-- The Hello of a client that has acknowledged up to `acked`.
abbrev pub client_hello : String → ℕ → Hello
client_hello version acked = record {
  client_version = version;
  last_acked_position = acked;
  protocol_version = max_protocol_version;
}

-- What the handshake loop waits for.
pub data Heard : Type 0 where
  timed_out stopped broken : Heard
  frame : (env : Envelope) → Heard

-- How the loop ends, with the frames that the session still holds, or that it has not yet.
pub data Handshake : Type 0 where
  waiting failed : Handshake
  completed : (ack : HelloAck) → (rest : List Heard) → Handshake

abbrev pub on_frame :
    Envelope → Payload → List Heard → List Envelope × Handshake → List Envelope × Handshake
on_frame env (hello_ack ack) hs rest =
    ([], if protocol_version_supported ack.protocol_version then completed ack hs else failed)
on_frame env (protocol_error e) hs rest = ([], failed)
on_frame env (presence_update pu) hs rest = (env ∷ rest.0, rest.1)
on_frame env _ hs rest = rest

-- The loop of handshake: the frames forwarded to the handler, and how it ends.
unfoldable pub handshake : List Heard → List Envelope × Handshake
unfolding protocol_version_supported
handshake [] = ([], waiting)
handshake (timed_out ∷ hs) = ([], failed)
handshake (stopped ∷ hs) = ([], failed)
handshake (broken ∷ hs) = ([], failed)
handshake (frame env ∷ hs) = on_frame env env.payload hs (handshake hs)

abbrev pub frames : List Envelope → List Heard
frames envs = map frame envs

roster_forwarded :
    (chs : List Change) (hs : List Heard)
    → handshake (map frame (map update_envelope chs) ++ hs)
      ≡ (map update_envelope chs ++ (handshake hs).0, (handshake hs).1)
unfolding handshake
roster_forwarded [] hs = refl
roster_forwarded (ch ∷ chs) hs = rw (roster_forwarded chs hs) refl

-- The two ends of a handshake meet: a client's Hello is of a version the coordinator supports; and on the
-- roster that the coordinator writes first and its answer to the Hello, the client's handshake
-- completes with the name the coordinator authenticated and the number of messages that follow,
-- forwards exactly the roster, and leaves those messages and the directory in the session, unread.
pub handshake_meets_answer :
    (version : String) (acked now : ℕ) (device : String) (roster : List Change) (ds : List Delivery)
    (keys : Option Keystore)
    → (protocol_version_supported (client_hello version acked).protocol_version ≡ true)
      × (ack : HelloAck) × (handshake
            (frames (map update_envelope roster) ++ frames (answer now device ds keys))
          ≡ (
            map update_envelope roster,
            completed ack (frames (map (λ d. d.envelope) ds ++ directory_frames keys)),
          ))
      × (ack.device ≡ device)
      × (ack.pending_count ≡ length ds)
unfolding handshake protocol_version_supported
handshake_meets_answer version acked now device roster ds keys = (
  refl,
  record {
    device = device;
    received_at = some now;
    pending_count = length ds;
    protocol_version = max_protocol_version;
  },
  roster_forwarded roster (frames (answer now device ds keys))
      ∙ rw (append-nil (map update_envelope roster)) refl,
  refl,
  refl,
)
