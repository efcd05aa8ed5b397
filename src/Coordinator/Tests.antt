-- ===== src/Coordinator/Tests.antt =====
-- Runs of the message handlers on small servers.
use walkie.Prelude.{true, ◌≡◌, refl, none, some, List, [], ◌∷◌, ◌++◌, ◌⊎◌, lookup}
use walkie.Wire.{Envelope, just, DirectMessage, BroadcastMessage, direct_message}
use walkie.Message.Text.{validate_body, valid_string}
use native.Mathlib.Omega.{arith}
use walkie.Queue.Framing.{Codec}
use walkie.Queue.Ops.{Queue, opened, resume, ok}
use walkie.Queue.Sound.{IsSound}
use walkie.Queue.Enqueue.{no_faults}
use walkie.Coordinator.Offline.{plain_sink, direct_to_absent}
use walkie.Coordinator.Routing.{
  OfflineSink, Identity, Server, route_targets, handle_direct, device_of,
}
use walkie.Coordinator.Authentic.{IsRefused, IsRouted, IsHeld, IsDropped, handle_direct-cases}

-- A sink that keeps what it is given.
abbrev keeping : OfflineSink (List Envelope)
keeping = record { deliver = λ recipient env kept. (none, kept ++ env ∷ []) }

abbrev two_devices : Server (List Envelope)
two_devices = record {
  routes = ("ann", 1 ∷ 2 ∷ []) ∷ ("bob", 3 ∷ []) ∷ [];
  sent = [];
  presence = none;
  offline = some [];
  messages = 0;
  connected_devices = 2;
}

abbrev bob : Identity
bob = record { node_name = "bob"; login_name = "bob@example.com" }

abbrev to_ann : DirectMessage
to_ann = record { recipient = "ann"; body = 104 ∷ 105 ∷ []; sender = "carl" }

abbrev to_all : BroadcastMessage
to_all = record { body = 104 ∷ 105 ∷ []; sender = "carl" }

abbrev frame : Envelope
frame = record (just (direct_message to_ann)) { message_id = "m1"; position = 7 }

handle_direct-cases_example :
    (let s' = handle_direct keeping 9 3 bob frame to_ann two_devices in
      IsRefused keeping 9 3 bob frame to_ann two_devices s'
      ⊎ IsRouted keeping 9 3 bob frame to_ann two_devices s'
      ⊎ IsHeld keeping 9 3 bob frame to_ann two_devices s'
      ⊎ IsDropped keeping 9 3 bob frame to_ann two_devices s')
handle_direct-cases_example = handle_direct-cases keeping 9 3 bob frame to_ann two_devices

abbrev arrived : Envelope
arrived = record {
  message_id = "m1";
  sent_at = none;
  position = 0;
  received_at = some 9;
  payload = direct_message (record to_ann { sender = "bob" });
}

handle_direct-routed :
    (handle_direct keeping 9 3 bob frame to_ann two_devices).sent ≡ (1, arrived) ∷ (2, arrived) ∷ []
unfolding handle_direct route_targets lookup device_of validate_body valid_string
handle_direct-routed = refl

abbrev empty_queue : Queue
empty_queue = opened (record { inbox = []; cursors = [] }) 100 2

empty_queue-IsSound : IsSound 2 empty_queue.db
unfolding lookup
empty_queue-IsSound = record { spaced = λ r. omega arith; bounded = λ r. omega arith }

abbrev absent_ann : Server Queue
absent_ann = record {
  routes = ("bob", 3 ∷ []) ∷ [];
  sent = [];
  presence = some (λ device. true);
  offline = some empty_queue;
  messages = 0;
  connected_devices = 1;
}

abbrev arrived_codec : Codec
arrived_codec = record { marshal = λ e. some (7 ∷ []); unmarshal = λ b. some arrived }

direct_to_absent_example :
    (q' : Queue) × (handle_direct
        (plain_sink arrived_codec 9 3 bob frame to_ann absent_ann empty_queue (7 ∷ []) 0)
        9
        3
        bob
        frame
        to_ann
        absent_ann
      ≡ record absent_ann { offline = some q'; messages = 1 })
    × (resume arrived_codec no_faults q' "ann" 0
        ≡ ok (record { position = 1; envelope = record arrived { position = 1 } } ∷ []))
unfolding lookup route_targets validate_body valid_string device_of
direct_to_absent_example =
    direct_to_absent arrived_codec 9 3 bob frame to_ann absent_ann empty_queue (7 ∷ []) 0 refl refl
      refl refl refl empty_queue-IsSound refl (omega arith) refl refl refl (omega arith)
