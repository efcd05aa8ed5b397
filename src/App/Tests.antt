-- ===== src/App/Tests.antt =====
-- Runs of the assembled client.
use walkie.Prelude.{◌≡◌, refl, max, true, false, Option, none, some, [], ◌∷◌, arith}
use walkie.Wire.{Bytes, Envelope, just, direct_message, sealed_delivery, public_key_announce}
use walkie.Queue.Framing.{Codec}
use walkie.Message.Text.{Message, validate_body, valid_string, valid_from, conversation_key}
use walkie.Message.Dedup.{Dedup}
use walkie.Message.Window.{IsRing}
use walkie.Hub.Messages.{MessageHub, send_direct}
use walkie.Control.State.{online}
use walkie.History.Retention.{all_succeed}
use walkie.Client.Handshake.{client_hello}
use walkie.Client.Outbox.{has_id, enqueue}
use walkie.App.Acked.{acknowledge, send, restore_ack_position}
use walkie.App.Assembled.{
  App, Moment, UiError, on_envelope, send_from_ui, trim_prefix, hub_ref, notify, announce_key,
}
use walkie.App.Drains.{starting, returned, sending, watch_conn, drain_turn, run_drain}
use walkie.App.Incoming.{IsConnected, clear_text_unacked}
use walkie.App.Runs.{handle_all, highest, acked_is_highest}
use walkie.App.Replay.{sealed_copy_filed_once}
use walkie.App.Outgoing.{offline_send_goes_out}

abbrev empty_ring : Dedup
empty_ring = record { capacity = 4096; seen = []; order = []; head = 0 }

empty_ring-IsRing : IsRing empty_ring
empty_ring-IsRing = record {
  positive = omega arith;
  short = omega arith;
  unwrapped = λ h. refl;
  inside = omega arith;
  single = tt;
  lockstep = λ id. refl;
}

abbrev opens_all : Bytes → Option Bytes
opens_all box = some (7 ∷ box)

abbrev bobs_hub : MessageHub
bobs_hub = record {
  local = "bob";
  log = record { local = "bob"; scrollback = 500; convs = []; dedup = empty_ring };
  identity = some opens_all;
}

abbrev bobs_app : App
bobs_app = record {
  connected_as = "bob";
  link = record { acked = 2; sent = [] };
  view = record { entries = []; subs = [] };
  hub = some bobs_hub;
  hist = record { table = record { rows = []; next_seq = 1 }; ttl = 1000; max_rows = 9 };
  box = record { rows = []; next_seq = 1 };
  draining = false;
  opens = opens_all;
  filed = [];
  inbound = [];
}

abbrev to_bob : Envelope
to_bob = record {
  message_id = "m1";
  sent_at = some 5;
  position = 3;
  received_at = some 9;
  payload = direct_message (record { recipient = "bob"; body = 104 ∷ []; sender = "ann" });
}

abbrev arrives : Message
arrives = record {
  id = "m1";
  sender = "ann";
  recipient = "bob";
  body = 104 ∷ [];
  sent_at = some 5;
  received_at = some 9;
}

abbrev sealed : Envelope
sealed = record (just (sealed_delivery (1 ∷ []))) { position = 4 }

abbrev up : Moment
up = record { now = 20; id = "m2"; goes = λ env. true; outcomes = all_succeed; stored = true }

abbrev down : Moment
down = record up { goes = λ env. false }

abbrev reads : Codec
reads = record { marshal = λ e. some (9 ∷ []); unmarshal = λ b. some to_bob }

clear_text_unacked_example :
    (a' : App) × (on_envelope reads up to_bob bobs_app ≡ some a')
    × (a'.link ≡ bobs_app.link)
    × (client_hello "1" a'.link.acked ≡ client_hello "1" 2)
clear_text_unacked_example =
    clear_text_unacked reads up to_bob arrives "1" bobs_app (bobs_hub, refl, empty_ring-IsRing) refl

acked_is_highest_example :
    (a' : App) × (handle_all reads ((up, sealed) ∷ (down, to_bob) ∷ []) bobs_app ≡ some a')
    × IsConnected a'
    × (a'.link.acked ≡ highest 2 ((up, sealed) ∷ (down, to_bob) ∷ []))
acked_is_highest_example =
    acked_is_highest reads ((up, sealed) ∷ (down, to_bob) ∷ []) bobs_app
      (bobs_hub, refl, empty_ring-IsRing)

highest_of_two : highest 2 ((up, sealed) ∷ (down, to_bob) ∷ []) ≡ 4
unfolding highest
highest_of_two = refl

sealed_copy_filed_once_example :
    (a' : App) × (a'' : App) × (on_envelope reads up to_bob bobs_app ≡ some a')
    × (on_envelope reads down sealed a' ≡ some a'')
    × (a''.hist ≡ a'.hist)
    × (a''.filed ≡ a'.filed)
    × (a''.inbound ≡ a'.inbound)
    × (a''.link.acked ≡ max 2 4)
sealed_copy_filed_once_example =
    sealed_copy_filed_once reads up down to_bob sealed to_bob opens_all (1 ∷ []) (7 ∷ 1 ∷ [])
      arrives arrives bobs_hub bobs_app refl empty_ring-IsRing refl refl refl refl refl refl refl

abbrev greeting : Bytes
greeting = 104 ∷ 105 ∷ []

abbrev note : Envelope
note = record {
  message_id = "m2";
  sent_at = some 20;
  position = 0;
  received_at = none;
  payload = direct_message (record { recipient = "ann"; body = greeting; sender = "" });
}

abbrev reads_note : Codec
reads_note = record { marshal = λ e. some (9 ∷ []); unmarshal = λ b. some note }

offline_send_goes_out_example :
    (a' : App) × (send_from_ui reads_note down (conversation_key "ann") greeting bobs_app
      ≡ some (some UiError.held, a'))
    × (a'.link ≡ bobs_app.link)
    × ((watch_conn (5 ∷ []) up online a').0 ≡ starting ∷ [])
    × (a'' : App) × (run_drain reads_note true
          (λ env. true)
          (λ env. true)
          4
          starting
          (watch_conn (5 ∷ []) up online a').1
        ≡ (returned, a''))
    × (a''.link.sent ≡ just (public_key_announce (5 ∷ [])) ∷ note ∷ [])
    × (a''.box.rows ≡ [])
    × (a''.draining ≡ false)
unfolding validate_body valid_string valid_from
offline_send_goes_out_example =
    offline_send_goes_out down "ann" greeting bobs_hub empty_ring-IsRing refl refl reads_note
      (9 ∷ []) (5 ∷ []) [] up bobs_app refl tt refl refl refl refl refl refl refl refl

-- The app while a drain, which has read an empty outbox, is at the head of its loop.
abbrev drained_app : App
drained_app = record bobs_app { draining = true }

abbrev app_after : Option (Option UiError × App) → App
app_after none = bobs_app
app_after (some r) = r.1

-- What SendFromUI leaves of it, with the frame not going out, and the connection that comes back.
abbrev reconnected_app : App
reconnected_app =
    (watch_conn (5 ∷ []) up online
      (app_after (send_from_ui reads_note down (conversation_key "ann") greeting drained_app))).1

-- The drain that this online transition starts returns at once, and the earlier one ends without the
-- message, which is still held.
in_flight_drain_leaves :
    (run_drain reads_note true (λ env. true) (λ env. true) 1 starting reconnected_app
      ≡ (returned, reconnected_app))
    × (run_drain reads_note true (λ env. true) (λ env. true) 1 (sending []) reconnected_app
        ≡ (returned, record reconnected_app { draining = false }))
    × (has_id "m2" reconnected_app.box.rows ≡ true)
unfolding run_drain drain_turn watch_conn send_from_ui hub_ref conversation_key validate_body
    valid_string valid_from trim_prefix notify send enqueue announce_key send_direct
in_flight_drain_leaves = (refl, refl, refl)

-- The key is read as the name of a peer.
reads_peer : trim_prefix "dm:ann" "dm:" ≡ "ann"
unfolding trim_prefix
reads_peer = refl

-- Before the first handshake nothing is composed.
too_early :
    send_from_ui reads_note up
      (conversation_key "ann")
      greeting
      (record bobs_app { hub = none; connected_as = "" })
    ≡ some (some UiError.not_connected, record bobs_app { hub = none; connected_as = "" })
unfolding send_from_ui hub_ref
too_early = refl

-- A stale acknowledgement moves nothing, and a restored one is not sent.
stale_ack :
    acknowledge (λ env. true) 2 (restore_ack_position 6 bobs_app.link)
    ≡ record { acked = 6; sent = [] }
unfolding acknowledge send restore_ack_position
stale_ack = refl
