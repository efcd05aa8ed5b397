-- ===== src/Hub/Tests.antt =====
-- Runs of two message hubs.
use walkie.Prelude.{◌≡◌, refl, String, true, false, not, none, some, [], ◌∷◌, ◌++◌, arith, inr}
use walkie.Wire.{Envelope, DirectMessage, just, direct_message, sealed_delivery}
use walkie.Queue.Framing.{Codec}
use walkie.Message.Text.{Message, validate_body, valid_string, valid_from, conversation_key}
use walkie.Message.Dedup.{Dedup, holds}
use walkie.Message.Window.{IsRing, window}
use walkie.Message.Log.{conversation}
use walkie.Message.Scrollback.{last}
use walkie.Coordinator.Routing.{Identity, device_of, stamped_delivery}
use walkie.Hub.Messages.{MessageHub, send_direct, apply, composed}
use walkie.Hub.Delivery.{both_ends_show, replay_shown_once}

abbrev empty_ring : Dedup
empty_ring = record { capacity = 4096; seen = []; order = []; head = 0 }

empty_ring-IsRing : IsRing empty_ring
empty_ring-IsRing = record {
  positive = omega arith;
  short = omega arith;
  unwrapped = λ h. refl;
  inside = omega arith;
  single = tt;
  lockstep = λ id. refl;
}

abbrev hub_of : String → MessageHub
hub_of name = record {
  local = name;
  log = record { local = name; scrollback = 500; convs = []; dedup = empty_ring };
  identity = some (λ box. some (7 ∷ box));
}

abbrev ann : Identity
ann = record { node_name = "ann"; login_name = "" }

abbrev to_bob : DirectMessage
to_bob = record { recipient = "bob"; body = 104 ∷ 105 ∷ []; sender = "" }

abbrev routed : Envelope
routed =
    stamped_delivery 9 (composed 5 "m1" (direct_message to_bob))
      (direct_message (record to_bob { sender = "ann" }))

abbrev reads : Codec
reads = record { marshal = λ e. some (9 ∷ []); unmarshal = λ b. some routed }

abbrev files : Message
files = record {
  id = "m1";
  sender = "ann";
  recipient = "bob";
  body = 104 ∷ 105 ∷ [];
  sent_at = some 5;
  received_at = none;
}

abbrev arrives : Message
arrives = record files { received_at = some 9 }

both_ends_show_example :
    (a' : MessageHub) × (b' : MessageHub) × (send_direct 5 "m1" "bob"
        (104 ∷ 105 ∷ [])
        (hub_of "ann")
      ≡ some (inr (composed 5 "m1" (direct_message to_bob)), a'))
    × (apply reads routed (hub_of "bob") ≡ some ((arrives, true), b'))
    × (conversation a'.log (conversation_key "bob")
        ≡ last 500 (conversation (hub_of "ann").log (conversation_key "bob") ++ files ∷ []))
    × (conversation b'.log (conversation_key "ann")
        ≡ last 500 (conversation (hub_of "bob").log (conversation_key "ann") ++ arrives ∷ []))
unfolding device_of validate_body valid_string valid_from window
both_ends_show_example =
    both_ends_show 5 9 "m1" (104 ∷ 105 ∷ []) ann (hub_of "ann") (hub_of "bob") refl refl refl refl
      refl reads empty_ring-IsRing empty_ring-IsRing refl refl refl

abbrev sealed : Envelope
sealed = record (just (sealed_delivery (1 ∷ []))) { position = 3 }

replay_shown_once_example :
    (h' : MessageHub) × (h'' : MessageHub) × (apply reads routed (hub_of "bob")
      ≡ some ((arrives, not (holds (window empty_ring) "m1")), h'))
    × (apply reads sealed h' ≡ some ((arrives, false), h''))
    × ((key : String) → conversation h''.log key ≡ conversation h'.log key)
replay_shown_once_example =
    replay_shown_once reads (hub_of "bob") routed sealed routed (λ box. some (7 ∷ box)) (1 ∷ [])
      (7 ∷ 1 ∷ []) arrives arrives empty_ring-IsRing refl refl refl refl refl refl refl
