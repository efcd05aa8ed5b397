-- ===== src/Client/ViewTests.antt =====
-- Runs of the client's view, of its handshake and of its outbox.
use walkie.Prelude.{
  Bool, Option, str_eq, ◌==◌, if◌then◌else◌, ◌≡◌, refl, true, false, none, some, [], ◌∷◌, ◌++◌, map,
  lookup, insert,
}
use walkie.Wire.{
  Envelope, Bytes, just, heartbeat, HelloAck, PresenceUpdate, online, protocol_version_supported,
}
use walkie.Presence.Tracker.{Change}
use walkie.Coordinator.Dispatch.{answer}
use walkie.Coordinator.Session.{update_envelope}
use walkie.Client.View.{View, new_view, subscribe, apply, notify}
use walkie.Queue.Framing.{Codec}
use walkie.Client.Outbox.{Outbox, decoded, pending, remove, drain_all, drain_outbox}
use walkie.Client.Drain.{Drained, drain_outbox-Drained}
use walkie.Client.Handshake.{client_hello, handshake, frames, completed, handshake_meets_answer}

abbrev ann_online : PresenceUpdate
ann_online = record { device = "ann"; state = online; status = 104 ∷ []; last_seen = none }

abbrev watched_view : View
watched_view = subscribe 1 new_view

-- The subscriber hears of the update once.
heard_once :
    (apply ann_online (apply ann_online watched_view)).subs
    ≡ (
      1,
      record { device = "ann"; entry = record { online = true; last_seen = 0; status = 104 ∷ [] } }
          ∷ [],
    )
      ∷ []
unfolding apply lookup insert notify
heard_once = refl

abbrev bob_offline : Change
bob_offline = record { device = "bob"; online = false; last_seen = some 4; status = [] }

handshake_meets_answer_example :
    (protocol_version_supported (client_hello "1" 3).protocol_version ≡ true)
    × (ack : HelloAck) × (handshake
          (frames (map update_envelope (bob_offline ∷ [])) ++ frames (answer 7 "ann" [] none))
        ≡ (map update_envelope (bob_offline ∷ []), completed ack (frames ([] ++ []))))
    × (ack.device ≡ "ann")
    × (ack.pending_count ≡ 0)
handshake_meets_answer_example = handshake_meets_answer "1" 3 7 "ann" (bob_offline ∷ []) [] none

abbrev first_held : Envelope
first_held = record (just heartbeat) { message_id = "m1" }

abbrev second_held : Envelope
second_held = record (just heartbeat) { message_id = "m2" }

abbrev by_first_byte : Bytes → Option Envelope
by_first_byte [] = none
by_first_byte (b ∷ bytes) = if b == 1 then some first_held else some second_held

abbrev two_kinds : Codec
two_kinds = record { marshal = λ e. some (1 ∷ []); unmarshal = by_first_byte }

abbrev two_held : Outbox
two_held = record {
  rows =
      record { seq = 1; message_id = "m1"; envelope = 1 ∷ [] }
      ∷ record { seq = 2; message_id = "m2"; envelope = 2 ∷ [] }
      ∷ [];
  next_seq = 3;
}

-- The second send fails.
abbrev only_first : Envelope → Bool
only_first env = str_eq env.message_id "m1"

drain_outbox-Drained_example :
    Drained two_kinds true only_first
      (λ env. true)
      (first_held ∷ second_held ∷ [])
      (drain_outbox two_kinds true only_first (λ env. true) two_held)
drain_outbox-Drained_example =
    drain_outbox-Drained two_kinds only_first (λ env. true) true (first_held ∷ second_held ∷ [])
      two_held (refl, refl, refl, (refl, refl, refl, tt))

drained_first : (drain_outbox two_kinds true only_first (λ env. true) two_held).0 ≡ first_held ∷ []
unfolding drain_outbox pending decoded drain_all remove
drained_first = refl
