-- ===== src/Hub/Delivery.antt =====
-- What the two ends of a message show (internal/messagehub/hub.go and
-- internal/coordinator/routing.go).
use walkie.Prelude.{
  ℕ, ◌≡◌, refl, ap, ◌∙◌, String, true, false, not, Option, none, some, [], ◌∷◌, ◌++◌, arith, str_eq,
  eq_refl, inr,
}
use walkie.Wire.{Bytes, Envelope, Payload, DirectMessage, direct_message, sealed_delivery}
use walkie.Queue.Framing.{Codec}
use walkie.Message.Text.{
  Message, validate_body, conversation_key, conversation_key_for, is_broadcast,
}
use walkie.Message.Dedup.{holds}
use walkie.Message.Window.{IsRing, window}
use walkie.Message.Log.{conversation}
use walkie.Message.Scrollback.{Appends, append-Appends, last}
use walkie.Coordinator.Routing.{Identity, device_of, stamped_delivery}
use walkie.Hub.Messages.{
  MessageHub, send_direct, own_message, composed, text_of, apply_text, apply_payload, apply,
  apply_sealed, unsealed, decoded,
}

module _ (h : MessageHub) (ring : IsRing h.log.dedup) where
  -- The hub after the text of an envelope.
  abbrev after : Message → MessageHub
  after msg = record h { log = (append-Appends h.log msg ring).after }

  apply_text-text_of :
      (env : Envelope) (msg : Message)
      → text_of env env.payload ≡ some msg
      → apply_text env h ≡ some ((msg, not (holds (window h.log.dedup) msg.id)), after msg)
  unfolding apply_text
  apply_text-text_of env msg text = rw (text, (append-Appends h.log msg ring).returns) refl

  apply_payload-text_of :
      (codec : Codec) (env : Envelope) (p : Payload) (msg : Message)
      → text_of env p ≡ some msg
      → apply_payload codec env p h ≡ apply_text env h
  apply_payload-text_of codec env (sealed_delivery box) msg text = absurd (ground (arith, text))
  apply_payload-text_of codec env _ msg text = refl

  apply-text_of :
      (codec : Codec) (env : Envelope) (msg : Message)
      → text_of env env.payload ≡ some msg
      → apply codec env h ≡ some ((msg, not (holds (window h.log.dedup) msg.id)), after msg)
  unfolding apply
  apply-text_of codec env msg text =
      apply_payload-text_of codec env env.payload msg text ∙ apply_text-text_of env msg text

  apply_sealed-text_of :
      (codec : Codec) (outer env : Envelope) (opens : Bytes → Option Bytes) (box b : Bytes)
      (msg : Message)
      → h.identity ≡ some opens
      → outer.payload ≡ sealed_delivery box
      → opens box ≡ some b
      → codec.unmarshal b ≡ some env
      → text_of env env.payload ≡ some msg
      → apply codec outer h ≡ some ((msg, not (holds (window h.log.dedup) msg.id)), after msg)
  unfolding apply
  apply_sealed-text_of codec outer env opens box b msg wired sealed opened decodes text =
      ap (λ p. apply_payload codec outer p h) sealed
      ∙ ap (λ o. apply_sealed codec box o h) wired
      ∙ ap (λ o. unsealed codec o h) opened
      ∙ ap (λ o. decoded o h) decodes
      ∙ apply_text-text_of env msg text

-- A direct message or a broadcast that the hub has applied, on a sound filter, may come once more as
-- a sealed box, out of the queue: where the hub's key opens the box and what is in it decodes to a
-- text under the same id, it is not new, and no conversation changes.
pub replay_shown_once :
    (codec : Codec) (h : MessageHub) (env outer copy : Envelope) (opens : Bytes → Option Bytes)
    (box b : Bytes) (msg msg' : Message)
    → IsRing h.log.dedup
    → h.identity ≡ some opens
    → text_of env env.payload ≡ some msg
    → outer.payload ≡ sealed_delivery box
    → opens box ≡ some b
    → codec.unmarshal b ≡ some copy
    → text_of copy copy.payload ≡ some msg'
    → msg'.id ≡ msg.id
    → (h' : MessageHub) × (h'' : MessageHub) × (apply codec env h
        ≡ some ((msg, not (holds (window h.log.dedup) msg.id)), h'))
      × (apply codec outer h' ≡ some ((msg', false), h''))
      × ((key : String) → conversation h''.log key ≡ conversation h'.log key)
replay_shown_once codec h env outer copy opens box b msg msg' ring wired text sealed opened decodes
      text' same =
    let a : Appends h.log msg = append-Appends h.log msg ring in
    let h' : MessageHub = record h { log = a.after } in
    let a' : Appends a.after msg' = append-Appends a.after msg' a.ring in
    let known : holds (window a.after.dedup) msg'.id ≡ true =
      ap (λ id. holds (window a.after.dedup) id) same ∙ a.remembers in
    (
      h',
      record h' { log = a'.after },
      apply-text_of h ring codec env msg text,
      apply_sealed-text_of h' a.ring codec outer copy opens box b msg' wired sealed opened decodes
            text'
          ∙ rw known refl,
      λ key. ground (arith, a'.shows key, known),
    )

module _ (now later : ℕ) (id : String) (body : Bytes) (from : Identity) (a b : MessageHub)
    (sender : device_of from ≡ a.local) (a_local : a.log.local ≡ a.local)
    (b_local : b.log.local ≡ b.local) (named : str_eq b.local "" ≡ false)
    (apart : str_eq a.local b.local ≡ false) where
  -- The message as its sender files it.
  abbrev pub sent_message : Message
  sent_message = own_message now id a.local b.local body

  abbrev pub received_message : Message
  received_message = record sent_message { received_at = some later }

  sent_key : conversation_key_for a.log.local sent_message ≡ conversation_key b.local
  unfolding conversation_key_for is_broadcast
  sent_key = rw (named, a_local, eq_refl a.local) refl

  received_key : conversation_key_for b.log.local received_message ≡ conversation_key a.local
  unfolding conversation_key_for is_broadcast
  received_key = rw (named, b_local, apart) refl

  -- A valid direct message between two devices, from the hub of the one to the hub of the other: the
  -- sender files its own copy as the last of its conversation with the recipient, and what the
  -- recipient's hub shows of the envelope that the coordinator stamps and routes is, as the last
  -- of its conversation with the sender, the same message with the server's time added. Both
  -- filters are sound and neither knows the id.
  pub both_ends_show :
      (codec : Codec)
      → IsRing a.log.dedup
      → IsRing b.log.dedup
      → validate_body body ≡ none
      → holds (window a.log.dedup) id ≡ false
      → holds (window b.log.dedup) id ≡ false
      → (let dm : DirectMessage = record { recipient = b.local; body = body; sender = "" } in
          let sent = composed now id (direct_message dm) in
          let routed =
            stamped_delivery later sent (direct_message (record dm { sender = device_of from })) in
          (a' : MessageHub) × (b' : MessageHub) × (send_direct now id b.local body a
            ≡ some (inr sent, a'))
          × (apply codec routed b ≡ some ((received_message, true), b'))
          × (conversation a'.log (conversation_key b.local)
              ≡ last a.log.scrollback
                  (conversation a.log (conversation_key b.local) ++ sent_message ∷ []))
          × (conversation b'.log (conversation_key a.local)
              ≡ last b.log.scrollback
                  (conversation b.log (conversation_key a.local) ++ received_message ∷ [])))
  unfolding send_direct
  both_ends_show codec ring_a ring_b valid new_a new_b =
      let filed : Appends a.log sent_message = append-Appends a.log sent_message ring_a in
      let shows : Appends b.log received_message = append-Appends b.log received_message ring_b in
      let dm : DirectMessage = record { recipient = b.local; body = body; sender = "" } in
      let sent = composed now id (direct_message dm) in
      let routed =
        stamped_delivery later sent (direct_message (record dm { sender = device_of from })) in
      let text : text_of routed routed.payload ≡ some received_message =
        ap (λ x. some (record received_message { sender = x })) sender in
      (
        record a { log = filed.after },
        record b { log = shows.after },
        rw (named, valid, filed.returns) refl,
        apply-text_of b ring_b codec routed received_message text ∙ rw new_b refl,
        ground (
          arith,
          filed.shows (conversation_key b.local),
          new_a,
          sent_key,
          eq_refl (conversation_key b.local),
        ),
        ground (
          arith,
          shows.shows (conversation_key a.local),
          new_b,
          received_key,
          eq_refl (conversation_key a.local),
        ),
      )
