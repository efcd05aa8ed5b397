-- ===== src/App/Replay.antt =====
-- A message that arrives twice at the assembled client (cmd/walkie/app.go).
use walkie.Prelude.{max, ◌≡◌, refl, ap, ◌∙◌, Bool, false, not, Option, some, arith}
use walkie.Wire.{Bytes, Envelope, Payload, presence_update, sealed_delivery}
use walkie.Queue.Framing.{Codec}
use walkie.Message.Text.{Message}
use walkie.Message.Dedup.{holds}
use walkie.Message.Window.{IsRing, window}
use walkie.Hub.Messages.{MessageHub, text_of, apply}
use walkie.Hub.Delivery.{replay_shown_once}
use walkie.App.Assembled.{
  App, Moment, hub_ref, hub_or_new, acknowledged, displayed, after_apply, applied, on_payload,
  on_envelope,
}
use walkie.App.Incoming.{
  link_after, link_after-acked, link_after-text_of, displayed-link, displayed-hub,
  acknowledged-link, acknowledged-hub,
}

on_payload-text_of :
    (codec : Codec) (m : Moment) (env : Envelope) (p : Payload) (msg : Message) (a : App)
    → text_of env p ≡ some msg
    → on_payload codec m env p a ≡ applied codec m env (hub_ref a)
on_payload-text_of codec m env (presence_update pu) msg a text = absurd (ground (arith, text))
on_payload-text_of codec m env _ msg a text = refl

module _ (codec : Codec) (m : Moment) (env : Envelope) (a : App) (h : MessageHub)
    (known : a.hub ≡ some h) where
  applied-known :
      (r : (Message × Bool) × MessageHub)
      → apply codec env h ≡ some r
      → applied codec m env (hub_ref a) ≡ after_apply m env a (some r)
  unfolding hub_ref
  applied-known r returns =
      ap (λ o. applied codec m env (hub_or_new o a)) known ∙ ap (after_apply m env a) returns

  on_envelope-text_of :
      (msg : Message) (r : (Message × Bool) × MessageHub)
      → text_of env env.payload ≡ some msg
      → apply codec env h ≡ some r
      → on_envelope codec m env a ≡ after_apply m env a (some r)
  unfolding on_envelope
  on_envelope-text_of msg r text returns =
      on_payload-text_of codec m env env.payload msg a text ∙ applied-known r returns

  on_envelope-sealed_delivery :
      (box : Bytes) (r : (Message × Bool) × MessageHub)
      → env.payload ≡ sealed_delivery box
      → apply codec env h ≡ some r
      → on_envelope codec m env a ≡ after_apply m env a (some r)
  unfolding on_envelope
  on_envelope-sealed_delivery box r sealed returns =
      ap (λ p. on_payload codec m env p a) sealed ∙ applied-known r returns

acknowledged-rest :
    (m : Moment) (env : Envelope) (p : Payload) (a : App)
    → ((acknowledged m env p a).filed ≡ a.filed)
      × ((acknowledged m env p a).hist ≡ a.hist)
      × ((acknowledged m env p a).inbound ≡ a.inbound)
acknowledged-rest m env (sealed_delivery box) a = (refl, refl, refl)
acknowledged-rest m env _ a = (refl, refl, refl)

-- A direct message or a broadcast may come once more as a sealed box, out of the queue, where the
-- client's key opens the box and what is in it decodes to a text under the same id. The app, which
-- knows its name and whose filter is sound, handles both envelopes; the second adds nothing to
-- the history, announces nothing to the interface or to the control socket, and is acknowledged
-- all the same: the acknowledged position is then at least the position that it carries.
pub sealed_copy_filed_once :
    (codec : Codec) (m m' : Moment) (env outer copy : Envelope) (opens : Bytes → Option Bytes)
    (box b : Bytes) (msg msg' : Message) (h : MessageHub) (a : App)
    → a.hub ≡ some h
    → IsRing h.log.dedup
    → h.identity ≡ some opens
    → text_of env env.payload ≡ some msg
    → outer.payload ≡ sealed_delivery box
    → opens box ≡ some b
    → codec.unmarshal b ≡ some copy
    → text_of copy copy.payload ≡ some msg'
    → msg'.id ≡ msg.id
    → (a' : App) × (a'' : App) × (on_envelope codec m env a ≡ some a')
      × (on_envelope codec m' outer a' ≡ some a'')
      × (a''.hist ≡ a'.hist)
      × (a''.filed ≡ a'.filed)
      × (a''.inbound ≡ a'.inbound)
      × (a''.link.acked ≡ max a.link.acked outer.position)
sealed_copy_filed_once codec m m' env outer copy opens box b msg msg' h a known ring wired text
      sealed opened decodes text' same =
    let (h', h'', first, second, unchanged) =
      replay_shown_once codec h env outer copy opens box b msg msg' ring wired text sealed opened
        decodes text' same in
    let new = not (holds (window h.log.dedup) msg.id) in
    let a1 : App = record a { hub = some h' } in
    let a2 = acknowledged m env env.payload a1 in
    let a' = displayed m msg new a2 in
    let known' : a'.hub ≡ some h' =
      displayed-hub m msg new a2 ∙ acknowledged-hub m env env.payload a1 in
    let b1 : App = record a' { hub = some h'' } in
    let a'' = acknowledged m' outer outer.payload b1 in
    let rest = acknowledged-rest m' outer outer.payload b1 in
    let link : a'.link ≡ a.link =
      displayed-link m msg new a2
      ∙ acknowledged-link m env env.payload a1
      ∙ link_after-text_of m env env.payload msg a.link text in
    (
      a',
      a'',
      on_envelope-text_of codec m env a h known msg ((msg, new), h') text first,
      on_envelope-sealed_delivery codec m' outer a' h' known' box ((msg', false), h'') sealed
          second,
      rest.1,
      rest.0,
      rest.2,
      ap (λ l. l.acked) (acknowledged-link m' outer outer.payload b1)
          ∙ ap (λ l. (link_after m' outer outer.payload l).acked) link
          ∙ ap (λ p. (link_after m' outer p a.link).acked) sealed
          ∙ link_after-acked m' outer (sealed_delivery box) a.link,
    )
