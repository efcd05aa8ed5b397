-- ===== src/App/Incoming.antt =====
-- What the assembled client does with what arrives (cmd/walkie/app.go).
use walkie.Prelude.{
  ℕ, max, ◌≡◌, refl, sym, ap, ◌∙◌, subst, String, Bool, true, false, Option, none, some, arith, not,
}
use walkie.Wire.{Bytes, Envelope, Payload, presence_update, sealed_delivery}
use walkie.Queue.Framing.{Codec}
use walkie.Message.Text.{Message}
use walkie.Message.Dedup.{holds}
use walkie.Message.Window.{IsRing, window}
use walkie.Message.Scrollback.{Appends, append-Appends}
use walkie.Hub.Messages.{
  MessageHub, text_of, appended, apply_text, decoded, unsealed, apply_sealed, apply_payload, apply,
}
use walkie.Client.Handshake.{client_hello}
use walkie.App.Acked.{Link, send, acknowledge}
use walkie.App.Assembled.{
  App, Moment, notify, hub_ref, acknowledged, displayed, after_apply, applied, hub_or_new,
  on_payload, on_envelope,
}

-- Apply returns, and its filter stays sound.
abbrev pub Returns : Option ((Message × Bool) × MessageHub) → Type 0
Returns o = (r : (Message × Bool) × MessageHub) × (o ≡ some r) × IsRing r.1.log.dedup

module _ (h : MessageHub) (ring : IsRing h.log.dedup) where
  appended-Returns : (o : Option Message) → Returns (appended o h)
  appended-Returns none = (_, refl, ring)
  appended-Returns (some msg) =
      let a : Appends h.log msg = append-Appends h.log msg ring in
      (
        ((msg, not (holds (window h.log.dedup) msg.id)), record h { log = a.after }),
        rw a.returns refl,
        a.ring,
      )

  apply_text-Returns : (env : Envelope) → Returns (apply_text env h)
  unfolding apply_text
  apply_text-Returns env = appended-Returns (text_of env env.payload)

  decoded-Returns : (o : Option Envelope) → Returns (decoded o h)
  decoded-Returns none = (_, refl, ring)
  decoded-Returns (some env) = apply_text-Returns env

  unsealed-Returns : (codec : Codec) (o : Option Bytes) → Returns (unsealed codec o h)
  unsealed-Returns codec none = (_, refl, ring)
  unsealed-Returns codec (some b) = decoded-Returns (codec.unmarshal b)

  apply_sealed-Returns :
      (codec : Codec) (box : Bytes) (o : Option (Bytes → Option Bytes))
      → Returns (apply_sealed codec box o h)
  apply_sealed-Returns codec box none = (_, refl, ring)
  apply_sealed-Returns codec box (some opens) = unsealed-Returns codec (opens box)

  apply_payload-Returns :
      (codec : Codec) (env : Envelope) (p : Payload) → Returns (apply_payload codec env p h)
  apply_payload-Returns codec env (sealed_delivery box) = apply_sealed-Returns codec box h.identity
  apply_payload-Returns codec env _ = apply_text-Returns env

  apply-Returns : (codec : Codec) (env : Envelope) → Returns (apply codec env h)
  unfolding apply
  apply-Returns codec env = apply_payload-Returns codec env env.payload

-- The client knows its name, and its hub's filter is sound.
abbrev pub IsConnected : App → Type 0
IsConnected a = (h : MessageHub) × (a.hub ≡ some h) × IsRing h.log.dedup

-- The position that a sealed delivery carries.
abbrev pub sealed_position : Envelope → Payload → ℕ
sealed_position env (sealed_delivery box) = env.position
sealed_position env _ = 0

-- The link after an envelope: only a sealed delivery is acknowledged.
abbrev pub link_after : Moment → Envelope → Payload → Link → Link
link_after m env (sealed_delivery box) l = acknowledge m.goes env.position l
link_after m env _ l = l

acknowledge-acked :
    (goes : Envelope → Bool) (position : ℕ) (l : Link)
    → (acknowledge goes position l).acked ≡ max l.acked position
unfolding acknowledge send
acknowledge-acked goes position l = ground arith

pub link_after-acked :
    (m : Moment) (env : Envelope) (p : Payload) (l : Link)
    → (link_after m env p l).acked ≡ max l.acked (sealed_position env p)
link_after-acked m env (sealed_delivery box) l = acknowledge-acked m.goes env.position l
link_after-acked m env _ l = omega arith

pub acknowledged-link :
    (m : Moment) (env : Envelope) (p : Payload) (a : App)
    → (acknowledged m env p a).link ≡ link_after m env p a.link
acknowledged-link m env (sealed_delivery box) a = refl
acknowledged-link m env _ a = refl

pub link_after-text_of :
    (m : Moment) (env : Envelope) (p : Payload) (msg : Message) (l : Link)
    → text_of env p ≡ some msg
    → link_after m env p l ≡ l
link_after-text_of m env (sealed_delivery box) msg l text = absurd (ground (arith, text))
link_after-text_of m env _ msg l text = refl

pub acknowledged-hub :
    (m : Moment) (env : Envelope) (p : Payload) (a : App) → (acknowledged m env p a).hub ≡ a.hub
acknowledged-hub m env (sealed_delivery box) a = refl
acknowledged-hub m env _ a = refl

pub displayed-link :
    (m : Moment) (msg : Message) (shown : Bool) (a : App) → (displayed m msg shown a).link ≡ a.link
unfolding notify
displayed-link m msg false a = refl
displayed-link m msg true a = refl

pub displayed-hub :
    (m : Moment) (msg : Message) (shown : Bool) (a : App) → (displayed m msg shown a).hub ≡ a.hub
unfolding notify
displayed-hub m msg false a = refl
displayed-hub m msg true a = refl

-- OnEnvelope returns, and leaves this link.
abbrev pub Handled : Link → Option App → Type 0
Handled l o = (a : App) × (o ≡ some a) × IsConnected a × (a.link ≡ l)

after_apply-Handled :
    (m : Moment) (env : Envelope) (a : App) (o : Option ((Message × Bool) × MessageHub))
    → Returns o
    → Handled (link_after m env env.payload a.link) (after_apply m env a o)
after_apply-Handled m env a o (((msg, shown), h), returns, ring) =
    let a1 : App = record a { hub = some h } in
    let a2 = acknowledged m env env.payload a1 in
    (
      displayed m msg shown a2,
      ap (after_apply m env a) returns,
      (h, displayed-hub m msg shown a2 ∙ acknowledged-hub m env env.payload a1, ring),
      displayed-link m msg shown a2 ∙ acknowledged-link m env env.payload a1,
    )

applied-Handled :
    (codec : Codec) (m : Moment) (env : Envelope) (a : App)
    → IsConnected a
    → Handled (link_after m env env.payload a.link) (applied codec m env (hub_ref a))
unfolding hub_ref
applied-Handled codec m env a (h, known, ring) =
    subst (λ o. Handled (link_after m env env.payload a.link) (applied codec m env o))
      (sym (ap (λ o. hub_or_new o a) known))
      (after_apply-Handled m env a (apply codec env h) (apply-Returns h ring codec env))

on_payload-Handled :
    (codec : Codec) (m : Moment) (env : Envelope) (p : Payload) (a : App)
    → env.payload ≡ p
    → IsConnected a
    → Handled (link_after m env p a.link) (on_payload codec m env p a)
on_payload-Handled codec m env (presence_update pu) a is c = (_, refl, c, refl)
on_payload-Handled codec m env p a is c =
    subst (λ q. Handled (link_after m env q a.link) (applied codec m env (hub_ref a))) is
      (applied-Handled codec m env a c)

pub on_envelope-Handled :
    (codec : Codec) (m : Moment) (env : Envelope) (a : App)
    → IsConnected a
    → Handled (link_after m env env.payload a.link) (on_envelope codec m env a)
unfolding on_envelope
on_envelope-Handled codec m env a c = on_payload-Handled codec m env env.payload a refl c

-- A text in the clear moves no acknowledgement, whatever queue position it carries: the app handles
-- it, and neither the acknowledged position nor the frames sent change, so its next Hello resumes
-- from where the last one did. The app knows its name and its filter is sound.
pub clear_text_unacked :
    (codec : Codec) (m : Moment) (env : Envelope) (msg : Message) (version : String) (a : App)
    → IsConnected a
    → text_of env env.payload ≡ some msg
    → (a' : App) × (on_envelope codec m env a ≡ some a')
      × (a'.link ≡ a.link)
      × (client_hello version a'.link.acked ≡ client_hello version a.link.acked)
clear_text_unacked codec m env msg version a c text =
    let (a', handled, c', link) = on_envelope-Handled codec m env a c in
    let same = link ∙ link_after-text_of m env env.payload msg a.link text in
    (a', handled, same, ap (λ l. client_hello version l.acked) same)
