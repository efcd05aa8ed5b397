-- ===== src/App/Assembled.antt =====
-- The handlers of the assembled client (cmd/walkie/app.go). A `none` is a panic.
use Prim.Native.String.{len, slice}
use text.Mathlib.Text.{starts_with}
use walkie.Prelude.{
  ℕ, String, Bool, true, false, Option, none, some, List, [], ◌∷◌, ◌++◌, ltb, if◌then◌else◌, str_eq,
  length, ◌⊎◌, inl, inr,
}
use walkie.Wire.{
  Bytes, Envelope, Payload, presence_update, sealed_delivery, direct_message, just,
  public_key_announce,
}
use walkie.Queue.Framing.{Codec}
use walkie.Message.Text.{Message, broadcast_conversation}
use walkie.Hub.Messages.{MessageHub, SendError, new_hub, send_direct, send_broadcast, apply}
use walkie.History.Store.{Store, Outcomes, append}
use walkie.Client.View.{View, apply as apply_update}
use walkie.Client.Outbox.{Outbox, enqueue}
use walkie.App.Acked.{Link, send, acknowledge}

-- `app`; `opens` is crypto.Open with its key, `filed` the calls of the onFiled hook, and `draining`
-- tells whether a drain is running.
pub record App : Type 0 where
  pub connected_as : String
  pub link : Link
  pub view : View
  pub hub : Option MessageHub
  pub hist : Store
  pub box : Outbox
  pub draining : Bool
  pub opens : Bytes → Option Bytes
  pub filed : List Message
  pub inbound : List Message

-- What the surroundings of one call do: the clock, the id that NewID draws, whether a frame goes
-- out, which statements of the history succeed, and whether the outbox stores.
pub record Moment : Type 0 where
  pub now : ℕ
  pub id : String
  pub goes : Envelope → Bool
  pub outcomes : Outcomes
  pub stored : Bool

abbrev pub inbound_cap : ℕ
inbound_cap = 64

-- notify
unfoldable pub notify : Message → App → App
notify msg a = record a {
  filed = a.filed ++ msg ∷ [];
  inbound = if ltb (length a.inbound) inbound_cap then a.inbound ++ msg ∷ [] else a.inbound;
}

-- UseIdentity
abbrev pub use_identity : (Bytes → Option Bytes) → MessageHub → MessageHub
use_identity opens h = record h { identity = some opens }

abbrev pub built : Option MessageHub → App → Option (Option MessageHub × App)
built none a = none
built (some h) a = let h' = use_identity a.opens h in some (some h', record a { hub = some h' })

abbrev pub hub_or_new : Option MessageHub → App → Option (Option MessageHub × App)
hub_or_new (some h) a = some (some h, a)
hub_or_new none a =
    if str_eq a.connected_as "" then some (none, a) else built (new_hub a.connected_as) a

-- hubRef
unfoldable pub hub_ref : App → Option (Option MessageHub × App)
unfolding new_hub
hub_ref a = hub_or_new a.hub a

-- hubSource
abbrev pub hub_source : App → Option MessageHub
hub_source a = a.hub

abbrev pub acknowledged : Moment → Envelope → Payload → App → App
acknowledged m env (sealed_delivery box) a = record a {
  link = acknowledge m.goes env.position a.link;
}
acknowledged m env _ a = a

abbrev pub recorded : Moment → String → Message → App → App
recorded m local msg a = record a { hist = (append m.outcomes m.now local msg a.hist).1 }

-- The part of OnEnvelope behind Apply and the acknowledgement.
abbrev pub displayed : Moment → Message → Bool → App → App
displayed m msg false a = a
displayed m msg true a = notify msg (recorded m a.connected_as msg a)

abbrev pub after_apply :
    Moment → Envelope → App → Option ((Message × Bool) × MessageHub) → Option App
after_apply m env a none = none
after_apply m env a (some ((msg, shown), h)) =
    some (displayed m msg shown (acknowledged m env env.payload (record a { hub = some h })))

abbrev pub applied : Codec → Moment → Envelope → Option (Option MessageHub × App) → Option App
applied codec m env none = none
applied codec m env (some (none, a)) = some a
applied codec m env (some (some h, a)) = after_apply m env a (apply codec env h)

-- OnEnvelope, on its payload
abbrev pub on_payload : Codec → Moment → Envelope → Payload → App → Option App
on_payload codec m env (presence_update pu) a = some (record a { view = apply_update pu a.view })
on_payload codec m env _ a = applied codec m env (hub_ref a)

unfoldable pub on_envelope : Codec → Moment → Envelope → App → Option App
unfolding hub_ref acknowledge append apply notify apply_update
on_envelope codec m env a = on_payload codec m env env.payload a

-- strings.TrimPrefix
unfoldable pub trim_prefix : String → String → String
trim_prefix s prefix = if starts_with s prefix then slice s (len prefix) (len s) else s

pub data UiError : Type 0 where
  not_connected held lost : UiError
  refused : (e : SendError) → UiError

abbrev pub composed_by :
    Moment → String → Bytes → MessageHub → Option ((SendError ⊎ Envelope) × MessageHub)
composed_by m conversation body h =
    if str_eq conversation broadcast_conversation
    then send_broadcast m.now m.id body h
    else send_direct m.now m.id (trim_prefix conversation "dm:") body h

abbrev pub recipient_of : Payload → String
recipient_of (direct_message dm) = dm.recipient
recipient_of _ = ""

-- `filed` of SendFromUI
abbrev pub filed_message : String → Envelope → Bytes → Message
filed_message local env body = record {
  id = env.message_id;
  sender = local;
  recipient = recipient_of env.payload;
  body = body;
  sent_at = env.sent_at;
  received_at = none;
}

-- A frame that did not go out is held.
abbrev pub held_after : Bool × Outbox → App → Option UiError × App
held_after (true, box) a = (some held, record a { box = box })
held_after (false, box) a = (some lost, record a { box = box })

abbrev pub transmitted : Codec → Moment → Envelope → Bool × Link → App → Option UiError × App
transmitted codec m env (true, link) a = (none, record a { link = link })
transmitted codec m env (false, link) a =
    held_after (enqueue codec m.stored env a.box) (record a { link = link })

-- The part of SendFromUI behind the validation.
abbrev pub sent_from_ui : Codec → Moment → Bytes → Envelope → App → Option UiError × App
sent_from_ui codec m body env a =
    let msg = filed_message a.connected_as env body in
    let a' = notify msg (recorded m a.connected_as msg a) in
    transmitted codec m env (send m.goes env a'.link) a'

abbrev pub after_compose :
    Codec
    → Moment
    → Bytes
    → App
    → Option ((SendError ⊎ Envelope) × MessageHub)
    → Option (Option UiError × App)
after_compose codec m body a none = none
after_compose codec m body a (some (inl e, h)) = some (some (refused e), record a { hub = some h })
after_compose codec m body a (some (inr env, h)) =
    some (sent_from_ui codec m body env (record a { hub = some h }))

abbrev pub with_hub :
    Codec
    → Moment
    → String
    → Bytes
    → Option (Option MessageHub × App)
    → Option (Option UiError × App)
with_hub codec m conversation body none = none
with_hub codec m conversation body (some (none, a)) = some (some not_connected, a)
with_hub codec m conversation body (some (some h, a)) =
    after_compose codec m body a (composed_by m conversation body h)

-- SendFromUI; `none` in the result is a nil error.
unfoldable pub send_from_ui : Codec → Moment → String → Bytes → App → Option (Option UiError × App)
unfolding hub_ref send_broadcast send_direct trim_prefix append notify send enqueue
send_from_ui codec m conversation body a = with_hub codec m conversation body (hub_ref a)

-- announceKey, of the public key `pub_key`
unfoldable pub announce_key : Moment → Bytes → App → App
unfolding send
announce_key m pub_key a = record a {
  link = (send m.goes (just (public_key_announce pub_key)) a.link).1;
}
