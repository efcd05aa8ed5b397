-- ===== src/Hub/Messages.antt =====
-- The message hub of a client (internal/messagehub/hub.go).
use walkie.Prelude.{
  ℕ, String, Bool, false, Option, none, some, [], if◌then◌else◌, str_eq, ◌⊎◌, inl, inr,
}
use walkie.Wire.{Bytes, Envelope, Payload, just, direct_message, broadcast_message, sealed_delivery}
use walkie.Queue.Framing.{Codec}
use walkie.Message.Text.{Message, BodyError, validate_body}
use walkie.Message.Log.{Log, new_log, append}

-- `identity` is what crypto.Open gives of a box with the device's own key, where one is wired.
pub record MessageHub : Type 0 where
  pub local : String
  pub log : Log
  pub identity : Option (Bytes → Option Bytes)

abbrev pub with_log : String → Option Log → Option MessageHub
with_log local none = none
with_log local (some log) = some (record { local = local; log = log; identity = none })

-- New; `none` is a panic, here and below.
unfoldable pub new_hub : String → Option MessageHub
unfolding new_log
new_hub local = with_log local (new_log local 0 0)

pub data SendError : Type 0 where
  no_recipient : SendError
  bad_body : (e : BodyError) → SendError

-- fileLocal, whatever the duplicate filter says.
abbrev pub filed :
    MessageHub → Envelope → Option (Bool × Log) → Option ((SendError ⊎ Envelope) × MessageHub)
filed h env none = none
filed h env (some (fresh, log)) = some (inr env, record h { log = log })

abbrev pub composed : ℕ → String → Payload → Envelope
composed now id payload = record (just payload) { message_id = id; sent_at = some now }

abbrev pub own_message : ℕ → String → String → String → Bytes → Message
own_message now id local recipient body = record {
  id = id;
  sender = local;
  recipient = recipient;
  body = body;
  sent_at = some now;
  received_at = none;
}

abbrev pub send_valid :
    ℕ
    → String
    → String
    → Bytes
    → Payload
    → Option BodyError
    → MessageHub
    → Option ((SendError ⊎ Envelope) × MessageHub)
send_valid now id recipient body payload (some e) h = some (inl (bad_body e), h)
send_valid now id recipient body payload none h =
    filed h (composed now id payload) (append h.log (own_message now id h.local recipient body))

-- SendDirect; `id` is the one that NewID draws.
unfoldable pub send_direct :
    ℕ → String → String → Bytes → MessageHub → Option ((SendError ⊎ Envelope) × MessageHub)
unfolding validate_body append
send_direct now id recipient body h =
    if str_eq recipient ""
    then some (inl no_recipient, h)
    else send_valid now id recipient body
        (direct_message (record { recipient = recipient; body = body; sender = "" }))
        (validate_body body) h

-- SendBroadcast
unfoldable pub send_broadcast :
    ℕ → String → Bytes → MessageHub → Option ((SendError ⊎ Envelope) × MessageHub)
unfolding validate_body append
send_broadcast now id body h =
    send_valid now id "" body (broadcast_message (record { body = body; sender = "" }))
      (validate_body body) h

abbrev pub no_message : Message
no_message = record {
  id = "";
  sender = "";
  recipient = "";
  body = [];
  sent_at = none;
  received_at = none;
}

abbrev pub ignored : MessageHub → Option ((Message × Bool) × MessageHub)
ignored h = some ((no_message, false), h)

abbrev pub shown :
    MessageHub → Message → Option (Bool × Log) → Option ((Message × Bool) × MessageHub)
shown h msg none = none
shown h msg (some (fresh, log)) = some ((msg, fresh), record h { log = log })

-- The message that an envelope carries, where it carries one.
abbrev pub text_of : Envelope → Payload → Option Message
text_of env (direct_message dm) = some (record {
  id = env.message_id;
  sender = dm.sender;
  recipient = dm.recipient;
  body = dm.body;
  sent_at = env.sent_at;
  received_at = env.received_at;
})
text_of env (broadcast_message bm) = some (record {
  id = env.message_id;
  sender = bm.sender;
  recipient = "";
  body = bm.body;
  sent_at = env.sent_at;
  received_at = env.received_at;
})
text_of env _ = none

abbrev pub appended : Option Message → MessageHub → Option ((Message × Bool) × MessageHub)
appended none h = ignored h
appended (some msg) h = shown h msg (append h.log msg)

-- applyText
unfoldable pub apply_text : Envelope → MessageHub → Option ((Message × Bool) × MessageHub)
unfolding append
apply_text env h = appended (text_of env env.payload) h

abbrev pub decoded : Option Envelope → MessageHub → Option ((Message × Bool) × MessageHub)
decoded none h = ignored h
decoded (some inner) h = apply_text inner h

abbrev pub unsealed : Codec → Option Bytes → MessageHub → Option ((Message × Bool) × MessageHub)
unsealed codec none h = ignored h
unsealed codec (some b) h = decoded (codec.unmarshal b) h

-- applySealed
abbrev pub apply_sealed :
    Codec
    → Bytes
    → Option (Bytes → Option Bytes)
    → MessageHub
    → Option ((Message × Bool) × MessageHub)
apply_sealed codec box none h = ignored h
apply_sealed codec box (some opens) h = unsealed codec (opens box) h

abbrev pub apply_payload :
    Codec → Envelope → Payload → MessageHub → Option ((Message × Bool) × MessageHub)
apply_payload codec env (sealed_delivery box) h = apply_sealed codec box h.identity h
apply_payload codec env _ h = apply_text env h

-- Apply, on an envelope that is not nil: the message and whether it is new.
unfoldable pub apply : Codec → Envelope → MessageHub → Option ((Message × Bool) × MessageHub)
unfolding apply_text
apply codec env h = apply_payload codec env env.payload h
