-- ===== src/Wire.antt =====
-- The envelope of the wire protocol: proto/walkie/v1/control.proto as internal/genproto/walkie/v1
-- renders it. A text that the code only compares is a `String`, one whose bytes it counts is a
-- list of bytes, and a timestamp is a number of nanoseconds; an absent timestamp is `none`.
use walkie.Prelude.{ℕ, String, Bool, ◌&&◌, Option, none, List, leb}

abbrev pub Bytes : Type 0
Bytes = List ℕ

pub record Hello : Type 0 where
  pub client_version : String
  pub last_acked_position : ℕ  -- uint64
  pub protocol_version : ℕ  -- uint32

pub record HelloAck : Type 0 where
  pub device : String
  pub received_at : Option ℕ
  pub pending_count : ℕ  -- uint64
  pub protocol_version : ℕ  -- uint32

pub data PresenceState : Type 0 where
  unspecified online offline : PresenceState

pub record PresenceUpdate : Type 0 where
  pub device : String
  pub state : PresenceState
  pub status : Bytes
  pub last_seen : Option ℕ

pub record DirectMessage : Type 0 where
  pub recipient : String
  pub body : Bytes
  pub sender : String

pub record BroadcastMessage : Type 0 where
  pub body : Bytes
  pub sender : String

pub data ProtocolErrorCode : Type 0 where
  code_unspecified version_unsupported malformed device_unknown : ProtocolErrorCode

-- A detail text stands as its format, with the arguments that the format prints.
pub data Detail : Type 0 where
  empty_recipient body_rejected status_rejected undecodable bad_public_key : Detail
  no_such_device : String → Detail
  key_refused : (pinned presented : Bytes) → Detail
  inbox_full : String → ℕ → Detail
  version_range : ℕ → ℕ → ℕ → Detail

pub record ProtocolError : Type 0 where
  pub code : ProtocolErrorCode
  pub detail : Detail
  pub protocol_version : ℕ  -- uint32

pub data QueueRefusalReason : Type 0 where
  reason_unspecified size_cap : QueueRefusalReason

pub record QueueRefused : Type 0 where
  pub reason : QueueRefusalReason
  pub detail : Detail

-- The `oneof payload`; `unset` is an envelope with none. `attachment` stands for the three
-- attachment messages, which no code of the program reads.
pub data Payload : Type 0 where
  unset heartbeat attachment : Payload
  hello : Hello → Payload
  hello_ack : HelloAck → Payload
  presence_update : PresenceUpdate → Payload
  presence_status_change : Bytes → Payload
  direct_message : DirectMessage → Payload
  broadcast_message : BroadcastMessage → Payload
  queue_ack : ℕ → Payload
  queue_refused : QueueRefused → Payload
  public_key_announce : Bytes → Payload
  public_key_directory : List (String × Bytes) → Payload
  protocol_error : ProtocolError → Payload
  sealed_delivery : Bytes → Payload

pub record Envelope : Type 0 where
  pub message_id : String
  pub sent_at : Option ℕ
  pub position : ℕ  -- uint64
  pub received_at : Option ℕ
  pub payload : Payload

-- `&walkiev1.Envelope{Payload: p}`
abbrev pub just : Payload → Envelope
just p = record { message_id = ""; sent_at = none; position = 0; received_at = none; payload = p }

abbrev pub min_protocol_version : ℕ
min_protocol_version = 1

abbrev pub max_protocol_version : ℕ
max_protocol_version = 1

unfoldable pub protocol_version_supported : ℕ → Bool
protocol_version_supported v = leb min_protocol_version v && leb v max_protocol_version

unfoldable pub new_version_unsupported_error : ℕ → ProtocolError
new_version_unsupported_error peer_version = record {
  code = version_unsupported;
  detail = version_range peer_version min_protocol_version max_protocol_version;
  protocol_version = peer_version;
}
