-- ===== src/Coordinator/Routing.antt =====
-- Routes and message handlers of the coordinator (internal/coordinator/routing.go).
use walkie.Prelude.{
  ℕ, ◌+◌, String, Bool, true, false, not, Option, none, some, List, [], ◌∷◌, ◌++◌, ltb, ◌==◌,
  if◌then◌else◌, str_eq, length, map, any, filter, lookup, insert, erase,
}
use walkie.Wire.{
  Envelope, Payload, just, DirectMessage, BroadcastMessage, direct_message, broadcast_message,
  protocol_error, queue_refused, malformed, device_unknown, Detail, empty_recipient, body_rejected,
  no_such_device, inbox_full, size_cap,
}
use walkie.Message.Text.{validate_body}

-- What a sink answers when it does not hold a message.
pub data SinkError : Type 0 where
  capacity : (cap : ℕ) → SinkError
  other : SinkError

-- The OfflineSink interface, over the states the sink can be in.
pub record OfflineSink (S : Type 0) : Type 0 where
  pub deliver : String → Envelope → S → Option SinkError × S

-- tsauth.Identity, as far as the coordinator reads it.
pub record Identity : Type 0 where
  pub node_name : String
  pub login_name : String

unfoldable pub device_of : Identity → String
device_of id = if str_eq id.node_name "" then id.login_name else id.node_name

-- The server's routes and what it does with them: a connection is a number, `sent` lists the
-- writes to each, whether or not they get through, `presence` is Known of the tracker where one is wired, and `offline` the sink's
-- state where one is wired.
pub record Server (S : Type 0) : Type 0 where
  pub routes : List (String × List ℕ)
  pub sent : List (ℕ × Envelope)
  pub presence : Option (String → Bool)
  pub offline : Option S
  pub messages : ℕ
  pub connected_devices : ℕ

-- Reading a missing key gives the empty set.
abbrev pub members : Option (List ℕ) → List ℕ
members none = []
members (some ws) = ws

abbrev pub has : ℕ → List ℕ → Bool
has w ws = any (λ v. v == w) ws

abbrev pub adjoin : ℕ → List ℕ → List ℕ
adjoin w ws = if has w ws then ws else w ∷ ws

abbrev pub without : ℕ → List ℕ → List ℕ
without w ws = filter (λ v. not (v == w)) ws

unfoldable pub targets_except : String → List (String × List ℕ) → List ℕ
targets_except exclude [] = []
targets_except exclude ((device, ws) ∷ routes) =
    let rest = targets_except exclude routes in if str_eq device exclude then rest else ws ++ rest

-- stampedDelivery
abbrev pub stamped_delivery : ℕ → Envelope → Payload → Envelope
stamped_delivery received_at original routed = record {
  message_id = original.message_id;
  sent_at = original.sent_at;
  position = 0;
  received_at = some received_at;
  payload = routed;
}

abbrev pub unknown_to : String → Option (String → Bool) → Bool
unknown_to recipient none = false
unknown_to recipient (some known) = not (known recipient)

abbrev pub is_error {ℓ} : {A : Type ℓ} → Option A → Bool
is_error none = false
is_error (some e) = true

module _ {S : Type 0} where
  abbrev pub with_routes : List (String × List ℕ) → Server S → Server S
  with_routes routes s = record s { routes = routes; connected_devices = length routes }

  unfoldable pub add_route : String → ℕ → Server S → Server S
  add_route device w s =
      with_routes (insert device (adjoin w (members (lookup device s.routes))) s.routes) s

  abbrev pub removed : String → ℕ → Option (List ℕ) → Server S → Server S
  removed device w none s = s
  removed device w (some ws) s =
      if length (without w ws) == 0
      then with_routes (erase device s.routes) s
      else with_routes (insert device (without w ws) s.routes) s

  unfoldable pub remove_route : String → ℕ → Server S → Server S
  remove_route device w s = removed device w (lookup device s.routes) s

  unfoldable pub route_targets : String → Server S → List ℕ
  route_targets device s = members (lookup device s.routes)

  unfoldable pub route_targets_except : String → Server S → List ℕ
  unfolding targets_except
  route_targets_except exclude s = targets_except exclude s.routes

  abbrev pub write : ℕ → Envelope → Server S → Server S
  write w env s = record s { sent = s.sent ++ (w, env) ∷ [] }

  abbrev pub write_all : List ℕ → Envelope → Server S → Server S
  write_all ws env s = record s { sent = s.sent ++ map (λ w. (w, env)) ws }

  unfoldable pub reject_malformed : ℕ → Detail → Server S → Server S
  reject_malformed out detail s =
      write out
        (just (protocol_error (record { code = malformed; detail = detail; protocol_version = 0 })))
        s

  abbrev pub count_message : Server S → Server S
  count_message s = record s { messages = s.messages + 1 }

  -- What deliverUnroutable does with the sink's answer.
  abbrev pub held : ℕ → String → Option SinkError × S → Server S → Server S
  held out recipient (none, sink) s = count_message (record s { offline = some sink })
  held out recipient (some (capacity cap), sink) s =
      write out
        (just (queue_refused (record { reason = size_cap; detail = inbox_full recipient cap })))
        (record s { offline = some sink })
  held out recipient (some other, sink) s = record s { offline = some sink }

  abbrev pub hold : OfflineSink S → ℕ → String → Envelope → Option S → Server S → Server S
  hold sink out recipient stamped none s = s
  hold sink out recipient stamped (some offline) s =
      held out recipient (sink.deliver recipient stamped offline) s

  unfoldable pub deliver_unroutable : OfflineSink S → ℕ → String → Envelope → Server S → Server S
  deliver_unroutable sink out recipient stamped s =
      if unknown_to recipient s.presence
      then write out
          (just (
            protocol_error (record {
              code = device_unknown;
              detail = no_such_device recipient;
              protocol_version = 0;
            })))
          s
      else hold sink out recipient stamped s.offline s

  -- handleDirect; it always keeps the connection.
  unfoldable pub handle_direct :
      OfflineSink S → ℕ → ℕ → Identity → Envelope → DirectMessage → Server S → Server S
  unfolding device_of reject_malformed route_targets deliver_unroutable validate_body
  handle_direct sink now out id env dm s =
      if str_eq dm.recipient ""
      then reject_malformed out empty_recipient s
      else if is_error (validate_body dm.body)
      then reject_malformed out body_rejected s
      else let stamped = stamped_delivery now env (
          direct_message
            (record { recipient = dm.recipient; body = dm.body; sender = device_of id })) in
        let targets = route_targets dm.recipient s in
        if ltb 0 (length targets)
        then count_message (write_all targets stamped s)
        else deliver_unroutable sink out dm.recipient stamped s

  -- handleBroadcast; it always keeps the connection.
  unfoldable pub handle_broadcast :
      ℕ → ℕ → Identity → Envelope → BroadcastMessage → Server S → Server S
  unfolding device_of reject_malformed route_targets_except validate_body
  handle_broadcast now out id env bm s =
      if is_error (validate_body bm.body)
      then reject_malformed out body_rejected s
      else let stamped =
          stamped_delivery now env
            (broadcast_message (record { body = bm.body; sender = device_of id })) in
        count_message (write_all (route_targets_except (device_of id) s) stamped s)
