-- ===== src/Coordinator/SessionTests.antt =====
-- Runs of the frame handlers and of whole connections on small servers.
use walkie.Prelude.{
  ℕ, zero, suc, some_or, insert, sym, ◌∙◌, Option-cases, adjust, pos, ◌<◌, ◌≡◌, ◌≢◌, refl, ap,
  subst, some_eq, arith, String, true, false, Option, none, some, List, [], ◌∷◌, ◌++◌, ltb, length,
  map, filter, inl, inr, eq_iff, lookup, erase, sort_names, place,
}
use walkie.Wire.{Bytes, Envelope, Hello, just, heartbeat, protocol_version_supported}
use walkie.Queue.Tables.{Row, rows_of, advance_acked, ensure_cursor, delete_covered, count_retained}
use walkie.Queue.Framing.{Codec}
use walkie.Queue.Ops.{Queue, opened, Delivery, deliveries, ack, ok, ack_tx}
use walkie.Queue.Sound.{IsSound}
use walkie.Queue.Resume.{Rising}
use walkie.Queue.Enqueue.{no_faults}
use walkie.Presence.Tracker.{Tracker, connection_established, connection_lost, notify}
use walkie.Presence.Status.{subscribe, unsubscribe}
use walkie.Presence.Conns.{conns_of}
use walkie.Keystore.Pins.{Keystore}
use walkie.Coordinator.Routing.{
  OfflineSink, Identity, device_of, has, route_targets, add_route, remove_route,
}
use walkie.Coordinator.Dispatch.{
  Hub, Moment, reply, greeting, directory_frames, handle_hello, handle_queue_ack,
}
use walkie.Coordinator.Hello.{queue_drain, Stamped, hello_resumes, queue_ack-hello}
use walkie.Coordinator.Session.{
  House, new_house, accepts, advances, step, accept, note_connection, track, release,
}
use walkie.Coordinator.Serving.{IsFresh, Reached, start, next, routed_is_counted, drained_is_empty}

abbrev ann : Identity
ann = record { node_name = "ann"; login_name = "" }

abbrev quiet : Moment
quiet = record { now = 5; stored = true; saves = true; confirm = none }

abbrev key_of_ann : Bytes
key_of_ann =
    0 ∷ 1 ∷ 2 ∷ 3 ∷ 4 ∷ 5 ∷ 6 ∷ 7 ∷ 8 ∷ 9 ∷ 10 ∷ 11 ∷ 12 ∷ 13 ∷ 14 ∷ 15 ∷ 16 ∷ 17 ∷ 18 ∷ 19 ∷ 20
    ∷ 21 ∷ 22 ∷ 23 ∷ 24 ∷ 25 ∷ 26 ∷ 27 ∷ 28 ∷ 29 ∷ 30 ∷ 31 ∷ []

abbrev greets : Hello
greets = record { client_version = "1"; last_acked_position = 0; protocol_version = 1 }

abbrev first_row : Row
first_row = record {
  recipient = "ann";
  position = 1;
  message_id = "m1";
  body = 0 ∷ 9 ∷ [];
  enqueued_at = 1;
}

abbrev one_message : Queue
one_message =
    opened
      (record {
        inbox = first_row ∷ [];
        cursors = ("ann", record { next_position = 2; acked_position = pos 0 }) ∷ [];
      })
      100 2

one_message-IsSound : IsSound 2 one_message.db
unfolding lookup
one_message-IsSound = record { spaced = λ r. ground arith; bounded = λ r. ground arith }

abbrev letter : Envelope
letter = record (just heartbeat) { message_id = "m1" }

abbrev reads : Codec
reads = record { marshal = λ e. some (9 ∷ []); unmarshal = λ b. some letter }

abbrev routes : List (String × List ℕ)
routes = ("ann", 0 ∷ []) ∷ ("bob", 1 ∷ []) ∷ []

abbrev pinned_ks : Keystore
pinned_ks = record {
  peers = ("ann", record { key = key_of_ann; pinned_at = 1; confirmed_at = none }) ∷ [];
  file = none;
}

abbrev fresh_tracker : Tracker
fresh_tracker = record {
  ttl = 30;
  devices = [];
  subs = [];
  closed = false;
  tables = record { liveness = []; statuses = [] };
  started = [];
}

abbrev hub : Hub Queue
hub = record {
  server = record {
    routes = routes;
    sent = [];
    presence = none;
    offline = some one_message;
    messages = 0;
    connected_devices = 2;
  };
  tracker = some fresh_tracker;
  keys = some pinned_ks;
}

hello_resumes_example :
    (ds : List Delivery) × (handle_hello (some (queue_drain reads no_faults)) quiet 0 ann greets hub
      ≡ (
        true,
        reply 0
            (greeting 5 "ann" (length ds) ∷ map (λ d. d.envelope) ds ++ directory_frames hub.keys)
            hub,
      ))
    × (ds
        ≡ deliveries reads
            (filter (λ row. ltb 0 row.position) (rows_of "ann" one_message.db.inbox)))
    × Rising 0 ds
    × Stamped ds
unfolding protocol_version_supported device_of
hello_resumes_example =
    hello_resumes reads quiet 0 ann greets hub one_message no_faults refl refl one_message-IsSound
      (omega arith) refl

ann_acks : (ack no_faults one_message "ann" 1).0 ≡ ok tt
unfolding ack ack_tx ensure_cursor advance_acked delete_covered count_retained lookup adjust
ann_acks = refl

queue_ack-hello_example :
    (let drain = queue_drain reads no_faults in
      let h' = (handle_queue_ack (some drain) ann 1 hub).1 in
      ((handle_hello (some drain) quiet 0 ann greets h').1.server.sent
        ≡ (handle_hello
            (some drain)
            quiet
            0
            ann
            (record greets { last_acked_position = 1 })
            hub).1.server.sent)
      × ((other : Identity)
          → device_of ann ≢ device_of other
          → (handle_hello (some drain) quiet 0 other greets h').1.server.sent
            ≡ (handle_hello (some drain) quiet 0 other greets hub).1.server.sent))
unfolding device_of
queue_ack-hello_example =
    queue_ack-hello reads quiet 0 ann greets hub one_message no_faults no_faults 1 refl
      one_message-IsSound ann_acks (omega arith) (omega arith)

abbrev lossy : OfflineSink Queue
lossy = record { deliver = λ recipient env q. (none, q) }

ann_named : device_of ann ≢ ""
unfolding device_of
ann_named e = absurd (ground (arith, (eq_iff "ann" "").1 e))

abbrev empty_hub : Hub Queue
empty_hub = record {
  server = record {
    routes = [];
    sent = [];
    presence = none;
    offline = none;
    messages = 0;
    connected_devices = 0;
  };
  tracker = some fresh_tracker;
  keys = none;
}

empty_hub-IsFresh : IsFresh empty_hub
unfolding lookup
empty_hub-IsFresh = record {
  no_routes = refl;
  opened = λ t e. subst (λ x. x.closed ≡ false) (some_eq e) refl;
  no_conns = λ t e d. subst (λ x. conns_of d x ≡ 0) (some_eq e) refl;
}

abbrev run_of : ℕ → House Queue → Option (House Queue)
run_of zero s = some s
run_of (suc n) s = elim (step lossy none (advances 0 quiet) s) [
  | none ↦ none
  | some s' ↦ run_of n s'
]

run_of-Reached :
    (n : ℕ) (s s' : House Queue)
    → Reached lossy none s
    → run_of n s ≡ some s'
    → Reached lossy none s'
run_of-Reached zero s s' reached e = subst (Reached lossy none) (some_eq e) reached
run_of-Reached (suc n) s s' reached e = elim (Option-cases (step lossy none (advances 0 quiet) s)) [
  | inl stuck ↦ absurd (ground (arith, e, stuck))
  | inr (s1, made) ↦
      run_of-Reached n s1 s' (next reached (advances 0 quiet) made)
        (ap (λ o. elim o [ none ↦ none | some x ↦ run_of n x ]) (sym made) ∙ e)
]

-- ann's connection, accepted by an empty server.
abbrev arrived : House Queue
unfolding accept
arrived = accept true ann (new_house empty_hub)

arrived-Reached : Reached lossy none arrived
unfolding step accept
arrived-Reached = next (start empty_hub empty_hub-IsFresh) (accepts true ann) refl

abbrev after : ℕ → House Queue
after n = some_or arrived (run_of n arrived)

-- Its handler in the read loop.
served : run_of 5 arrived ≡ some (after 5)
unfolding step accept note_connection device_of track connection_established subscribe notify
    add_route lookup insert sort_names place
served = refl

-- Its handler has returned.
gone : run_of 10 arrived ≡ some (after 10)
unfolding step accept note_connection device_of track release connection_established connection_lost
    subscribe unsubscribe notify add_route remove_route lookup insert erase sort_names place
gone = refl

routed_is_counted_example :
    ((t : Tracker) → (after 5).hub.tracker ≡ some t → 0 < conns_of "ann" t)
    × (has 0 (after 5).registry ≡ true)
    × (0 < (after 5).running)
unfolding step accept note_connection device_of track connection_established subscribe notify
    add_route lookup insert sort_names place route_targets
routed_is_counted_example =
    routed_is_counted lossy none (after 5) "ann" 0
      (run_of-Reached 5 arrived (after 5) arrived-Reached served) refl

drained_is_empty_example :
    ((d : String) (w : ℕ) → has w (route_targets d (after 10).hub.server) ≡ false)
    × ((t : Tracker) → (after 10).hub.tracker ≡ some t → (d : String) → conns_of d t ≡ 0)
    × ((w : ℕ) → has w (after 10).registry ≡ false)
unfolding step accept note_connection device_of track release connection_established connection_lost
    subscribe unsubscribe notify add_route remove_route lookup insert erase sort_names place
drained_is_empty_example =
    drained_is_empty lossy none (after 10)
      (run_of-Reached 10 arrived (after 10) arrived-Reached gone) refl
