-- ===== src/CtlSocket/Tests.antt =====
-- Runs of the control socket.
use walkie.Prelude.{
  ℕ, ◌≡◌, refl, Bool, true, none, some, List, [], ◌∷◌, ◌++◌, ltb, if◌then◌else◌, arith, All,
}
use walkie.CtlSocket.Subscriber.{
  Line, gap, conn_event, message_event, snapshot, response, ok, new_subscriber, enqueue, take,
}
use walkie.CtlSocket.Stream.{
  Stream, new_stream, Turn, publish, seed, advance, write, turn, Reached, start, next,
}
use walkie.CtlSocket.Accounts.{IsBalanced}
use walkie.CtlSocket.Balance.{Reached-IsBalanced}
use walkie.CtlSocket.Wakes.{writer_turn, writer_goes_on}
use walkie.CtlSocket.Gaps.{enqueue_all, take-enqueue_all}
use walkie.CtlSocket.Server.{
  Conn, Server, Handlers, Request, new_server, refused_conn, accept, close_server, read_line,
  write_lines, or_shutdown, hang_up,
}
use walkie.CtlSocket.Server.{publish as publish_to_all}
use walkie.CtlSocket.Serving.{Op, step, run, IsShut}
use walkie.CtlSocket.Closing.{refused_conns, closed_is_quiet}

abbrev up : Line
up = conn_event "connecting" "online" "" "t1"

abbrev mail : Line
mail = message_event "m1" "bob" "ann" "dm:bob"

abbrev snap : Line
snap = snapshot "online" []

abbrev registered_stream : Stream
registered_stream = record (new_stream 1) {
  sub = record (new_subscriber 1) { queue = up ∷ []; sig = true };
  published = up ∷ [];
}

registered_stream-Reached : Reached 1 registered_stream
unfolding turn enqueue new_subscriber
registered_stream-Reached = next start (publish up) refl refl

-- One event before the snapshot fills this queue, and the snapshot is dropped.
abbrev seeded_stream : Stream
seeded_stream = record registered_stream {
  sub = record (new_subscriber 1) { queue = up ∷ []; dropped = 1; sig = true };
  phase = walkie.CtlSocket.Stream.seeded;
  published = up ∷ snap ∷ [];
}

seeded_stream-Reached : Reached 1 seeded_stream
unfolding turn enqueue new_subscriber
seeded_stream-Reached = next registered_stream-Reached (seed snap) refl refl

Reached-IsBalanced_example : IsBalanced 1 seeded_stream
Reached-IsBalanced_example = Reached-IsBalanced seeded_stream-Reached

writer_goes_on_example :
    (s' : Stream) × (turn (writer_turn seeded_stream.phase) seeded_stream ≡ some s')
unfolding new_subscriber
writer_goes_on_example = writer_goes_on seeded_stream-Reached refl (omega arith)

take-enqueue_all_example :
    (take (enqueue_all (up ∷ mail ∷ snap ∷ []) (new_subscriber 2))).0
    ≡ (if ltb 2 3 then gap 1 ∷ up ∷ mail ∷ [] else up ∷ mail ∷ snap ∷ [])
unfolding new_subscriber
take-enqueue_all_example = take-enqueue_all (up ∷ mail ∷ snap ∷ []) (new_subscriber 2) refl refl

abbrev goes : Line → Bool
goes line = true

abbrev handlers : Handlers
handlers = record {
  send = λ to body. some "offline";
  set_status = λ status. none;
  presence = [];
  conn_state = "online";
}

abbrev subscribe_request : Request
subscribe_request = record { cmd = "subscribe"; id = some "7"; to = ""; body = ""; status = "" }

abbrev busy : List Op
busy =
    Op.accepts
    ∷ Op.reads goes handlers (some subscribe_request) 0
    ∷ Op.publishes mail
    ∷ Op.pumps goes 0
    ∷ []

closed_is_quiet_example :
    let s = close_server (run busy (new_server (record { max_queued_events = 0 }))) in
    (n : ℕ) × All IsShut s.conns
    × ((run (Op.publishes up ∷ Op.accepts ∷ []) s).conns ≡ s.conns ++ refused_conns n)
    × ((run (Op.publishes up ∷ Op.accepts ∷ []) s).closed ≡ true)
closed_is_quiet_example =
    closed_is_quiet (record { max_queued_events = 0 }) busy (Op.publishes up ∷ Op.accepts ∷ [])

-- The snapshot comes before the response, and then the event.
subscribed_reads :
    (run busy (new_server (record { max_queued_events = 0 }))).conns
    ≡ record {
      registered = true;
      is_open = true;
      sub = some (record (new_subscriber 256) { sig = true });
      written = snap ∷ response (some "7") ok ∷ mail ∷ [];
    }
      ∷ []
unfolding run step accept read_line write_lines enqueue take new_subscriber publish_to_all
    walkie.CtlSocket.Server.pump
subscribed_reads = refl
