-- ===== src/Coordinator/Offline.antt =====
-- The offline queue as the sink of the message handlers (internal/coordinator/routing.go and
-- internal/coordinator/queue/queue.go).
use walkie.Prelude.{
  ℕ, suc, ◌+◌, ◌<◌, ◌≡◌, refl, ap, ◌∙◌, String, false, Option, none, some, [], ◌∷◌, arith, str_eq,
  length,
}
use walkie.Wire.{Bytes, Envelope, DirectMessage}
use walkie.Message.Text.{validate_body}
use walkie.Queue.Tables.{rows_of}
use walkie.Queue.Framing.{Codec, Seal, seal_for_storage}
use walkie.Queue.Ops.{Faults, Error, Result, ok, err, Queue, enqueue, deliver, delivered, resume}
use walkie.Queue.Rows.{next_of}
use walkie.Queue.Sound.{IsSound}
use walkie.Queue.Enqueue.{no_faults, resting_bytes, enqueue-enqueue_body, enqueue_body-accepts}
use walkie.Queue.Replay.{enqueue-resume_plain}
use walkie.Coordinator.Routing.{
  OfflineSink, SinkError, capacity, other, Identity, Server, handle_direct, deliver_unroutable,
  route_targets, unknown_to, count_message,
}
use walkie.Coordinator.Authentic.{delivered_direct}

-- What errors.As finds in the queue's error.
abbrev pub sink_answer : Result (Unit {0}) × Queue → Option SinkError × Queue
sink_answer (ok done, q) = (none, q)
sink_answer (err (Error.capacity r cap), q) = (some (capacity cap), q)
sink_answer (err e, q) = (some other, q)

-- The queue behind the interface. The clock and the failures are those of the call.
unfoldable pub queue_sink : Codec → Option Seal → Faults → ℕ → OfflineSink Queue
unfolding deliver
queue_sink codec at_rest fails now = record {
  deliver = λ recipient env q. sink_answer (deliver codec at_rest fails now q recipient env);
}

accepted_answer :
    (x : Result ℕ × Queue) (p : ℕ) → x.0 ≡ ok p → sink_answer (delivered x) ≡ (none, x.1)
accepted_answer (ok q, s) p e = refl
accepted_answer (err q, s) p e = absurd (ground (arith, e))

-- A valid direct message to a known recipient with no connection goes to the sink.
to_sink :
    {S : Type 0} (sink : OfflineSink S) (now out : ℕ) (id : Identity) (env : Envelope)
    (dm : DirectMessage) (s : Server S) (offline offline' : S)
    → str_eq dm.recipient "" ≡ false
    → validate_body dm.body ≡ none
    → route_targets dm.recipient s ≡ []
    → unknown_to dm.recipient s.presence ≡ false
    → s.offline ≡ some offline
    → sink.deliver dm.recipient (delivered_direct sink now out id env dm s) offline
      ≡ (none, offline')
    → handle_direct sink now out id env dm s ≡ count_message (record s { offline = some offline' })
unfolding handle_direct deliver_unroutable
to_sink sink now out id env dm s offline offline' named valid away known wired answers =
    rw (named, valid, away, known, wired, answers) refl

module _ (codec : Codec) (now out : ℕ) (id : Identity) (env : Envelope) (dm : DirectMessage)
    (s : Server Queue) (q : Queue) (b : Bytes) (p : ℕ) where
  -- The sink of a queue without sealing.
  abbrev pub plain_sink : OfflineSink Queue
  plain_sink = queue_sink codec none no_faults now

  abbrev pub stamped : Envelope
  stamped = delivered_direct plain_sink now out id env dm s

  -- From the handler to the resume: where no statement fails, a valid direct message to a known
  -- recipient that has no connection and has room in an open, sound, unsealed queue goes to nobody now
  -- and counts as accepted; and the recipient's resume from the position before then gives just that
  -- message, under the sender's authenticated identity, with the server's time and the position
  -- stamped, given that the codec reads back this one envelope and the position is below 2 ^ 63.
  pub direct_to_absent :
      str_eq dm.recipient "" ≡ false
      → validate_body dm.body ≡ none
      → route_targets dm.recipient s ≡ []
      → unknown_to dm.recipient s.presence ≡ false
      → s.offline ≡ some q
      → IsSound q.max_size q.db
      → q.is_closed ≡ false
      → length (rows_of dm.recipient q.db.inbox) < q.max_size
      → codec.marshal stamped ≡ some b
      → codec.unmarshal b ≡ some stamped
      → next_of dm.recipient q.db ≡ suc p
      → p < 9223372036854775808
      → (q' : Queue) × (handle_direct plain_sink now out id env dm s
          ≡ record s { offline = some q'; messages = s.messages + 1 })
        × (resume codec no_faults q' dm.recipient p
            ≡ ok (record { position = suc p; envelope = record stamped { position = suc p } } ∷ []))
  unfolding queue_sink deliver resting_bytes seal_for_storage
  direct_to_absent named valid away known wired sound is_open room marshals unmarshals numbered
        small =
      let r : String = dm.recipient in
      let rests : resting_bytes codec none r stamped ≡ some (0 ∷ b) = rw marshals refl in
      let called = enqueue-enqueue_body codec none no_faults now q r stamped (0 ∷ b) rests in
      let (accepted, tables) =
        enqueue_body-accepts codec none now q r stamped (0 ∷ b) sound is_open rests room in
      let answers =
        accepted_answer (enqueue codec none no_faults now q r stamped) (next_of r q.db)
          (ap (λ x. x.0) called ∙ accepted) in
      (
        (enqueue codec none no_faults now q r stamped).1,
        to_sink plain_sink now out id env dm s q _ named valid away known wired answers,
        enqueue-resume_plain codec now q r stamped b p sound is_open room marshals unmarshals
            numbered small,
      )
