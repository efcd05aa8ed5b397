-- ===== src/Coordinator/Hello.antt =====
-- A connection's resume, over the queue (internal/coordinator/server.go and
-- internal/coordinator/queue/queue.go).
use walkie.Prelude.{
  Bool, sym, subst, Option-cases, ◌≢◌, ℕ, ◌≤◌, ◌<◌, ◌≡◌, refl, true, false, Option, none, some,
  List, [], ◌∷◌, ◌++◌, arith, ltb, length, map, filter, All, Bool-cases, inl, inr,
}
use walkie.Wire.{Envelope, Hello, protocol_version_supported}
use walkie.Queue.Tables.{Row, rows_of}
use walkie.Queue.Framing.{Codec, delivery_from_storage}
use walkie.Queue.Ops.{
  Faults, Stmt, Result, ok, err, Queue, Delivery, deliveries, deliverable, resume, ack,
}
use walkie.Queue.Sound.{IsSound}
use walkie.Queue.Resume.{Rising, int64_limit, resume_suffix, ack-resume}
use walkie.Coordinator.Routing.{Identity, device_of}
use walkie.Coordinator.Dispatch.{
  QueueDrain, Hub, Moment, greeting, directory_frames, reply, handle_hello, handle_queue_ack,
}

abbrev pub to_option : Result (List Delivery) → Option (List Delivery)
to_option (ok ds) = some ds
to_option (err e) = none

abbrev pub is_ok : Result (Unit {0}) × Queue → Bool × Queue
is_ok (ok u, q) = (true, q)
is_ok (err e, q) = (false, q)

is_ok-queue : (x : Result (Unit {0}) × Queue) → (is_ok x).1 ≡ x.1
is_ok-queue (ok u, q) = refl
is_ok-queue (err e, q) = refl

-- The queue behind the interface; the failures are those of the call.
unfoldable pub queue_drain : Codec → Faults → QueueDrain Queue
unfolding resume ack
queue_drain codec fails = record {
  resume = λ recipient after q. to_option (resume codec fails q recipient after);
  ack = λ recipient position q. is_ok (ack fails q recipient position);
}

stamped :
    (codec : Codec) (position : ℕ) (body : List ℕ) (env : Envelope)
    → delivery_from_storage codec position body ≡ some env
    → env.position ≡ position
unfolding delivery_from_storage
stamped codec position [] env e = absurd (ground (arith, e))
stamped codec position (marker ∷ payload) env e =
    ground (arith, e, Option-cases (codec.unmarshal payload))

abbrev pub Stamped : List Delivery → Type 0
Stamped ds = All (λ d. d.envelope.position ≡ d.position) ds

deliverable-Stamped :
    (position : ℕ) (o : Option Envelope) (ds : List Delivery)
    → ((env : Envelope) → o ≡ some env → env.position ≡ position)
    → Stamped ds
    → Stamped (deliverable position o ds)
deliverable-Stamped position none ds at all = all
deliverable-Stamped position (some env) ds at all = (at env refl, all)

deliveries-Stamped : (codec : Codec) (rows : List Row) → Stamped (deliveries codec rows)
unfolding deliveries
deliveries-Stamped codec [] = tt
deliveries-Stamped codec (row ∷ rows) =
    deliverable-Stamped row.position (delivery_from_storage codec row.position row.body)
      (deliveries codec rows) (stamped codec row.position row.body) (deliveries-Stamped codec rows)

module _ (codec : Codec) (m : Moment) (out : ℕ) (id : Identity) (hi : Hello) (h : Hub Queue)
    (q : Queue) where
  -- A Hello of a supported version, over a sound queue whose query succeeds and from a position
  -- below 2 ^ 63: the connection is kept and gets, in this order, a greeting under its
  -- authenticated name that promises as many messages as follow, then the readable rows of its
  -- inbox above the position it reports, in rising order and each under its position, then the
  -- directory of keys where a keystore is wired; and nothing else changes.
  pub hello_resumes :
      (fails : Faults)
      → protocol_version_supported hi.protocol_version ≡ true
      → h.server.offline ≡ some q
      → IsSound q.max_size q.db
      → hi.last_acked_position < int64_limit
      → fails Stmt.selecting ≡ false
      → (ds : List Delivery) × (handle_hello (some (queue_drain codec fails)) m out id hi h ≡ (
        true,
        reply out
            (greeting m.now (device_of id) (length ds) ∷ map (λ d. d.envelope) ds
              ++ directory_frames h.keys)
            h,
      ))
        × (ds
            ≡ deliveries codec (
                filter
                  (λ row. ltb hi.last_acked_position row.position)
                  (rows_of (device_of id) q.db.inbox)))
        × Rising hi.last_acked_position ds
        × Stamped ds
  unfolding handle_hello queue_drain
  hello_resumes fails supported wired sound small runs =
      let (ds, resumes, exact, rising) =
        resume_suffix codec fails q (device_of id) hi.last_acked_position sound small runs in
      let all = deliveries-Stamped codec (
        filter (λ row. ltb hi.last_acked_position row.position)
          (rows_of (device_of id) q.db.inbox)) in
      (ds, rw (supported, wired, resumes) refl, exact, rising, subst Stamped (sym exact) all)

  -- After a QueueAck of p below 2 ^ 63 that the queue takes, a Hello of that device from p or any
  -- older position is answered with the frames a Hello from p would have got before, so with nothing
  -- acknowledged; and a Hello of another device with those it would have got before.
  pub queue_ack-hello :
      (fails fails' : Faults) (p : ℕ)
      → h.server.offline ≡ some q
      → IsSound q.max_size q.db
      → (ack fails q (device_of id) p).0 ≡ ok tt
      → hi.last_acked_position ≤ p
      → p < int64_limit
      → (let drain = queue_drain codec fails' in
          let h' = (handle_queue_ack (some (queue_drain codec fails)) id p h).1 in
          ((handle_hello (some drain) m out id hi h').1.server.sent
            ≡ (handle_hello
                (some drain)
                m
                out
                id
                (record hi { last_acked_position = p })
                h).1.server.sent)
          × ((other : Identity)
              → device_of id ≢ device_of other
              → (handle_hello (some drain) m out other hi h').1.server.sent
                ≡ (handle_hello (some drain) m out other hi h).1.server.sent))
  unfolding handle_hello handle_queue_ack queue_drain
  queue_ack-hello fails fails' p wired sound taken older small =
      let (own, others) =
        ack-resume codec fails fails' q (device_of id) p hi.last_acked_position sound taken older
          small in
      let kept = is_ok-queue (ack fails q (device_of id) p) in
      let version = Bool-cases (protocol_version_supported hi.protocol_version) in
      (
        elim version [
          | inl supported ↦ rw (supported, wired, kept, own) refl
          | inr refused ↦ rw refused refl
        ],
        λ other apart. elim version [
          | inl supported ↦
              rw (supported, wired, kept, others (device_of other) hi.last_acked_position apart)
                refl
          | inr refused ↦ rw refused refl
        ],
      )
