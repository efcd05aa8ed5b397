-- ===== src/App/Outgoing.antt =====
-- What becomes of a message that the user sends (cmd/walkie/app.go).
use Prim.Native.String.{slice, ◌++◌ as str_append}
use text.Mathlib.Text.{starts_with}
use text.Mathlib.TextPositions.{starts_with-append, slice-append_right, len-append}
use walkie.Prelude.{
  ◌≡◌, refl, sym, ap, ◌∙◌, subst, String, Bool, true, false, none, some, List, [], ◌∷◌, ◌++◌, arith,
  suc, false, Bool-cases, inl, inr, str_eq, eq_iff,
}
use walkie.Wire.{Bytes, Envelope, direct_message, just, public_key_announce}
use walkie.Queue.Framing.{Codec}
use walkie.Message.Text.{conversation_key, broadcast_conversation, validate_body}
use walkie.Message.Window.{IsRing}
use walkie.Message.Scrollback.{append-Appends}
use walkie.Hub.Messages.{MessageHub, send_direct, own_message, composed}
use walkie.Client.Outbox.{Outbox, has_id, enqueue, pending, drain_outbox}
use walkie.Control.State.{online}
use walkie.Client.Drain.{Holds, Holds-decoded, drain_outbox_empties, enqueue-Holds}
use walkie.App.Acked.{send}
use walkie.App.Assembled.{
  App, Moment, held, trim_prefix, hub_ref, hub_or_new, composed_by, transmitted, after_compose,
  with_hub, send_from_ui, notify, recorded, held_after, announce_key,
}
use walkie.App.Drains.{starting, returned, run_drain, loop_turns, after_drain, watch_conn}
use walkie.App.Turns.{run_drain-drain_outbox}

trim-conversation_key : (peer : String) → trim_prefix (conversation_key peer) "dm:" ≡ peer
unfolding trim_prefix conversation_key
trim-conversation_key peer =
    rw (starts_with-append "dm:" peer)
      (ap (slice (str_append "dm:" peer) 3) (len-append "dm:" peer) ∙ slice-append_right "dm:" peer)

key_not_broadcast : (peer : String) → str_eq (conversation_key peer) broadcast_conversation ≡ false
unfolding conversation_key
key_not_broadcast peer = elim (Bool-cases (str_eq (str_append "dm:" peer) "broadcast")) [
  | inl same ↦ absurd (
      ground (
        arith,
        subst (λ s. starts_with s "dm:" ≡ true)
            ((eq_iff (str_append "dm:" peer) "broadcast").0 same) (starts_with-append "dm:" peer),
      ))
  | inr other ↦ other
]

held_after-stored :
    (e : Bool × Outbox) (a : App)
    → e.0 ≡ true
    → held_after e a ≡ (some held, record a { box = e.1 })
held_after-stored (true, box) a stored = refl
held_after-stored (false, box) a stored = absurd (ground (arith, stored))

enqueue_stores :
    (codec : Codec) (env : Envelope) (b : Bytes) (stored : Bool) (o : Outbox)
    → codec.marshal env ≡ some b
    → str_eq env.message_id "" ≡ false
    → has_id env.message_id o.rows ≡ false
    → stored ≡ true
    → (enqueue codec stored env o).0 ≡ true
unfolding enqueue
enqueue_stores codec env b stored o marshals named new stores =
    rw (named, marshals, stores, new) refl

announce_key_sends :
    (pub_key : Bytes) (m : Moment) (a : App)
    → m.goes ≡ (λ env. true)
    → (announce_key m pub_key a).link.sent ≡ a.link.sent ++ just (public_key_announce pub_key) ∷ []
unfolding announce_key send
announce_key_sends pub_key m a up =
    let announces : m.goes (just (public_key_announce pub_key)) ≡ true =
      ap (λ g. g (just (public_key_announce pub_key))) up in
    rw announces refl

-- A drain that finds none running, and whose sends and statements all succeed.
lone_drain_empties :
    (codec : Codec) (goes : Envelope → Bool) (envs : List Envelope) (a : App)
    → Holds codec a.box.rows envs
    → goes ≡ (λ env. true)
    → a.draining ≡ false
    → (a' : App) × (run_drain codec true goes (λ env. true) (suc (loop_turns envs)) starting a
        ≡ (returned, a'))
      × (a'.link.sent ≡ a.link.sent ++ envs)
      × (a'.box.rows ≡ [])
      × (a'.draining ≡ false)
unfolding pending
lone_drain_empties codec goes envs a h up free =
    let r = drain_outbox codec true goes (λ env. true) a.box in
    let drained = drain_outbox_empties codec goes envs a.box h up in
    (
      after_drain a r.0 r.1,
      run_drain-drain_outbox codec true goes (λ env. true) envs a free
          (Holds-decoded codec a.box.rows envs h),
      ap (λ x. a.link.sent ++ x) drained.0,
      drained.1,
      refl,
    )

module _ (m : Moment) (peer : String) (body : Bytes) (h : MessageHub) (ring : IsRing h.log.dedup)
    (named : str_eq peer "" ≡ false) (valid : validate_body body ≡ none) where
  abbrev pub posted : Envelope
  posted =
      composed m.now m.id (direct_message (record { recipient = peer; body = body; sender = "" }))

  abbrev displayed_hub : MessageHub
  displayed_hub = record h {
    log = (append-Appends h.log (own_message m.now m.id h.local peer body) ring).after;
  }

  composed_by-posted :
      composed_by m (conversation_key peer) body h ≡ some (inr posted, displayed_hub)
  unfolding send_direct
  composed_by-posted =
      rw
        (
          key_not_broadcast peer,
          trim-conversation_key peer,
          named,
          valid,
          (append-Appends h.log (own_message m.now m.id h.local peer body) ring).returns,
        )
        refl

  -- The app after SendFromUI, but for what becomes of the frame.
  abbrev filed_app : App → App
  filed_app a = notify (own_message m.now m.id a.connected_as peer body) (
      recorded m a.connected_as (own_message m.now m.id a.connected_as peer body)
        (record a { hub = some displayed_hub }))

  send_from_ui-posted :
      (codec : Codec) (a : App)
      → a.hub ≡ some h
      → send_from_ui codec m (conversation_key peer) body a
        ≡ some (transmitted codec m posted (send m.goes posted a.link) (filed_app a))
  unfolding send_from_ui hub_ref notify
  send_from_ui-posted codec a known =
      ap (λ o. with_hub codec m (conversation_key peer) body (hub_or_new o a)) known
      ∙ ap (after_compose codec m body a) composed_by-posted

  -- A direct message that is sent while the connection is down is not lost. The app has a hub with a
  -- sound filter, the recipient has a name, the body is valid, the message has an id that the outbox does
  -- not hold and is read back as it was marshalled, the outbox stores, and no drain is running: SendFromUI
  -- says that the message is held and sends no frame. The next time the connection is online, the key
  -- announcement goes out and one drain is started; and that drain, if nothing runs between its turns and
  -- all its sends and statements succeed, returns, having sent all that was held, in order, the message
  -- last, and leaves the outbox empty and no drain running.
  pub offline_send_goes_out :
      (codec : Codec) (b pub_key : Bytes) (envs : List Envelope) (later : Moment) (a : App)
      → a.hub ≡ some h
      → Holds codec a.box.rows envs
      → codec.marshal posted ≡ some b
      → codec.unmarshal b ≡ some posted
      → str_eq m.id "" ≡ false
      → has_id m.id a.box.rows ≡ false
      → m.stored ≡ true
      → m.goes posted ≡ false
      → later.goes ≡ (λ env. true)
      → a.draining ≡ false
      → (a' : App) × (send_from_ui codec m (conversation_key peer) body a ≡ some (some held, a'))
        × (a'.link ≡ a.link)
        × ((watch_conn pub_key later online a').0 ≡ starting ∷ [])
        × (a'' : App) × (run_drain codec true later.goes
              (λ env. true)
              (suc (loop_turns (envs ++ posted ∷ [])))
              starting
              (watch_conn pub_key later online a').1
            ≡ (returned, a''))
        × (a''.link.sent
            ≡ (a.link.sent ++ just (public_key_announce pub_key) ∷ []) ++ (envs ++ posted ∷ []))
        × (a''.box.rows ≡ [])
        × (a''.draining ≡ false)
  unfolding send notify watch_conn announce_key
  offline_send_goes_out codec b pub_key envs later a known h marshals unmarshals named_id new stores
        down up free =
      let taken = enqueue_stores codec posted b m.stored a.box marshals named_id new stores in
      let e = enqueue codec m.stored posted a.box in
      let holds : Holds codec e.1.rows (envs ++ posted ∷ []) =
        subst (λ x. Holds codec (enqueue codec x posted a.box).1.rows (envs ++ posted ∷ []))
          (sym stores)
          (enqueue-Holds codec posted b envs a.box h marshals unmarshals
            (enqueue_stores codec posted b true a.box marshals named_id new refl)) in
      let a' : App = record (filed_app a) { box = e.1 } in
      let drains =
        lone_drain_empties codec later.goes (envs ++ posted ∷ [])
          (watch_conn pub_key later online a').1 holds up free in
      (
        a',
        send_from_ui-posted codec a known
            ∙ rw down (ap some (held_after-stored e (filed_app a) taken)),
        refl,
        refl,
        drains.0,
        drains.1,
        drains.2 ∙ ap (λ x. x ++ (envs ++ posted ∷ [])) (announce_key_sends pub_key later a' up),
        drains.3,
        drains.4,
      )
