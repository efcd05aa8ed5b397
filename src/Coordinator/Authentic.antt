-- ===== src/Coordinator/Authentic.antt =====
-- What becomes of a direct message and of a broadcast (internal/coordinator/routing.go).
use walkie.Prelude.{
  ℕ, ◌+◌, ◌<◌, ◌≡◌, refl, ap, String, Bool, true, false, not, ◌&&◌, Option, none, some, List, [],
  ◌∷◌, ◌++◌, arith, ltb, ◌==◌, str_eq, length, map, any, any-append, if-intro, ◌⊎◌, inl, inr,
}
use walkie.Wire.{
  Envelope, Payload, DirectMessage, BroadcastMessage, direct_message, broadcast_message,
  protocol_error, queue_refused,
}
use walkie.Message.Text.{validate_body}
use walkie.Coordinator.Routing.{
  OfflineSink, SinkError, capacity, other, Identity, device_of, Server, has, route_targets,
  targets_except, route_targets_except, stamped_delivery, reject_malformed, deliver_unroutable,
  handle_direct, handle_broadcast, is_error, unknown_to, held, hold,
}

-- An envelope that tells its receiver of a refusal.
abbrev pub is_refusal : Payload → Bool
is_refusal (protocol_error e) = true
is_refusal (queue_refused r) = true
is_refusal _ = false

widen : {A B C D : Type 0} → A ⊎ C ⊎ D → A ⊎ B ⊎ C ⊎ D
widen (inl a) = inl a
widen (inr x) = inr (inr x)

module _ {S : Type 0} (sink : OfflineSink S) (now out : ℕ) (id : Identity) (env : Envelope)
    (dm : DirectMessage) (s : Server S) where
  -- The message as it is delivered: the sender is the connection's identity, whatever the frame says.
  abbrev pub delivered_direct : Envelope
  delivered_direct =
      stamped_delivery now env (
        direct_message (record { recipient = dm.recipient; body = dm.body; sender = device_of id }))

  -- The sender alone hears that the message went nowhere.
  abbrev pub IsRefused : Server S → Type 0
  IsRefused s' =
      (e : Envelope) × (is_refusal e.payload ≡ true)
      × (s'.sent ≡ s.sent ++ (out, e) ∷ [])
      × (s'.messages ≡ s.messages)

  -- Every connection of the recipient gets it, once, and nobody else gets anything.
  abbrev pub IsRouted : Server S → Type 0
  IsRouted s' =
      (0 < length (route_targets dm.recipient s))
      × (s'.sent ≡ s.sent ++ map (λ w. (w, delivered_direct)) (route_targets dm.recipient s))
      × (s'.offline ≡ s.offline)
      × (s'.messages ≡ s.messages + 1)

  -- The recipient has no connection and its sink holds the message.
  abbrev pub IsHeld : Server S → Type 0
  IsHeld s' =
      (route_targets dm.recipient s ≡ [])
      × (offline : S) × (offline' : S) × (s.offline ≡ some offline)
      × (sink.deliver dm.recipient delivered_direct offline ≡ (none, offline'))
      × (s'.offline ≡ some offline')
      × (s'.sent ≡ s.sent)
      × (s'.messages ≡ s.messages + 1)

  -- The recipient has no connection and no sink holds it: none is wired, or it failed.
  abbrev pub IsDropped : Server S → Type 0
  IsDropped s' =
      (route_targets dm.recipient s ≡ [])
      × ((s.offline ≡ none)
          ⊎ ((offline : S) × (s.offline ≡ some offline)
              × ((sink.deliver dm.recipient delivered_direct offline).0 ≡ some other)))
      × (s'.sent ≡ s.sent)
      × (s'.messages ≡ s.messages)

  held-cases :
      (offline : S) (answer : Option SinkError × S)
      → route_targets dm.recipient s ≡ []
      → s.offline ≡ some offline
      → sink.deliver dm.recipient delivered_direct offline ≡ answer
      → IsRefused (held out dm.recipient answer s)
        ⊎ IsHeld (held out dm.recipient answer s)
        ⊎ IsDropped (held out dm.recipient answer s)
  held-cases offline (none, offline') away wired e =
      inr (inl (away, offline, offline', wired, e, refl, refl, refl))
  held-cases offline (some (capacity cap), offline') away wired e = inl (_, refl, refl, refl)
  held-cases offline (some other, offline') away wired e =
      inr (inr (away, inr (offline, wired, ap (λ x. x.0) e), refl, refl))

  hold-cases :
      (o : Option S)
      → route_targets dm.recipient s ≡ []
      → s.offline ≡ o
      → (let s' = hold sink out dm.recipient delivered_direct o s in
          IsRefused s' ⊎ IsHeld s' ⊎ IsDropped s')
  hold-cases none away wired = inr (inr (away, inl wired, refl, refl))
  hold-cases (some offline) away wired =
      held-cases offline (sink.deliver dm.recipient delivered_direct offline) away wired refl

  unroutable-cases :
      route_targets dm.recipient s ≡ []
      → (let s' = deliver_unroutable sink out dm.recipient delivered_direct s in
          IsRefused s' ⊎ IsHeld s' ⊎ IsDropped s')
  unfolding deliver_unroutable
  unroutable-cases away =
      if-intro (λ s'. IsRefused s' ⊎ IsHeld s' ⊎ IsDropped s') (unknown_to dm.recipient s.presence)
        _ _ (λ h. inl (_, refl, refl, refl)) (λ h. hold-cases s.offline away refl)

  no_targets : (ws : List ℕ) → ltb 0 (length ws) ≡ false → ws ≡ []
  no_targets [] e = refl
  no_targets (w ∷ ws) e = absurd (ground (arith, e))

  -- Every direct message ends in one of four ways, and the server's message count goes up by one
  -- where it is routed or held and stays where it is refused or dropped: it is refused to its sender
  -- alone; or written once to each connection of its recipient; or, the recipient being away, held by
  -- the sink; or dropped, there being no sink or a failing one. What is routed or held carries the
  -- authenticated identity of the connection as its sender, the server's time, position 0, and the
  -- frame's id, time and body.
  pub handle_direct-cases :
      (let s' = handle_direct sink now out id env dm s in
        IsRefused s' ⊎ IsRouted s' ⊎ IsHeld s' ⊎ IsDropped s')
  unfolding handle_direct reject_malformed
  handle_direct-cases =
      let P = λ (s' : Server S). IsRefused s' ⊎ IsRouted s' ⊎ IsHeld s' ⊎ IsDropped s' in
      if-intro P (str_eq dm.recipient "") _ _ (λ h. inl (_, refl, refl, refl))
        (λ h.
          if-intro P (is_error (validate_body dm.body)) _ _ (λ h. inl (_, refl, refl, refl))
            (λ h.
              if-intro P (ltb 0 (length (route_targets dm.recipient s))) _ _
                (λ some_targets. inr (inl (ground (arith, some_targets), refl, refl, refl)))
                (λ none_there. widen (unroutable-cases (no_targets _ none_there)))))

pub has-targets_except :
    (v : ℕ) (exclude : String) (routes : List (String × List ℕ))
    → has v (targets_except exclude routes)
      ≡ any (λ r. not (str_eq r.0 exclude) && has v r.1) routes
unfolding targets_except
has-targets_except v exclude [] = refl
has-targets_except v exclude ((device, ws) ∷ routes) = ground (
  arith,
  has-targets_except v exclude routes,
  any-append (λ x. x == v) ws (targets_except exclude routes),
)

module _ {S : Type 0} (now out : ℕ) (id : Identity) (env : Envelope) (bm : BroadcastMessage)
    (s : Server S) where
  abbrev pub delivered_broadcast : Envelope
  delivered_broadcast =
      stamped_delivery now env
        (broadcast_message (record { body = bm.body; sender = device_of id }))

  -- The sender alone hears that the body is no good.
  abbrev pub IsRejected : Server S → Type 0
  IsRejected s' =
      (is_error (validate_body bm.body) ≡ true)
      × (e : Envelope) × (is_refusal e.payload ≡ true)
      × (s'.sent ≡ s.sent ++ (out, e) ∷ [])

  -- It is written to the connections of the other devices, those and no more, and not held.
  abbrev pub IsFannedOut : Server S → Type 0
  IsFannedOut s' =
      (is_error (validate_body bm.body) ≡ false)
      × (targets : List ℕ) × (s'.sent ≡ s.sent ++ map (λ w. (w, delivered_broadcast)) targets)
      × ((v : ℕ) → has v targets ≡ any (λ r. not (str_eq r.0 (device_of id)) && has v r.1) s.routes)
      × (s'.offline ≡ s.offline)

  -- A broadcast with a bad body is refused to its sender alone. Any other is written, stamped with
  -- the authenticated identity, to a list of connections that holds exactly those of the other
  -- devices, none of them the sender's own device, and the offline sink is left as it was.
  pub handle_broadcast-cases :
      (let s' = handle_broadcast now out id env bm s in IsRejected s' ⊎ IsFannedOut s')
  unfolding handle_broadcast reject_malformed route_targets_except
  handle_broadcast-cases =
      if-intro (λ s'. IsRejected s' ⊎ IsFannedOut s') (is_error (validate_body bm.body)) _ _
        (λ bad. inl (bad, _, refl, refl))
        (λ good. inr (
          good,
          targets_except (device_of id) s.routes,
          refl,
          λ v. has-targets_except v (device_of id) s.routes,
          refl,
        ))
