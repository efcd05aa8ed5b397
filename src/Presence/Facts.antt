-- ===== src/Presence/Facts.antt =====
-- Labels, connections and the facts they leave alone (internal/coordinator/presence/tracker.go and
-- internal/coordinator/presence/status.go).
use walkie.Prelude.{
  subst, ◌⊎◌, ℕ, ◌+◌, ◌-◌, ◌≤◌, ◌<◌, ◌≡◌, refl, ap, ◌∙◌, String, Bool, true, false, Option, none,
  some, List, arith, ltb, str_eq, eq_iff, eq_refl, length, lookup, insert, lookup-insert,
  Bool-cases, inl, inr,
}
use walkie.Wire.{Bytes}
use walkie.Message.Text.{valid_string}
use walkie.Presence.Tracker.{
  Device, Tracker, or_new, device_state, mark_alive, renewed, connection_established,
  connection_lost, lose,
}
use walkie.Presence.Status.{
  set_status, StatusError, status_too_long, status_not_utf8, tracker_closed, status_not_stored,
  relabel, labelled,
}
use walkie.Presence.Live.{SameFacts, insert_there}

lookup_put {ℓ} :
    {V : Type ℓ} (b : String) (v : V) (names : List (String × V))
    → lookup b (insert b v names) ≡ some v
lookup_put b v names = ground (arith, lookup-insert b b v names, eq_refl b)

pub device_put :
    (b : String) (d : Device) (devices : List (String × Device))
    → or_new (lookup b (insert b d devices)) ≡ d
device_put b d devices = ap or_new (lookup_put b d devices)

relabel-SameFacts :
    (a : String) (now : ℕ) (b : String) (text : Bytes) (t : Tracker)
    → SameFacts (device_state a t) (device_state a (relabel now b text t))
relabel-SameFacts a now b text t = elim (Bool-cases (str_eq b a)) [
  | inl e ↦
      let same = (eq_iff b a).0 e in
      let put =
        subst (λ x. device_state x (relabel now b text t) ≡ labelled now text (device_state x t))
          same (device_put b (labelled now text (device_state b t)) t.devices) in
      (
        ap (λ d. d.online) put,
        ap (λ d. d.last_seen) put,
        ap (λ d. d.lease) put,
        ap (λ d. d.gen) put,
      )
  | inr e ↦
      let kept : device_state a (relabel now b text t) ≡ device_state a t =
        insert_there a b (labelled now text (device_state b t)) t.devices e in
      (
        ap (λ d. d.online) kept,
        ap (λ d. d.last_seen) kept,
        ap (λ d. d.lease) kept,
        ap (λ d. d.gen) kept,
      )
]

-- Losing one of several connections.
lose_one :
    (later : ℕ) (stored : Bool) (b : String) (d : Device) (o : Option Device) (t : Tracker)
    → o ≡ some d
    → 1 < d.conns
    → lose later stored b o t
      ≡ record t { devices = insert b (record d { conns = d.conns - 1 }) t.devices }
lose_one later stored b d none t e more = absurd (ground (arith, e))
lose_one later stored b d (some d') t e more =
    let same : d' ≡ d = ground (arith, e) in rw same (ground arith)

-- SetStatus in all its branches: an error leaves the tracker as it was; with no error the text is
-- at most 256 bytes of valid UTF-8, the device carries it, it is stored, and no device's online flag,
-- last-seen time, lease or generation has changed.
pub set_status_facts :
    (now : ℕ) (stored : Bool) (b : String) (text : Bytes) (t : Tracker)
    → ((e : StatusError) × (set_status now stored b text t ≡ (some e, t)))
      ⊎ ((t' : Tracker) × (set_status now stored b text t ≡ (none, t'))
          × (length text ≤ 256)
          × (valid_string text ≡ true)
          × ((device_state b t').text ≡ text)
          × (lookup b t'.tables.statuses ≡ some (text, some (some now)))
          × ((a : String) → SameFacts (device_state a t) (device_state a t')))
unfolding set_status
set_status_facts now stored b text t = elim (Bool-cases (ltb 256 (length text))) [
  | inl long ↦ inl (status_too_long, ground arith)
  | inr fits ↦ elim (Bool-cases (valid_string text)) [
    | inr bad ↦ inl (status_not_utf8, ground arith)
    | inl good ↦ elim (Bool-cases t.closed) [
      | inl shut ↦ inl (tracker_closed, ground arith)
      | inr running ↦ elim (Bool-cases stored) [
        | inr lost ↦ inl (status_not_stored, ground arith)
        | inl kept ↦ inr (
          relabel now b text t,
          ground arith,
          ground arith,
          good,
          ap (λ d. d.text) (device_put b (labelled now text (device_state b t)) t.devices),
          lookup_put b (text, some (some now)) t.tables.statuses,
          λ a. relabel-SameFacts a now b text t,
        )
      ]
    ]
  ]
]

established :
    (now : ℕ) (stored : Bool) (b : String) (t : Tracker)
    → t.closed ≡ false
    → connection_established now stored b t
      ≡ mark_alive now stored b
          (record (device_state b t) { conns = (device_state b t).conns + 1 })
          t
unfolding connection_established
established now stored b t running = rw running refl

lost :
    (later : ℕ) (stored : Bool) (b : String) (t : Tracker)
    → t.closed ≡ false
    → connection_lost later stored b t ≡ lose later stored b (lookup b t.devices) t
unfolding connection_lost
lost later stored b t running = ground (arith, running)

-- A reconnect that overlaps the old connection: on an open tracker, where a connected device
-- connects again and the old connection is then lost, the device is online, was last seen at the
-- new connection, and holds as many connections as before; subscribers hear nothing of the loss.
pub overlap_stays_online :
    (now later : ℕ) (stored stored' : Bool) (b : String) (t : Tracker)
    → t.closed ≡ false
    → 0 < (device_state b t).conns
    → (let t' = connection_established now stored b t in
        let t'' = connection_lost later stored' b t' in
        ((device_state b t'').online ≡ true)
        × ((device_state b t'').last_seen ≡ some now)
        × ((device_state b t'').conns ≡ (device_state b t).conns)
        × (t''.subs ≡ t'.subs))
overlap_stays_online now later stored stored' b t running connected =
    let d = device_state b t in
    let d' : Device = renewed t.ttl now (record d { conns = d.conns + 1 }) in
    let t' : Tracker = mark_alive now stored b (record d { conns = d.conns + 1 }) t in
    let first : connection_established now stored b t ≡ t' = established now stored b t running in
    let second : connection_lost later stored' b t'
        ≡ record t' { devices = insert b (record d' { conns = d'.conns - 1 }) t'.devices } =
      lost later stored' b t' running
      ∙ lose_one later stored' b d' (lookup b t'.devices) t' (lookup_put b d' t.devices)
          (omega (arith, connected)) in
    let put = device_put b (record d' { conns = d'.conns - 1 }) t'.devices in
    rw (first, second)
      (ap (λ x. x.online) put, ap (λ x. x.last_seen) put, ap (λ x. x.conns) put ∙ omega arith, refl)
