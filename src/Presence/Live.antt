-- ===== src/Presence/Live.antt =====
-- Leases of the presence tracker (internal/coordinator/presence/tracker.go): what holds in every run.
use walkie.Prelude.{
  subst, ℕ, suc, ◌+◌, ◌%◌, ◌^◌, ◌≤◌, ◌<◌, ◌≡◌, refl, sym, ap, ◌∙◌, String, Bool, true, false, none,
  some, List, ◌∷◌, arith, str_eq, eq_iff, lookup, insert, lookup-insert, Bool-cases, inl, inr,
}
use native.Mathlib.Nat.{mod-eq_of_lt}
use walkie.Presence.Tracker.{
  Time, Device, Watch, Tracker, or_new, device_state, mark_alive, mark_offline, renewed, ended,
}
use walkie.Presence.Reached.{IsStarted}

-- When a device's lease runs out.
abbrev pub due : ℕ → Time → Time
due ttl none = none
due ttl (some seen) = some (seen + ttl)

abbrev pub watch_of : String → ℕ → ℕ → Watch
watch_of a gen deadline = record { device = a; gen = gen; deadline = deadline }

-- One device's lease after `n` events, among the watches started. A watch of the device's generation
-- stands for the lease that it has now.
pub record LiveAt (n ttl : ℕ) (closed : Bool) (ws : List Watch) (a : String) (d : Device)
    : Type 0 where
  pub counted : d.gen ≤ n
  pub idle : d.online ≡ false → d.lease ≡ none
  pub leased :
      d.online ≡ true
      → (seen : ℕ) × (d.last_seen ≡ some seen)
        × (closed ≡ false → d.lease ≡ some (seen + ttl))
        × IsStarted (watch_of a d.gen (seen + ttl)) ws
  pub past : (gen deadline : ℕ) → IsStarted (watch_of a gen deadline) ws → gen ≤ d.gen
  pub current :
      (deadline : ℕ)
      → IsStarted (watch_of a d.gen deadline) ws
      → d.online ≡ true
      → due ttl d.last_seen ≡ some deadline

abbrev pub IsLive : ℕ → Tracker → Type 0
IsLive n t = (a : String) → LiveAt n t.ttl t.closed t.started a (device_state a t)

-- Two devices that agree on the liveness facts.
abbrev pub SameFacts : Device → Device → Type 0
SameFacts d d' =
    (d'.online ≡ d.online) × (d'.last_seen ≡ d.last_seen) × (d'.lease ≡ d.lease) × (d'.gen ≡ d.gen)

module _ {n ttl : ℕ} {closed : Bool} {ws : List Watch} {a : String} {d : Device}
    (live : LiveAt n ttl closed ws a d) where
  pub LiveAt-same : (d' : Device) → SameFacts d d' → LiveAt n ttl closed ws a d'
  LiveAt-same d' same = record {
    counted = rw same.3 live.counted;
    idle = λ off. ground (arith, live.idle, same);
    leased = λ on.
        let (seen, at, lease, watch) = live.leased (sym same.0 ∙ on) in
        (seen, same.1 ∙ at, λ running. same.2 ∙ lease running, rw same.3 watch);
    past = λ gen deadline known. omega (arith, live.past gen deadline known, same.3);
    current = λ deadline known on.
        rw same.1 (live.current deadline (rw same.3 at known) (sym same.0 ∙ on));
  }

  pub LiveAt-later : LiveAt (suc n) ttl closed ws a d
  LiveAt-later = record {
    counted = omega (arith, live.counted);
    idle = live.idle;
    leased = live.leased;
    past = live.past;
    current = live.current;
  }

  LiveAt-ended : (seen : Time) → LiveAt (suc n) ttl closed ws a (ended seen d)
  LiveAt-ended seen = record {
    counted = omega (arith, live.counted);
    idle = λ off. refl;
    leased = λ on. absurd (ground (arith, on));
    past = live.past;
    current = λ deadline known on. absurd (ground (arith, on));
  }

  pub LiveAt-unleased : LiveAt (suc n) ttl true ws a (record d { lease = none })
  LiveAt-unleased = record {
    counted = omega (arith, live.counted);
    idle = λ off. refl;
    leased = λ on.
        let (seen, at, lease, watch) = live.leased on in
        (seen, at, λ running. absurd (ground (arith, running)), watch);
    past = live.past;
    current = live.current;
  }

  LiveAt-other :
      (b : String) (gen deadline : ℕ)
      → str_eq b a ≡ false
      → LiveAt (suc n) ttl closed (watch_of b gen deadline ∷ ws) a d
  LiveAt-other b gen deadline e = record {
    counted = omega (arith, live.counted);
    idle = live.idle;
    leased = λ on. let (seen, at, lease, watch) = live.leased on in (seen, at, lease, inr watch);
    past = λ gen' deadline' known. elim known [
      | inl mine ↦ absurd (ground (arith, ap (λ w. w.device) mine, eq_iff b a))
      | inr known' ↦ live.past gen' deadline' known'
    ];
    current = λ deadline' known on. elim known [
      | inl mine ↦ absurd (ground (arith, ap (λ w. w.device) mine, eq_iff b a))
      | inr known' ↦ live.current deadline' known' on
    ];
  }

  LiveAt-renewed :
      (now : ℕ)
      → suc n < 2 ^ 64
      → LiveAt
          (suc n)
          ttl
          closed
          (watch_of a ((d.gen + 1) % 2 ^ 64) (now + ttl) ∷ ws)
          a
          (renewed ttl now d)
  LiveAt-renewed now room =
      let gen : (d.gen + 1) % 2 ^ 64 ≡ d.gen + 1 = mod-eq_of_lt (omega (arith, live.counted)) in
      record {
        counted = omega (arith, live.counted);
        idle = λ off. absurd (ground (arith, off));
        leased = λ on. (now, refl, λ running. refl, inl refl);
        past = λ gen' deadline' known. elim known [
          | inl mine ↦ omega (arith, ap (λ w. w.gen) mine)
          | inr known' ↦ omega (arith, gen, live.past gen' deadline' known')
        ];
        current = λ deadline' known on. elim known [
          | inl mine ↦ ap (λ w. some w.deadline) mine
          | inr known' ↦
              absurd (omega (arith, gen, live.past ((d.gen + 1) % 2 ^ 64) deadline' known'))
        ];
      }

pub insert_here :
    (a b : String) (d : Device) (devices : List (String × Device))
    → str_eq b a ≡ true
    → or_new (lookup a (insert b d devices)) ≡ d
insert_here a b d devices e = ground (arith, e, lookup-insert b a d devices)

pub insert_there :
    (a b : String) (d : Device) (devices : List (String × Device))
    → str_eq b a ≡ false
    → or_new (lookup a (insert b d devices)) ≡ or_new (lookup a devices)
insert_there a b d devices e = ground (arith, e, lookup-insert b a d devices)

-- One device changed: what holds of it now and of the others is to be shown.
changed :
    {n ttl : ℕ} {closed : Bool} {ws : List Watch} (b : String) (d : Device)
    (devices : List (String × Device))
    → LiveAt n ttl closed ws b d
    → ((a : String) → str_eq b a ≡ false → LiveAt n ttl closed ws a (or_new (lookup a devices)))
    → (a : String) → LiveAt n ttl closed ws a (or_new (lookup a (insert b d devices)))
changed {n} {ttl} {closed} {ws} b d devices this others a = elim (Bool-cases (str_eq b a)) [
  | inl e ↦
      subst (LiveAt n ttl closed ws a) (sym (insert_here a b d devices e))
        (subst (λ x. LiveAt n ttl closed ws x d) ((eq_iff b a).0 e) this)
  | inr e ↦ subst (LiveAt n ttl closed ws a) (sym (insert_there a b d devices e)) (others a e)
]

module _ (n : ℕ) (t : Tracker) (live : IsLive n t) where
  pub alive-IsLive :
      (now : ℕ) (stored : Bool) (b : String) (d : Device)
      → SameFacts (device_state b t) d
      → suc n < 2 ^ 64
      → IsLive (suc n) (mark_alive now stored b d t)
  alive-IsLive now stored b d same room =
      changed b (renewed t.ttl now d) t.devices
        (LiveAt-renewed (LiveAt-same (live b) d same) now room)
        (λ a e. LiveAt-other (live a) b ((d.gen + 1) % 2 ^ 64) (now + t.ttl) e)

  pub offline-IsLive :
      (stored : Bool) (b : String) (seen : Time) (d : Device)
      → SameFacts (device_state b t) d
      → IsLive (suc n) (mark_offline stored b seen d t)
  offline-IsLive stored b seen d same =
      changed b (ended seen d) t.devices (LiveAt-ended (LiveAt-same (live b) d same) seen)
        (λ a e. LiveAt-later (live a))

  pub put-IsLive :
      (b : String) (d : Device)
      → SameFacts (device_state b t) d
      → (a : String)
      → LiveAt (suc n) t.ttl t.closed t.started a (or_new (lookup a (insert b d t.devices)))
  put-IsLive b d same =
      changed b d t.devices (LiveAt-later (LiveAt-same (live b) d same))
        (λ a e. LiveAt-later (live a))
