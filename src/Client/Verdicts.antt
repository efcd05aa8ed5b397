-- ===== src/Client/Verdicts.antt =====
-- What the turns that carry out a verdict, or find the machine closed, keep
-- (internal/control/client.go and internal/control/heartbeat.go).
use walkie.Prelude.{
  Option-cases, some_eq, subst, if-intro, Bool-cases, ℕ, suc, zero, ◌≡◌, refl, sym, ◌∙◌, String,
  Bool, true, false, Option, none, some, List, [], ◌∷◌, arith, if◌then◌else◌, inl, inr, get_elem?,
  set,
}
use walkie.Control.State.{State, disconnected, online, degraded, can_transition}
use walkie.Client.Config.{Config, validate}
use walkie.Client.Watchdog.{Watchdog, start_watchdog}
use walkie.Client.Supervisor.{
  Client, Phase, shaking, returned, Reader, Verdict, degrade, disconnect, change, refuses, shake,
  serve_with, convict, without,
}
use walkie.Client.Steady.{IsSteady, settling, fits, transition-Transitions}

settling-lone :
    (vs : List Verdict) (cur : State) (i : ℕ) (v : Verdict)
    → settling vs cur ≡ true
    → get_elem? vs i ≡ some v
    → (vs ≡ v ∷ []) × (i ≡ 0) × (settling vs cur ≡ true)
settling-lone [] cur i v fit here = absurd (ground (arith, here))
settling-lone (w ∷ []) cur zero v fit here = (ground (arith, here), refl, fit)
settling-lone (w ∷ []) cur (suc i) v fit here = absurd (ground (arith, here))
settling-lone (w ∷ x ∷ vs) cur i v fit here = absurd (ground (arith, fit))

fits-lone :
    (p : Phase) (stopped : Bool) (r : Reader) (vs : List Verdict) (cur : State) (i : ℕ)
    (v : Verdict)
    → fits p stopped r vs cur ≡ true
    → get_elem? vs i ≡ some v
    → (vs ≡ v ∷ []) × (i ≡ 0) × (settling vs cur ≡ true)
fits-lone p stopped r [] cur i v fit here = absurd (ground (arith, here))
fits-lone p stopped r (w ∷ vs) cur i v fit here =
    settling-lone (w ∷ vs) cur i v (ground (arith, fit)) here

if-true {ℓ} : {A : Type ℓ} (b : Bool) (x y : A) → b ≡ true → (if b then x else y) ≡ x
if-true b x y e = rw e refl

if-false {ℓ} : {A : Type ℓ} (b : Bool) (x y : A) → b ≡ false → (if b then x else y) ≡ y
if-false b x y e = rw e refl

start_watchdog-running :
    (cfg : Config) (now : ℕ) (w : Watchdog) → start_watchdog cfg now ≡ some w → w.stopped ≡ false
unfolding start_watchdog
start_watchdog-running cfg now w e = ground (arith, e, Option-cases (validate cfg))

module _ (now : ℕ) (c : Client) (steady : IsSteady c) where
  -- An open verdict is the only one, and the machine is where it found it.
  lone :
      (i : ℕ) (v : Verdict)
      → get_elem? c.verdicts i ≡ some v
      → c.mach.closed ≡ false
      → (c.verdicts ≡ v ∷ []) × (i ≡ 0) × (settling c.verdicts c.mach.cur ≡ true)
  lone i v here o =
      fits-lone c.phase c.watchdog.stopped c.reader c.verdicts c.mach.cur i v (steady.fit o) here

  shut_out :
      (session : ℕ) (device : String)
      → (let installed = record c { sess = some session; inflight = none; identity = device } in
          c.phase ≡ shaking
          → refuses now online "handshake completed" installed ≡ true
          → IsSteady
              (record (change now online "handshake completed" installed) { phase = returned }))
  shut_out session device at shut =
      let t = transition-Transitions now online "handshake completed" c.mach in
      record {
        running = ground (arith, steady.running, t.panics, t.refuses_closed, shut);
        fit = λ o. absurd (ground (arith, t.closed, t.refuses_closed, shut, o));
      }

  served :
      (o : Option Watchdog) (session : ℕ) (device : String)
      → (let installed = record c { sess = some session; inflight = none; identity = device } in
          c.phase ≡ shaking
          → refuses now online "handshake completed" installed ≡ false
          → ((w : Watchdog) → o ≡ some w → w.stopped ≡ false)
          → IsSteady (
              serve_with now o
                (record (change now online "handshake completed" installed) { attempt = 0 })))
  unfolding can_transition
  served none session device at goes fresh =
      let installed = record c { sess = some session; inflight = none; identity = device } in
      let t = transition-Transitions now online "handshake completed" c.mach in
      let t' =
        transition-Transitions now disconnected "watchdog refused"
          (change now online "handshake completed" installed).mach in
      record {
        running = ground (
          arith, at, steady.running, steady.fit, t.panics, t.cur, t.closed, t.refuses_closed,
          t'.panics,
        );
        fit = λ o.
            ground (arith, at, steady.fit, t.refuses_closed, t.closed, t.cur, t'.closed, t'.cur, o);
      }
  served (some w) session device at goes fresh =
      let t = transition-Transitions now online "handshake completed" c.mach in
      record {
        running = ground (arith, at, steady.running, steady.fit, t.panics);
        fit =
            λ o. ground (arith, at, steady.fit, t.refuses_closed, t.closed, t.cur, o, fresh w refl);
      }

  pub degraded-IsSteady :
      (i : ℕ)
      → get_elem? c.verdicts i ≡ some degrade
      → refuses now degraded "no inbound traffic" c ≡ false
      → IsSteady (record (change now degraded "no inbound traffic" c) {
        verdicts = set c.verdicts i disconnect;
      })
  unfolding can_transition
  degraded-IsSteady i here goes =
      let t = transition-Transitions now degraded "no inbound traffic" c.mach in
      let one = lone i degrade here in
      record {
        running = ground (arith, steady.running, t.panics, one);
        fit = λ o. ground (arith, steady.fit, t.closed, t.cur, o, one);
      }

  pub refused-IsSteady :
      (i : ℕ)
      → refuses now degraded "no inbound traffic" c ≡ true
      → IsSteady
          (record (change now degraded "no inbound traffic" c) { verdicts = without i c.verdicts })
  refused-IsSteady i shut =
      let t = transition-Transitions now degraded "no inbound traffic" c.mach in
      record {
        running = ground (arith, steady.running, t.panics, t.refuses_closed, shut);
        fit = λ o. absurd (ground (arith, t.closed, t.refuses_closed, shut, o));
      }

  pub disconnected-IsSteady :
      (i : ℕ)
      → get_elem? c.verdicts i ≡ some disconnect
      → IsSteady
          (record (change now disconnected "dead peer" c) { verdicts = without i c.verdicts })
  unfolding can_transition
  disconnected-IsSteady i here =
      let t = transition-Transitions now disconnected "dead peer" c.mach in
      let one = lone i disconnect here in
      record {
        running = ground (arith, steady.running, t.panics, one);
        fit = λ o. ground (arith, steady.fit, t.closed, t.cur, o, one);
      }

  pub convict-IsSteady :
      (i : ℕ) (o : Option Verdict) (c' : Client)
      → get_elem? c.verdicts i ≡ o
      → convict now i o c ≡ some c'
      → IsSteady c'
  convict-IsSteady i none c' here e = absurd (ground (arith, e))
  convict-IsSteady i (some degrade) c' here e =
      elim (Bool-cases (refuses now degraded "no inbound traffic" c)) [
        | inl shut ↦
            subst IsSteady (some_eq (sym (if-true _ _ _ shut) ∙ e)) (refused-IsSteady i shut)
        | inr goes ↦
            subst IsSteady (some_eq (sym (if-false _ _ _ goes) ∙ e)) (degraded-IsSteady i here goes)
      ]
  convict-IsSteady i (some disconnect) c' here e =
      subst IsSteady (some_eq e) (disconnected-IsSteady i here)

  pub shake-IsSteady :
      (cfg : Config) (session : ℕ) (device : String)
      → c.phase ≡ shaking
      → IsSteady (shake cfg now session device c)
  shake-IsSteady cfg session device at =
      if-intro IsSteady _ _ _ (λ shut. shut_out session device at shut)
        (λ goes.
          served (start_watchdog cfg now) session device at goes
            (λ w e. start_watchdog-running cfg now w e))
