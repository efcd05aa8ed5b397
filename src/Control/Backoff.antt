-- ===== src/Control/Backoff.antt =====
-- The reconnect backoff (internal/control/backoff.go).
use native.Mathlib.Nat.{pow-zero, pow-succ', mul_assoc, one-le-pow, mod-eq_of_lt}
use walkie.Prelude.{
  Bool-cases, ℕ, suc, zero, ◌*◌, ◌^◌, ◌-◌, ◌%◌, ◌≤◌, ◌<◌, ◌≡◌, sym, ap, ◌∙◌, not, Option, none,
  some, arith, ltb, leb, ◌==◌, if◌then◌else◌, min, inl, inr, int64, is_nonpositive,
}

pub record Backoff : Type 0 where
  pub base : ℕ
  pub cap : ℕ

-- NewBackoff; a duration that is not positive is 0 here.
unfoldable pub new_backoff : ℕ → ℕ → Option Backoff
new_backoff base cap =
    if base == 0
    then none
    else if cap == 0
    then none
    else if ltb cap base
    then none
    else some (record { base = base; cap = cap })

-- The loop of Delay: `d *= 2` on int64 nanoseconds, clamped where it overflows.
unfoldable pub doubled : ℕ → ℕ → ℕ → ℕ
doubled zero cap d = d
doubled (suc attempt) cap d =
    let twice = d * 2 % 2 ^ 64 in
    let rest = doubled attempt cap twice in
    if not (ltb d cap) then d else if is_nonpositive (int64 twice) then cap else rest

-- Delay. `jitter` is the product of the envelope and a random factor, in floating point.
unfoldable pub delay : (ℕ → ℕ) → ℕ → Backoff → ℕ
unfolding doubled
delay jitter attempt b =
    let d = doubled attempt b.cap b.base in
    let envelope = if ltb d b.cap then d else b.cap in
    if leb envelope (jitter envelope) then envelope - 1 else jitter envelope

scaled : (d n : ℕ) → d * 2 ^ suc n ≡ d * 2 * 2 ^ n
scaled d n = ap (λ x. d * x) (pow-succ' 2 n) ∙ sym (mul_assoc d 2 (2 ^ n))

scaled_le : (d n : ℕ) → d ≤ d * 2 ^ n
scaled_le d n = grind (arith, one-le-pow n 2 (omega arith))

doubled-min :
    (attempt cap d : ℕ)
    → 0 < d
    → cap < 2 ^ 63
    → min cap (doubled attempt cap d) ≡ min cap (d * 2 ^ attempt)
unfolding doubled
doubled-min zero cap d positive small = rw (pow-zero 2) (ap (min cap) (omega arith))
doubled-min (suc attempt) cap d positive small = elim (Bool-cases (ltb d cap)) [
  | inr above ↦ ground (arith, scaled_le d (suc attempt), above)
  | inl below ↦
      let twice : d * 2 % 2 ^ 64 ≡ d * 2 = mod-eq_of_lt (ground arith) in
      elim (Bool-cases (is_nonpositive (int64 (d * 2)))) [
        | inl over ↦
            rw twice (ground (arith, over, below, scaled d attempt, scaled_le (d * 2) attempt))
        | inr fits ↦
            let rest = doubled-min attempt cap (d * 2) (omega arith) small in
            rw twice (ground (arith, fits, below, scaled d attempt, rest))
      ]
]

-- For every jitter, attempt and backoff made by NewBackoff with int64 durations, the delay is below
-- both the cap and base · 2 ^ attempt: the doubling never wraps into a shorter or a longer envelope.
-- A jitter already below that envelope is the delay; any other is cut to one nanosecond below it.
pub delay_bounded :
    (jitter : ℕ → ℕ) (attempt base cap : ℕ) (b : Backoff)
    → cap < 2 ^ 63
    → new_backoff base cap ≡ some b
    → (delay jitter attempt b < min cap (base * 2 ^ attempt))
      × (delay jitter attempt b
          ≡ min (jitter (min cap (base * 2 ^ attempt))) (min cap (base * 2 ^ attempt) - 1))
unfolding new_backoff delay
delay_bounded jitter attempt base cap b small made =
    let positive : 0 < base = ground (arith, made) in
    let ordered : base ≤ cap = ground (arith, made) in
    let b_cap : b.cap ≡ cap = ground (arith, made) in
    let b_base : b.base ≡ base = ground (arith, made) in
    let envelope : (if ltb (doubled attempt b.cap b.base) b.cap
          then doubled attempt b.cap b.base
          else b.cap)
        ≡ min cap (base * 2 ^ attempt) =
      rw (b_cap, b_base) (ground (arith, doubled-min attempt cap base positive small)) in
    let size = scaled_le base attempt in rw envelope (ground arith, ground arith)
