-- ===== src/Prelude/Order.antt =====
-- The order of names, that of their characters.
use Prim.Native.Nat.{Ordering}
use Prim.Native.String.compare.{cons-nil, cons-cons}
use Prim.Native.String.{String, [], ◌∷◌, compare}
use mathlib.Core.Path.{◌≡◌, ap, subst}
use mathlib.Core.Logic.{inl, inr}
use mathlib.Core.Bool.{Bool, true, false}
use native.Mathlib.Omega.{arith}
use text.Mathlib.TextPositions.{compare_refl}
use walkie.Prelude.Tests.{Bool-cases}
use walkie.Prelude.Keys.{str_eq, eq_iff}

abbrev is_lt : Ordering → Bool
is_lt Ordering.lt = true
is_lt _ = false

abbrev pub before : String → String → Bool
before s t = is_lt (compare s t)

before_irrefl : (s : String) → before s s ≡ false
before_irrefl s = ap is_lt (compare_refl s)

pub before_apart : (s t : String) → before s t ≡ true → str_eq s t ≡ false
before_apart s t e = elim (Bool-cases (str_eq s t)) [
  | inl same ↦
      let not_itself = subst (λ x. before s x ≡ false) ((eq_iff s t).0 same) (before_irrefl s) in
      absurd (ground (arith, e, not_itself))
  | inr other ↦ other
]

pub before_asym : (s t : String) → before s t ≡ true → before t s ≡ false
before_asym [] [] e = before_irrefl []
before_asym [] (d ∷ t) e = ap is_lt (cons-nil d t)
before_asym (c ∷ s) [] e = absurd (ground (arith, e, cons-nil c s))
before_asym (c ∷ s) (d ∷ t) e =
    ground (arith, e, cons-cons c d s t, cons-cons d c t s, before_asym s t)
