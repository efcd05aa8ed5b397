-- ===== src/Prelude/Int.antt =====
-- Signed machine integers. An `int64` is an integer, and a `uint64` that the code converts is read
-- as its two's complement.
use Prim.Native.Nat.{ℕ, ◌-◌}
use mathlib.Core.Bool.{Bool, true, false}
use walkie.Prelude.Tests.{ltb, leb, if◌then◌else◌}

-- `negsuc n` is -(n + 1).
pub data ℤ : Type 0 where
  pos : ℕ → ℤ
  negsuc : ℕ → ℤ

abbrev pub leb_ℤ : ℤ → ℤ → Bool
leb_ℤ (pos a) (pos b) = leb a b
leb_ℤ (pos a) (negsuc b) = false
leb_ℤ (negsuc a) (pos b) = true
leb_ℤ (negsuc a) (negsuc b) = leb b a

abbrev pub ltb_ℤ : ℤ → ℤ → Bool
ltb_ℤ (pos a) (pos b) = ltb a b
ltb_ℤ (pos a) (negsuc b) = false
ltb_ℤ (negsuc a) (pos b) = true
ltb_ℤ (negsuc a) (negsuc b) = ltb b a

-- `x <= 0`
abbrev pub is_nonpositive : ℤ → Bool
is_nonpositive x = leb_ℤ x (pos 0)

-- `int64(u)` of a `uint64`
abbrev pub int64 : ℕ → ℤ
int64 u = if ltb u 9223372036854775808 then pos u else negsuc (18446744073709551615 - u)
