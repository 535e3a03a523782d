-- ===== src/Prelude/Int.antt =====
-- Go's `int` as a signed integer: `negsuc n` is -(n + 1).
use Prim.Native.Nat.{ℕ, suc, ◌-◌, ◌+◌}
use mathlib.Core.Bool.{Bool, true, false}
use trae_api.Prelude.Tests.{leb, ltb, eqb, if◌then◌else◌}

pub data ℤ : Type 0 where
  pos : ℕ → ℤ
  negsuc : ℕ → ℤ

-- n < 0 and n == 0
abbrev pub is_neg : ℤ → Bool
is_neg (pos n) = false
is_neg (negsuc n) = true

abbrev pub is_zero : ℤ → Bool
is_zero (pos n) = eqb n 0
is_zero (negsuc n) = false

-- a - n, at a natural a
abbrev pub sub_ℤ : ℕ → ℤ → ℤ
sub_ℤ a (pos n) = if leb n a then pos (a - n) else negsuc (n - a - 1)
sub_ℤ a (negsuc n) = pos (a + suc n)

-- n > limit, at a natural limit
abbrev pub exceeds_ℤ : ℤ → ℕ → Bool
exceeds_ℤ (pos n) limit = ltb limit n
exceeds_ℤ (negsuc n) limit = false
