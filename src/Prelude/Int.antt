-- ===== src/Prelude/Int.antt =====
-- Signed 64-bit values as integers over the native numbers.
use Prim.Native.Nat.{ℕ, suc, ◌-◌, ◌%◌}
use mathlib.Core.Bool.{Bool, true, false}
use cpa_plugin_key_billing_m.Prelude.Tests.{ltb, leb, ◌==◌, if◌then◌else◌}

-- `negsuc n` is -(n + 1).
pub data ℤ : Type 0 where
  pos : ℕ → ℤ
  negsuc : ℕ → ℤ

abbrev pub pos_part : ℤ → ℕ
pos_part (pos n) = n
pos_part (negsuc n) = 0

abbrev pub neg_part : ℤ → ℕ
neg_part (pos n) = 0
neg_part (negsuc n) = suc n

abbrev pub is_negative : ℤ → Bool
is_negative (pos n) = false
is_negative (negsuc n) = true

-- `0 < z`
abbrev pub is_positive : ℤ → Bool
is_positive z = ltb 0 (pos_part z)

-- a - b, as an integer.
abbrev pub sub_ℕ : ℕ → ℕ → ℤ
sub_ℕ a b = if leb b a then pos (a - b) else negsuc (b - a - 1)

abbrev pub neg_ℕ : ℕ → ℤ
neg_ℕ n = if n == 0 then pos 0 else negsuc (n - 1)

-- Go's `%`, which takes the sign of the dividend; the divisor is positive.
abbrev pub rem : ℤ → ℕ → ℤ
rem (pos n) p = pos (n % p)
rem (negsuc n) p = neg_ℕ (suc n % p)
