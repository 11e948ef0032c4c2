-- ===== src/Prelude/Float64.antt =====
-- Go's float64, as its 64-bit pattern. Tests, minimum and maximum are exact on the patterns; the
-- rounding operations are those of the platform and enter as a parameter.
use Prim.Native.Nat.{ℕ, ◌+◌, ◌%◌, ◌≤◌}
use mathlib.Core.Path.{◌≡◌}
use mathlib.Core.Bool.{Bool, true, false, not, ◌&&◌, ◌||◌}
use native.Mathlib.Omega.{arith}
use cpa_plugin_key_billing_m.Prelude.Tests.{ltb, leb, ◌==◌, if◌then◌else◌}

abbrev pub Float : Type 0
Float = ℕ

abbrev pub max_float : Float
max_float = 0x7fefffffffffffff

abbrev pub infinity : Float
infinity = 0x7ff0000000000000

abbrev pub sign_bit : ℕ
sign_bit = 0x8000000000000000

abbrev nan : Float
nan = 0x7ff8000000000001

abbrev pub magnitude : Float → ℕ
magnitude x = x % sign_bit

abbrev pub is_minus : Float → Bool
is_minus x = leb sign_bit x

-- math.IsNaN
abbrev pub is_nan : Float → Bool
is_nan x = ltb infinity (magnitude x)

-- math.IsInf(x, 0)
abbrev pub is_inf : Float → Bool
is_inf x = magnitude x == infinity

-- a zero of either sign
abbrev pub is_zero : Float → Bool
is_zero x = magnitude x == 0

-- order of two values that are no NaN, by sign and magnitude
abbrev ordered_lt : Float → Float → Bool
ordered_lt a b =
    if is_zero a && is_zero b
    then false
    else if is_minus a
    then (if is_minus b then ltb (magnitude b) (magnitude a) else true)
    else if is_minus b
    then false
    else ltb (magnitude a) (magnitude b)

-- `a < b`
unfoldable pub flt : Float → Float → Bool
flt a b = not (is_nan a) && not (is_nan b) && ordered_lt a b

-- `a <= b`
unfoldable pub fle : Float → Float → Bool
fle a b = not (is_nan a) && not (is_nan b) && not (ordered_lt b a)

-- `a == b`
unfoldable pub feq : Float → Float → Bool
feq a b = not (is_nan a) && not (is_nan b) && (is_zero a && is_zero b || a == b)

-- math.Min
unfoldable pub fmin : Float → Float → Float
fmin a b =
    if a == infinity + sign_bit || b == infinity + sign_bit
    then infinity + sign_bit
    else if is_nan a || is_nan b
    then nan
    else if is_zero a && is_zero b
    then (if is_minus a then a else b)
    else if ordered_lt a b
    then a
    else b

-- the built-in `max`
unfoldable pub fmax : Float → Float → Float
fmax a b =
    if is_nan a || is_nan b
    then nan
    else if is_zero a && is_zero b
    then (if is_minus a then b else a)
    else if ordered_lt a b
    then b
    else a

-- the platform's rounding arithmetic
pub record FloatOps : Type 0 where
  pub add : Float → Float → Float
  pub sub : Float → Float → Float
  pub mul : Float → Float → Float
  pub div : Float → Float → Float
  pub of_int : ℕ → Float

-- Non-negative finite values are ordered as their patterns.
pub fle-leb : (a b : Float) → a ≤ max_float → b ≤ max_float → fle a b ≡ leb a b
unfolding fle
fle-leb a b h k = ground arith
