-- ===== src/Decimal.antt =====
-- packages/lib-base/src/Decimal.ts: fixed-point numbers of 18 digits. A `Decimal` is its
-- `_bigNumber`, an arbitrary-precision integer that the constructor keeps from being negative.
pub mod Difference
pub mod Power
pub mod Rounding
pub mod Text
use mathlib.Core.Logic.{dite}
use mathlib.Core.WellFounded.{Acc}
use native.Mathlib.Decide.{dec_lt}
use liquity.Common.{
  ℕ, ◌+◌, ◌-◌, ◌*◌, ◌/◌, ◌%◌, ◌^◌, ◌<◌, ◌≡◌, refl, Bool, Option, none, some, arith, ltb, leb, ◌==◌,
  if◌then◌else◌, Result, ok, err, negative_decimal, assertion_failed,
}
use liquity.Common.Arith.{lt_wf}

abbrev pub Decimal : Type 0
Decimal = ℕ

-- `DIGITS`, the scaling factor
abbrev pub digits : ℕ
digits = 10 ^ 18

abbrev pub infinity : Decimal
infinity = 2 ^ 256 - 1

abbrev pub half : Decimal
half = 5 * 10 ^ 17

abbrev pub one : Decimal
one = 10 ^ 18

unfoldable pub rounded_mul : ℕ → ℕ → ℕ
rounded_mul x y = (x * y + half) / digits

unfoldable pub add : Decimal → Decimal → Decimal
add a b = a + b

-- The constructor throws if the difference is negative.
unfoldable pub sub : Decimal → Decimal → Result Decimal
sub a b = if ltb a b then err negative_decimal else ok (a - b)

unfoldable pub mul : Decimal → Decimal → Decimal
mul a b = a * b / digits

unfoldable pub div : Decimal → Decimal → Decimal
div a b = if b == 0 then infinity else a * digits / b

unfoldable pub div_ceil : Decimal → Decimal → Decimal
div_ceil a b = if b == 0 then infinity else (a * digits + (b - 1)) / b

unfoldable pub mul_div : Decimal → Decimal → Decimal → Decimal
mul_div a m b = if b == 0 then infinity else a * m / b

pub half-lt : (e : ℕ) → 1 < e → e / 2 < e
half-lt e h = omega arith

-- The loop `for (; exponent > 1; exponent >>>= 1)` and the last `roundedMul`.
pow_rounds : (exponent : ℕ) → Acc ◌<◌ exponent → ℕ → ℕ → ℕ
pow_rounds e (Acc.intro _ smaller) x y =
    dite (dec_lt 1 e)
      (λ h.
        pow_rounds (e / 2) (smaller (e / 2) (half-lt e h)) (rounded_mul x x)
          (if e % 2 == 1 then rounded_mul x y else y))
      (λ _. rounded_mul x y)

unfoldable pub pow_loop : ℕ → ℕ → ℕ → ℕ
unfolding pow_rounds lt_wf dec_lt
pow_loop e x y = pow_rounds e (lt_wf.apply e) x y

-- An exponent is an integer that is not negative, so the first assertion of `pow` holds.
unfoldable pub pow : Decimal → ℕ → Result Decimal
pow a e =
    if ltb 0xffffffff e
    then err assertion_failed
    else if e == 0
    then ok one
    else if e == 1
    then ok a
    else ok (pow_loop e a digits)

abbrev pub is_zero : Decimal → Bool
is_zero a = a == 0

-- `get zero` and `get nonZero`; `none` is `undefined`
abbrev pub zero? : Decimal → Option Decimal
zero? a = if is_zero a then some a else none

abbrev pub non_zero? : Decimal → Option Decimal
non_zero? a = if is_zero a then none else some a

abbrev pub is_infinite : Decimal → Bool
is_infinite a = a == infinity

abbrev pub lt : Decimal → Decimal → Bool
lt a b = ltb a b

abbrev pub eq : Decimal → Decimal → Bool
eq a b = a == b

abbrev pub gt : Decimal → Decimal → Bool
gt a b = ltb b a

abbrev pub gte : Decimal → Decimal → Bool
gte a b = leb b a

abbrev pub lte : Decimal → Decimal → Bool
lte a b = leb a b

unfoldable pub min : Decimal → Decimal → Decimal
min a b = if lt a b then a else b

unfoldable pub max : Decimal → Decimal → Decimal
max a b = if gt a b then a else b
