-- ===== src/Decimal/Rounding.antt =====
-- `Decimal.div`, `_divCeil`, `mulDiv` and `mul`: which integer each of the roundings picks.
use native.Mathlib.Nat.{le-div_iff_mul-le, div-lt_iff_lt-mul, lt-div-mul-add, mul-le-mul, le_refl}
use liquity.Common.{ℕ, zero, suc, ◌+◌, ◌-◌, ◌*◌, ◌/◌, ◌≤◌, ◌<◌, ◌≡◌, ◌↔◌, arith, true}
use liquity.Decimal.{Decimal, digits, infinity, div, div_ceil, mul_div, mul, lt}

div-pos : (a b : Decimal) → 0 < b → div a b ≡ a * digits / b
unfolding div
div-pos a b h = ground arith

pub div_ceil-pos : (a b : Decimal) → 0 < b → div_ceil a b ≡ (a * digits + (b - 1)) / b
unfolding div_ceil
div_ceil-pos a b h = ground arith

pub mul_div-pos : (a m b : Decimal) → 0 < b → mul_div a m b ≡ a * m / b
unfolding mul_div
mul_div-pos a m b h = ground arith

le_of_lt_suc : {a b : ℕ} → a < b + 1 → a ≤ b
le_of_lt_suc h = omega arith

-- For a divider that is not 0, the quotient rounded up is at most x exactly when x, multiplied
-- back, reaches the dividend.
pub div_ceil-le_iff : (a b x : Decimal) → 0 < b → (div_ceil a b ≤ x) ↔ (a ≤ mul x b)
unfolding mul
div_ceil-le_iff a b x h =
    let up = lt-div-mul-add {a = a * digits + (b - 1)} h in
    rw (div_ceil-pos a b h) (
      λ k. omega (arith, mul-le-mul k (le_refl b)),
      λ k. le_of_lt_suc ((div-lt_iff_lt-mul h).1 (omega arith)),
    )

-- The quotient rounded down is at least x exactly when x times the divider stays below the dividend.
pub le-div_iff : (a b x : Decimal) → 0 < b → (x ≤ div a b) ↔ (x * b ≤ a * digits)
le-div_iff a b x h = rw (div-pos a b h) (le-div_iff_mul-le h)

-- `mulDiv` lies below a bound of at most infinity exactly when the exact quotient does: rounding
-- moves no value across the bound, and a zero divider counts as infinity.
pub mul_div-lt_iff :
    (a m b bound : Decimal)
    → bound ≤ infinity
    → (lt (mul_div a m b) bound ≡ true) ↔ ((0 < b) × (a * m < bound * b))
unfolding mul_div
mul_div-lt_iff a m zero bound h = ground arith
mul_div-lt_iff a m (suc b) bound h =
    let quotient = div-lt_iff_lt-mul {k = suc b} {x = a * m} {y = bound} (omega arith) in
    ground (arith, quotient.0, quotient.1)
