-- ===== src/Examples/Numbers.antt =====
-- Runs of Decimal and Fees, and their theorems at concrete inputs.
use liquity.Common.{
  ◌+◌, ◌*◌, ◌^◌, ◌≤◌, ◌<◌, ◌≡◌, ◌↔◌, ◌⊎◌, refl, arith, true, false, none, some, ok,
}
use liquity.Decimal.{
  Decimal, infinity, one, half, rounded_mul, div, div_ceil, mul_div, pow_loop, pow, lt,
}
use liquity.Decimal.Power.{pow_whole, pow-le, pow_mono}
use liquity.Decimal.Rounding.{mul_div-lt_iff}
use liquity.Decimal.Difference.{Representation, between, Separates, between-Separates}
use liquity.Constants.{minimum_borrowing_rate, maximum_borrowing_rate, minimum_redemption_rate}
use liquity.Fees.{Fees, minutes_since, time_or_latest, base_rate, borrowing_rate, redemption_rate}
use liquity.Fees.Rates.{IsInRange, base_rate-le, borrowing_rate_bounds, redemption_rate_bounds}

two_cubed : pow (2 * one) 3 ≡ ok (8 * one)
unfolding pow pow_loop rounded_mul
two_cubed = refl

third : div one (3 * one) ≡ 333333333333333333
unfolding div
third = refl

third_up : div_ceil one (3 * one) ≡ 333333333333333334
unfolding div_ceil
third_up = refl

pow_whole_example : pow (3 * one) 5 ≡ ok (3 ^ 5 * one)
pow_whole_example = pow_whole 3 5 (omega arith)

pow-le_example : (r : Decimal) × (pow half 10 ≡ ok r) × (r ≤ one) × (0 < 10 → r ≤ half)
pow-le_example = pow-le half 10 (omega arith) (omega arith)

half_squared : pow half 2 ≡ ok 250000000000000000
unfolding pow pow_loop rounded_mul
half_squared = refl

one_squared : pow one 2 ≡ ok one
unfolding pow pow_loop rounded_mul
one_squared = refl

pow_mono_example : 250000000000000000 ≤ one
pow_mono_example = pow_mono half one 2 (omega arith) half_squared one_squared

mul_div-lt_iff_example :
    (lt (mul_div 11 one 10) (11 * 10 ^ 17) ≡ true) ↔ ((0 < 10) × (11 * one < 11 * 10 ^ 17 * 10))
mul_div-lt_iff_example = mul_div-lt_iff 11 one 10 (11 * 10 ^ 17) (omega arith)

between-Separates_example :
    ((half ≡ infinity) × (one ≡ infinity) × (between (some half) (some one) ≡ ok none))
    ⊎ ((d : Representation) × (between (some half) (some one) ≡ ok (some d)) × Separates half one d)
between-Separates_example = between-Separates half one (omega arith) (omega arith)

-- An hour after the last fee operation, with a factor of 0.999 for each minute.
abbrev fees : Fees
fees = record {
  base_rate_without_decay = 2 * 10 ^ 16;
  minute_decay_factor = 999 * 10 ^ 15;
  beta = 2 * one;
  last_fee_operation = 1000000;
  time_of_latest_block = 4600000;
  recovery_mode = false;
}

fees-IsInRange : IsInRange fees none
unfolding minutes_since
fees-IsInRange = omega arith

base_rate-le_example :
    (r : Decimal) × (base_rate fees none ≡ ok r)
    × (r ≤ fees.base_rate_without_decay)
    × (time_or_latest fees none < fees.last_fee_operation + 60000
        → r ≡ fees.base_rate_without_decay)
base_rate-le_example = base_rate-le fees none (omega arith) fees-IsInRange

borrowing_rate_bounds_example :
    (r : Decimal) × (borrowing_rate fees none ≡ ok r)
    × (fees.recovery_mode ≡ true → r ≡ 0)
    × (fees.recovery_mode ≡ false
        → (minimum_borrowing_rate ≤ r)
          × (r ≤ maximum_borrowing_rate)
          × (r ≤ minimum_borrowing_rate + fees.base_rate_without_decay))
borrowing_rate_bounds_example = borrowing_rate_bounds fees none (omega arith) fees-IsInRange

redemption_rate_bounds_example :
    (r s : Decimal) × (redemption_rate fees half none ≡ ok r)
    × (redemption_rate fees one none ≡ ok s)
    × (minimum_redemption_rate ≤ r)
    × (r ≤ s)
    × (s ≤ one)
redemption_rate_bounds_example =
    redemption_rate_bounds fees half one none (omega arith) fees-IsInRange (omega arith)
