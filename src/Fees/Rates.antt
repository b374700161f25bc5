-- ===== src/Fees/Rates.antt =====
-- `Fees`: bounds of the rates, their decay, and when they can be computed.
use liquity.Common.{
  ℕ, ◌+◌, ◌≤◌, ◌<◌, ◌≡◌, refl, sym, ◌∙◌, ◌*◌, ok-injective, true, false, Option, arith,
  if◌then◌else◌, ok, err, assertion_failed,
}
use native.Mathlib.Nat.{mul-le-mul, le_refl}
use liquity.Common.Arith.{div_mono}
use liquity.Decimal.{Decimal, digits, one, add, mul, div, pow, min}
use liquity.Decimal.Power.{max_exponent, pow-le, pow_zero, pow_out_of_range}
use liquity.Constants.{minimum_borrowing_rate, maximum_borrowing_rate, minimum_redemption_rate}
use liquity.Fees.{
  Fees, minutes_since, time_or_latest, base_rate, borrowing_rate, redemption_rate, raised,
}

-- What holds of the fees that the constructor returns.
abbrev pub IsDecaying : Fees → Type 0
IsDecaying f = f.minute_decay_factor < one

-- The time is at most 2 ^ 32 - 1 minutes (8,000 years) after the last fee operation.
abbrev pub IsInRange : Fees → Option ℕ → Type 0
IsInRange f when = minutes_since f (time_or_latest f when) ≤ max_exponent

mul-le_of_le-one : (a b : Decimal) → a ≤ one → mul a b ≤ b
unfolding mul
mul-le_of_le-one a b h = let p = mul-le-mul h (le_refl b) in omega arith

mul-one : (b : Decimal) → mul one b ≡ b
unfolding mul
mul-one b = omega arith

in_first_minute :
    (f : Fees) (when : ℕ) → when < f.last_fee_operation + 60000 → minutes_since f when ≡ 0
unfolding minutes_since
in_first_minute f when h = omega arith

undecayed :
    (f : Fees) (decay : Decimal)
    → decay ≡ one
    → mul decay f.base_rate_without_decay ≡ f.base_rate_without_decay
undecayed f decay e = rw e (mul-one f.base_rate_without_decay)

-- For fees that decay, less than 2 ^ 32 minutes after the last fee operation, the decayed base rate
-- exists and is at most the base rate without decay, to which it is equal in the first minute.
pub base_rate-le :
    (f : Fees) (when : Option ℕ)
    → IsDecaying f
    → IsInRange f when
    → (r : Decimal) × (base_rate f when ≡ ok r)
      × (r ≤ f.base_rate_without_decay)
      × (time_or_latest f when < f.last_fee_operation + 60000 → r ≡ f.base_rate_without_decay)
unfolding base_rate
base_rate-le f when d h =
    let minutes = minutes_since f (time_or_latest f when) in
    let (decay, e, le, _) = pow-le f.minute_decay_factor minutes (omega arith) h in
    (
      mul decay f.base_rate_without_decay,
      rw e refl,
      mul-le_of_le-one decay f.base_rate_without_decay le,
      λ soon. undecayed f decay (
          ok-injective (sym e ∙ pow_zero f.minute_decay_factor minutes (in_first_minute f _ soon))),
    )

-- Beyond that range the rates cannot be computed: an assertion of `pow` fails.
base_rate_out_of_range :
    (f : Fees) (when : Option ℕ)
    → max_exponent < minutes_since f (time_or_latest f when)
    → base_rate f when ≡ err assertion_failed
unfolding base_rate pow
base_rate_out_of_range f when h =
    rw (pow_out_of_range f.minute_decay_factor (minutes_since f (time_or_latest f when)) h) refl

-- What the rates make of a base rate.
borrowing_rate-base :
    (f : Fees) (when : Option ℕ) (base : Decimal)
    → base_rate f when ≡ ok base
    → borrowing_rate f when
      ≡ ok (
          if f.recovery_mode
          then 0
          else min (add minimum_borrowing_rate base) maximum_borrowing_rate)
unfolding borrowing_rate
borrowing_rate-base f when base e = ground arith

redemption_rate-base :
    (f : Fees) (fraction : Decimal) (when : Option ℕ) (base : Decimal)
    → base_rate f when ≡ ok base
    → redemption_rate f fraction when
      ≡ ok (min (add minimum_redemption_rate (raised f fraction base)) one)
unfolding redemption_rate
redemption_rate-base f fraction when base e = rw e refl

-- For fees that decay, less than 2 ^ 32 minutes after the last fee operation, the borrowing rate
-- exists. In recovery mode it is 0. Otherwise it lies from 0.5% to 5%, and is at most the minimum
-- plus the base rate without decay.
pub borrowing_rate_bounds :
    (f : Fees) (when : Option ℕ)
    → IsDecaying f
    → IsInRange f when
    → (r : Decimal) × (borrowing_rate f when ≡ ok r)
      × (f.recovery_mode ≡ true → r ≡ 0)
      × (f.recovery_mode ≡ false
          → (minimum_borrowing_rate ≤ r)
            × (r ≤ maximum_borrowing_rate)
            × (r ≤ minimum_borrowing_rate + f.base_rate_without_decay))
unfolding add min
borrowing_rate_bounds f when d h =
    let (base, e, le, _) = base_rate-le f when d h in
    (
      (if f.recovery_mode then 0 else min (add minimum_borrowing_rate base) maximum_borrowing_rate),
      borrowing_rate-base f when base e,
      ground arith,
      ground arith,
    )

raised_mono :
    (f : Fees) (base small large : Decimal)
    → small ≤ large
    → raised f small base ≤ raised f large base
unfolding add div
raised_mono f base small large h =
    let p = mul-le-mul h (le_refl digits) in
    ground (arith, div_mono (small * digits) (large * digits) f.beta)

-- For fees that decay, less than 2 ^ 32 minutes after the last fee operation, the redemption rate
-- exists and lies from 0.5% to 100%, and redeeming a larger fraction of the supply never costs a
-- lower rate.
pub redemption_rate_bounds :
    (f : Fees) (small large : Decimal) (when : Option ℕ)
    → IsDecaying f
    → IsInRange f when
    → small ≤ large
    → (r s : Decimal) × (redemption_rate f small when ≡ ok r)
      × (redemption_rate f large when ≡ ok s)
      × (minimum_redemption_rate ≤ r)
      × (r ≤ s)
      × (s ≤ one)
unfolding min add
redemption_rate_bounds f small large when d h le =
    let (base, e, _, _) = base_rate-le f when d h in
    (
      min (add minimum_redemption_rate (raised f small base)) one,
      min (add minimum_redemption_rate (raised f large base)) one,
      redemption_rate-base f small when base e,
      redemption_rate-base f large when base e,
      ground arith,
      ground (arith, raised_mono f base small large le),
      ground arith,
    )
