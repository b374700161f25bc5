-- ===== src/Fees.antt =====
-- packages/lib-base/src/Fees.ts: the borrowing and redemption rates, which decay by the minute.
-- A `Date` is its time in milliseconds since the epoch; `borrowingRate(when)` without its optional
-- argument takes the time of the latest block.
pub mod Rates
use liquity.Common.{
  ℕ, ◌-◌, ◌/◌, ◌≡◌, refl, Bool, true, false, Option, none, some, ◌&&◌, ltb, ◌==◌, if◌then◌else◌,
  Result, ok, err, ◌>>=◌, ◌>>◌, require, assertion_failed,
}
use liquity.Decimal.{Decimal, one, add, mul, div, pow, min, lt, eq, non_zero?, is_zero}
use liquity.Constants.{minimum_borrowing_rate, maximum_borrowing_rate, minimum_redemption_rate}

pub record Fees : Type 0 where
  pub base_rate_without_decay : Decimal
  pub minute_decay_factor : Decimal
  pub beta : Decimal
  pub last_fee_operation : ℕ
  pub time_of_latest_block : ℕ
  pub recovery_mode : Bool

-- The constructor, with its assertion.
unfoldable pub new_fees : Decimal → Decimal → Decimal → ℕ → ℕ → Bool → Result Fees
new_fees base factor beta last latest recovery = do
  require (lt factor one) assertion_failed
  ok (record {
    base_rate_without_decay = base;
    minute_decay_factor = factor;
    beta = beta;
    last_fee_operation = last;
    time_of_latest_block = latest;
    recovery_mode = recovery;
  })

unfoldable pub set_recovery_mode : Fees → Bool → Result Fees
unfolding new_fees
set_recovery_mode f recovery =
    new_fees f.base_rate_without_decay f.minute_decay_factor f.beta f.last_fee_operation
      f.time_of_latest_block recovery

abbrev pub same_bool : Bool → Bool → Bool
same_bool true b = b
same_bool false true = false
same_bool false false = true

unfoldable pub equals : Fees → Fees → Bool
equals f g =
    eq f.base_rate_without_decay g.base_rate_without_decay
    && (eq f.minute_decay_factor g.minute_decay_factor
        && (eq f.beta g.beta
            && ((f.last_fee_operation == g.last_fee_operation)
                && ((f.time_of_latest_block == g.time_of_latest_block)
                    && same_bool f.recovery_mode g.recovery_mode))))

-- The optional `when`, with its default.
abbrev pub time_or_latest : Fees → Option ℕ → ℕ
time_or_latest f none = f.time_of_latest_block
time_or_latest f (some t) = t

-- Whole minutes since the last fee operation. `-` stops at 0, as `Math.max(…, 0)` does.
unfoldable pub minutes_since : Fees → ℕ → ℕ
minutes_since f when = (when - f.last_fee_operation) / 60000

unfoldable pub base_rate : Fees → Option ℕ → Result Decimal
unfolding minutes_since
base_rate f when = do
  decay ← pow f.minute_decay_factor (minutes_since f (time_or_latest f when))
  ok (mul decay f.base_rate_without_decay)

unfoldable pub borrowing_rate : Fees → Option ℕ → Result Decimal
unfolding base_rate
borrowing_rate f when =
    if f.recovery_mode
    then ok 0
    else (base_rate f when >>= λ base.
        ok (min (add minimum_borrowing_rate base) maximum_borrowing_rate))

-- The base rate with the redeemed fraction over beta on top of it.
abbrev raised : Fees → Decimal → Decimal → Decimal
raised f fraction base = if is_zero fraction then base else add (div fraction f.beta) base

unfoldable pub redemption_rate : Fees → Decimal → Option ℕ → Result Decimal
unfolding base_rate
redemption_rate f fraction when = do
  base ← base_rate f when
  ok (min (add minimum_redemption_rate (raised f fraction base)) one)
