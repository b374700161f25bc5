-- ===== src/LiquityStore/Derive/Rates.antt =====
-- `_derive`: when it succeeds, and what the derived variables say of the base state.
use native.Mathlib.Nat.{le_trans}
use liquity.Common.{◌≤◌, ◌≡◌, ◌↔◌, refl, arith, Bool, true, false, none, ok}
use liquity.Decimal.{one}
use liquity.Constants.{
  minimum_collateral_ratio, critical_collateral_ratio, minimum_borrowing_rate,
  maximum_borrowing_rate, minimum_redemption_rate,
}
use liquity.Fees.{Fees, minutes_since, set_recovery_mode}
use liquity.Fees.Rates.{IsDecaying, IsInRange, borrowing_rate_bounds, redemption_rate_bounds}
use liquity.Trove.{
  Trove, plus, collateral_ratio_is_below_minimum, collateral_ratio_is_below_critical,
}
use liquity.Trove.Ratio.{
  IsBelow, collateral_ratio_is_below_minimum_iff, collateral_ratio_is_below_critical_iff,
}
use liquity.Trove.User.{PendingTrove}
use liquity.Trove.User.Redistribution.{share, apply_redistribution_lem}
use liquity.LiquityStore.State.{BaseState, DerivedState}
use liquity.LiquityStore.Derive.{DerivedIds, derive}

set_recovery_mode_lem :
    (f : Fees) (recovery : Bool)
    → IsDecaying f
    → set_recovery_mode f recovery ≡ ok (record f { recovery_mode = recovery })
unfolding set_recovery_mode
set_recovery_mode_lem f recovery d = ground arith

-- The Trove with its share of what was redistributed.
abbrev pub updated : PendingTrove → Trove → Trove
updated t total = plus t.user.base (share t total)

-- What the derived state says of the base state.
pub record Describes (b : BaseState) (d : DerivedState) : Type 0 where
  -- the fees know whether the whole system is below the critical ratio
  pub recovery :
      (d.fees.value.recovery_mode ≡ true)
      ↔ IsBelow critical_collateral_ratio b.price.value b.total.value
  -- in recovery mode borrowing is free; otherwise the rate is within its bounds
  pub borrowing_free : d.fees.value.recovery_mode ≡ true → d.borrowing_rate.value ≡ 0
  pub borrowing_charged :
      d.fees.value.recovery_mode ≡ false
      → (minimum_borrowing_rate ≤ d.borrowing_rate.value)
        × (d.borrowing_rate.value ≤ maximum_borrowing_rate)
  pub redemption :
      (minimum_redemption_rate ≤ d.redemption_rate.value) × (d.redemption_rate.value ≤ one)
  -- the user's Trove has its share of the redistributions
  pub trove :
      d.trove.value.base ≡ updated b.trove_before_redistribution.value b.total_redistributed.value
  -- the riskiest Trove can be liquidated
  pub risky :
      (d.have_undercollateralized_troves ≡ true)
      ↔ IsBelow minimum_collateral_ratio b.price.value
          (updated b.riskiest_trove_before_redistribution.value b.total_redistributed.value)

range_recovery :
    (f : Fees) (recovery : Bool)
    → IsInRange f none
    → IsInRange (record f { recovery_mode = recovery }) none
unfolding minutes_since
range_recovery f recovery h = h

-- Given fees that decay, less than 2 ^ 32 minutes after the last fee operation, `_derive` succeeds.
-- The fees know whether the system is in recovery mode; borrowing is then free, and within 0.5% and
-- 5% otherwise; the redemption rate is within 0.5% and 100%; the user's Trove has received its
-- share of the redistributions; and there are undercollateralized Troves just when the riskiest
-- one, with its share, is below 110%.
pub derive-Describes :
    (ids : DerivedIds) (b : BaseState)
    → IsDecaying b.fees_in_normal_mode.value
    → IsInRange b.fees_in_normal_mode.value none
    → (d : DerivedState) × (derive ids b ≡ ok d) × Describes b d
unfolding derive
derive-Describes ids b dec range =
    let below = collateral_ratio_is_below_critical b.total.value b.price.value in
    let fees : Fees = record b.fees_in_normal_mode.value { recovery_mode = below } in
    let range' = range_recovery b.fees_in_normal_mode.value below range in
    let (rate, e, free, charged) = borrowing_rate_bounds fees none dec range' in
    let (red, _, e', _, low, mid, high) =
      redemption_rate_bounds fees 0 0 none dec range' (omega arith) in
    let mine = b.trove_before_redistribution.value in
    let riskiest = b.riskiest_trove_before_redistribution.value in
    let total = b.total_redistributed.value in
    (
      record {
        trove = record {
          identity = ids.trove;
          value = record mine.user { base = updated mine total };
        };
        fees = record { identity = ids.fees; value = fees };
        borrowing_rate = record { identity = ids.borrowing_rate; value = rate };
        redemption_rate = record { identity = ids.redemption_rate; value = red };
        have_undercollateralized_troves =
            collateral_ratio_is_below_minimum (updated riskiest total) b.price.value;
      },
      rw
          (
            set_recovery_mode_lem b.fees_in_normal_mode.value below dec,
            apply_redistribution_lem mine total,
            e,
            e',
            apply_redistribution_lem riskiest total,
          )
          refl,
      record {
        recovery = collateral_ratio_is_below_critical_iff b.total.value b.price.value;
        borrowing_free = free;
        borrowing_charged = λ off. ((charged off).0, (charged off).1);
        redemption = (low, le_trans mid high);
        trove = refl;
        risky = collateral_ratio_is_below_minimum_iff (updated riskiest total) b.price.value;
      },
    )
