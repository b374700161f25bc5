-- ===== src/Examples/Stakes.antt =====
-- Runs of the operations of StabilityDeposit and LQTYStake, and their theorems at concrete inputs.
use liquity.Common.{◌+◌, ◌-◌, ◌≤◌, ◌≡◌, refl, Bool, false, Option, some, ok}
use liquity.Decimal.{Decimal}
use liquity.StabilityDeposit
use liquity.StabilityDeposit.{StabilityDeposit, StabilityDepositChange, deposit_lusd, withdraw_lusd}
use liquity.StabilityDeposit.Changes.{deposit_what_changed-apply, apply-total}
use liquity.LqtyStake.{LqtyStake}

abbrev deposit : StabilityDeposit
deposit = record {
  initial_lusd = 100;
  current_lusd = 80;
  collateral_gain = 5;
  lqty_reward = 6;
  frontend_tag = "0xf";
}

abbrev stake : LqtyStake
stake = record { staked_lqty = 30; collateral_gain = 1; lusd_gain = 2 }

withdrawal : StabilityDeposit.what_changed deposit 30 ≡ ok (some (withdraw_lusd 50 false))
unfolding StabilityDeposit.what_changed
withdrawal = refl

deposit_what_changed-apply_example :
    (c : Option StabilityDepositChange) × (StabilityDeposit.what_changed deposit 30 ≡ ok c)
    × (StabilityDeposit.apply deposit c ≡ ok 30)
deposit_what_changed-apply_example = deposit_what_changed-apply deposit 30

apply-total_example :
    (r : Decimal) × (StabilityDeposit.apply deposit (some (withdraw_lusd 90 false)) ≡ ok r)
    × ((w : Decimal) (all : Bool)
        → some (withdraw_lusd 90 false) ≡ some (withdraw_lusd w all)
        → r ≤ deposit.current_lusd - w)
    × ((i : Decimal)
        → some (withdraw_lusd 90 false) ≡ some (deposit_lusd i)
        → r ≡ deposit.current_lusd + i)
apply-total_example = apply-total deposit (some (withdraw_lusd 90 false))
