-- ===== src/LqtyStake.antt =====
-- packages/lib-base/src/LQTYStake.ts
pub mod Changes
use liquity.Common.{Bool, ◌&&◌, ◌||◌, Option, none, some, if◌then◌else◌, Result, ok, ◌>>=◌}
use liquity.Decimal.{Decimal, add, sub, lt, gt, lte, eq, is_zero}

pub record LqtyStake : Type 0 where
  pub staked_lqty : Decimal
  pub collateral_gain : Decimal
  pub lusd_gain : Decimal

unfoldable pub is_empty : LqtyStake → Bool
is_empty s = is_zero s.staked_lqty && (is_zero s.collateral_gain && is_zero s.lusd_gain)

unfoldable pub equals : LqtyStake → LqtyStake → Bool
equals s t =
    eq s.staked_lqty t.staked_lqty
    && (eq s.collateral_gain t.collateral_gain && eq s.lusd_gain t.lusd_gain)

pub data LqtyStakeChange : Type 0 where
  stake_lqty : Decimal → LqtyStakeChange
  -- the amount, and `unstakeAllLQTY`
  unstake_lqty : Decimal → Bool → LqtyStakeChange

-- `none` stands for `undefined`.
unfoldable pub what_changed : LqtyStake → Decimal → Result (Option LqtyStakeChange)
unfolding sub
what_changed s that =
    if lt that s.staked_lqty
    then (sub s.staked_lqty that >>= λ u. ok (some (unstake_lqty u (is_zero that))))
    else if gt that s.staked_lqty
    then (sub that s.staked_lqty >>= λ i. ok (some (stake_lqty i)))
    else ok none

unfoldable pub apply : LqtyStake → Option LqtyStakeChange → Result Decimal
unfolding sub add
apply s none = ok s.staked_lqty
apply s (some (unstake_lqty u all)) =
    if all || lte s.staked_lqty u then ok 0 else sub s.staked_lqty u
apply s (some (stake_lqty i)) = ok (add s.staked_lqty i)
