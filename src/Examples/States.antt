-- ===== src/Examples/States.antt =====
-- A state of the store, an update of it, and what both lead to.
use liquity.Common.{◌*◌, ◌^◌, ◌≡◌, refl, arith, false, none, some, ok}
use liquity.Decimal.{one}
use liquity.Fees.{Fees, minutes_since}
use liquity.Fees.Rates.{IsDecaying, IsInRange}
use liquity.Trove.{Trove, trove}
use liquity.Trove.User.{PendingTrove, open_trove}
use liquity.StabilityDeposit.{StabilityDeposit}
use liquity.LqtyStake.{LqtyStake}
use liquity.LiquityStore.State.{unregistered, BaseState, BaseUpdate, DerivedState}
use liquity.LiquityStore.Reduce.{reduce, base_difference}
use liquity.LiquityStore.Changes.{
  IsCoherentUpdate, all_news, HasValues, base_difference-reduce, reduce-HasValues,
}
use liquity.LiquityStore.Derive.{DerivedIds, derive}
use liquity.LiquityStore.Derive.Rates.{Describes, derive-Describes}

abbrev fees : Fees
fees = record {
  base_rate_without_decay = 2 * 10 ^ 16;
  minute_decay_factor = 999 * 10 ^ 15;
  beta = 2 * one;
  last_fee_operation = 1000000;
  time_of_latest_block = 4600000;
  recovery_mode = false;
}

abbrev whole : Trove
whole = trove (3 * one) (16 * one)

abbrev pending : PendingTrove
pending = record {
  user = record { owner_address = "0xa"; status = open_trove; base = trove one (6 * one) };
  stake = one;
  snapshot_of_total_redistributed = trove 3 4;
}

abbrev deposit : StabilityDeposit
deposit = record {
  initial_lusd = 100;
  current_lusd = 80;
  collateral_gain = 5;
  lqty_reward = 6;
  frontend_tag = "0xf";
}

abbrev stake : LqtyStake
stake = record { staked_lqty = 30; collateral_gain = 1; lusd_gain = 2 }

abbrev pub at_first : BaseState
at_first = record {
  frontend = record { identity = 0; value = unregistered };
  own_frontend = record { identity = 1; value = unregistered };
  number_of_troves = 2;
  account_balance = record { identity = 2; value = one };
  lusd_balance = record { identity = 3; value = one };
  lqty_balance = record { identity = 4; value = one };
  uni_token_balance = record { identity = 5; value = one };
  uni_token_allowance = record { identity = 6; value = one };
  remaining_liquidity_mining_lqty_reward = record { identity = 7; value = one };
  liquidity_mining_stake = record { identity = 8; value = one };
  total_staked_uni_tokens = record { identity = 9; value = one };
  liquidity_mining_lqty_reward = record { identity = 10; value = one };
  collateral_surplus_balance = record { identity = 11; value = one };
  price = record { identity = 12; value = one };
  lusd_in_stability_pool = record { identity = 13; value = one };
  total = record { identity = 14; value = whole };
  total_redistributed = record { identity = 15; value = whole };
  trove_before_redistribution = record { identity = 16; value = pending };
  stability_deposit = record { identity = 17; value = deposit };
  remaining_stability_pool_lqty_reward = record { identity = 18; value = one };
  fees_in_normal_mode = record { identity = 19; value = fees };
  lqty_stake = record { identity = 20; value = stake };
  total_staked_lqty = record { identity = 21; value = one };
  riskiest_trove_before_redistribution = record { identity = 22; value = pending };
}

-- A new price and a new number of Troves; the LUSD balance is a new object with the old value.
abbrev pub tick : BaseUpdate
tick = record {
  frontend = none;
  own_frontend = none;
  number_of_troves = some 3;
  account_balance = none;
  lusd_balance = some (record { identity = 101; value = one });
  lqty_balance = none;
  uni_token_balance = none;
  uni_token_allowance = none;
  remaining_liquidity_mining_lqty_reward = none;
  liquidity_mining_stake = none;
  total_staked_uni_tokens = none;
  liquidity_mining_lqty_reward = none;
  collateral_surplus_balance = none;
  price = some (record { identity = 100; value = 2 * one });
  lusd_in_stability_pool = none;
  total = none;
  total_redistributed = none;
  trove_before_redistribution = none;
  stability_deposit = none;
  remaining_stability_pool_lqty_reward = none;
  fees_in_normal_mode = none;
  lqty_stake = none;
  total_staked_lqty = none;
  riskiest_trove_before_redistribution = none;
}

pub tick-IsCoherentUpdate : IsCoherentUpdate at_first tick
tick-IsCoherentUpdate = record {
  frontend = tt;
  own_frontend = tt;
  account_balance = tt;
  lusd_balance = λ _. refl;
  lqty_balance = tt;
  uni_token_balance = tt;
  uni_token_allowance = tt;
  remaining_liquidity_mining_lqty_reward = tt;
  liquidity_mining_stake = tt;
  total_staked_uni_tokens = tt;
  liquidity_mining_lqty_reward = tt;
  collateral_surplus_balance = tt;
  price = omega arith;
  lusd_in_stability_pool = tt;
  total = tt;
  total_redistributed = tt;
  trove_before_redistribution = tt;
  stability_deposit = tt;
  remaining_stability_pool_lqty_reward = tt;
  fees_in_normal_mode = tt;
  lqty_stake = tt;
  total_staked_lqty = tt;
  riskiest_trove_before_redistribution = tt;
}

base_difference-reduce_example :
    base_difference (reduce at_first tick) at_first ≡ all_news at_first tick
base_difference-reduce_example = base_difference-reduce at_first tick tick-IsCoherentUpdate

reduce-HasValues_example : HasValues at_first tick (reduce at_first tick)
reduce-HasValues_example = reduce-HasValues at_first tick

abbrev pub ids : DerivedIds
ids = record { trove = 200; fees = 201; borrowing_rate = 202; redemption_rate = 203 }

fees-IsInRange : IsInRange at_first.fees_in_normal_mode.value none
unfolding minutes_since
fees-IsInRange = omega arith

derive-Describes_example : (d : DerivedState) × (derive ids at_first ≡ ok d) × Describes at_first d
derive-Describes_example = derive-Describes ids at_first (omega arith) fees-IsInRange

pub tick-IsDecaying : IsDecaying (reduce at_first tick).fees_in_normal_mode.value
unfolding reduce
tick-IsDecaying = omega arith

pub tick-IsInRange : IsInRange (reduce at_first tick).fees_in_normal_mode.value none
unfolding reduce minutes_since
tick-IsInRange = omega arith
