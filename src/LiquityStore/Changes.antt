-- ===== src/LiquityStore/Changes.antt =====
-- `_reduce` and `difference`: what an update changes, and what the listeners are told of it.
use liquity.Common.{◌≡◌}
use liquity.Decimal.{eq}
use liquity.Fees
use liquity.Fees.{Fees}
use liquity.Trove
use liquity.Trove.{Trove}
use liquity.Trove.User.{pending_equals}
use liquity.Trove.User.Equality.{equals_iff, pending_equals_iff}
use liquity.StabilityDeposit
use liquity.StabilityDeposit.{StabilityDeposit}
use liquity.StabilityDeposit.Changes.{deposit_equals_iff}
use liquity.LqtyStake
use liquity.LqtyStake.{LqtyStake}
use liquity.LqtyStake.Changes.{stake_equals_iff}
use liquity.LiquityStore.State.{frontend_status_equals, BaseState, BaseUpdate}
use liquity.LiquityStore.Reduce.{reduce, base_difference}
use liquity.LiquityStore.Variable.{
  eq_lem, frontend_status_equals_iff, fees_equals_iff, IsCoherent, news, news_number, wanted,
  wanted_number, changed-update, changed-silently, value-update, value-silently,
  changed_number-update, update_number-wanted,
}

-- The objects of an update are objects of the state, or other ones.
pub record IsCoherentUpdate (s : BaseState) (u : BaseUpdate) : Type 0 where
  pub frontend : IsCoherent s.frontend u.frontend
  pub own_frontend : IsCoherent s.own_frontend u.own_frontend
  pub account_balance : IsCoherent s.account_balance u.account_balance
  pub lusd_balance : IsCoherent s.lusd_balance u.lusd_balance
  pub lqty_balance : IsCoherent s.lqty_balance u.lqty_balance
  pub uni_token_balance : IsCoherent s.uni_token_balance u.uni_token_balance
  pub uni_token_allowance : IsCoherent s.uni_token_allowance u.uni_token_allowance
  pub remaining_liquidity_mining_lqty_reward :
      IsCoherent s.remaining_liquidity_mining_lqty_reward u.remaining_liquidity_mining_lqty_reward
  pub liquidity_mining_stake : IsCoherent s.liquidity_mining_stake u.liquidity_mining_stake
  pub total_staked_uni_tokens : IsCoherent s.total_staked_uni_tokens u.total_staked_uni_tokens
  pub liquidity_mining_lqty_reward :
      IsCoherent s.liquidity_mining_lqty_reward u.liquidity_mining_lqty_reward
  pub collateral_surplus_balance :
      IsCoherent s.collateral_surplus_balance u.collateral_surplus_balance
  pub price : IsCoherent s.price u.price
  pub lusd_in_stability_pool : IsCoherent s.lusd_in_stability_pool u.lusd_in_stability_pool
  pub total : IsCoherent s.total u.total
  pub total_redistributed : IsCoherent s.total_redistributed u.total_redistributed
  pub trove_before_redistribution :
      IsCoherent s.trove_before_redistribution u.trove_before_redistribution
  pub stability_deposit : IsCoherent s.stability_deposit u.stability_deposit
  pub remaining_stability_pool_lqty_reward :
      IsCoherent s.remaining_stability_pool_lqty_reward u.remaining_stability_pool_lqty_reward
  pub fees_in_normal_mode : IsCoherent s.fees_in_normal_mode u.fees_in_normal_mode
  pub lqty_stake : IsCoherent s.lqty_stake u.lqty_stake
  pub total_staked_lqty : IsCoherent s.total_staked_lqty u.total_staked_lqty
  pub riskiest_trove_before_redistribution :
      IsCoherent s.riskiest_trove_before_redistribution u.riskiest_trove_before_redistribution

-- The part of an update that differs from the state, by the equality of each variable.
abbrev pub all_news : BaseState → BaseUpdate → BaseUpdate
all_news s u = record {
  frontend = news frontend_status_equals s.frontend u.frontend;
  own_frontend = news frontend_status_equals s.own_frontend u.own_frontend;
  number_of_troves = news_number s.number_of_troves u.number_of_troves;
  account_balance = news eq s.account_balance u.account_balance;
  lusd_balance = news eq s.lusd_balance u.lusd_balance;
  lqty_balance = news eq s.lqty_balance u.lqty_balance;
  uni_token_balance = news eq s.uni_token_balance u.uni_token_balance;
  uni_token_allowance = news eq s.uni_token_allowance u.uni_token_allowance;
  remaining_liquidity_mining_lqty_reward =
      news eq s.remaining_liquidity_mining_lqty_reward u.remaining_liquidity_mining_lqty_reward;
  liquidity_mining_stake = news eq s.liquidity_mining_stake u.liquidity_mining_stake;
  total_staked_uni_tokens = news eq s.total_staked_uni_tokens u.total_staked_uni_tokens;
  liquidity_mining_lqty_reward =
      news eq s.liquidity_mining_lqty_reward u.liquidity_mining_lqty_reward;
  collateral_surplus_balance = news eq s.collateral_surplus_balance u.collateral_surplus_balance;
  price = news eq s.price u.price;
  lusd_in_stability_pool = news eq s.lusd_in_stability_pool u.lusd_in_stability_pool;
  total = news Trove.equals s.total u.total;
  total_redistributed = news Trove.equals s.total_redistributed u.total_redistributed;
  trove_before_redistribution =
      news pending_equals s.trove_before_redistribution u.trove_before_redistribution;
  stability_deposit = news StabilityDeposit.equals s.stability_deposit u.stability_deposit;
  remaining_stability_pool_lqty_reward =
      news eq s.remaining_stability_pool_lqty_reward u.remaining_stability_pool_lqty_reward;
  fees_in_normal_mode = news Fees.equals s.fees_in_normal_mode u.fees_in_normal_mode;
  lqty_stake = news LqtyStake.equals s.lqty_stake u.lqty_stake;
  total_staked_lqty = news eq s.total_staked_lqty u.total_staked_lqty;
  riskiest_trove_before_redistribution =
      news pending_equals s.riskiest_trove_before_redistribution
        u.riskiest_trove_before_redistribution;
}

-- The state change that the listeners get holds just the variables for which the update brings a
-- value that is not equal to the old one, with the updated objects; an update that repeats what the
-- state holds in new objects changes nothing. This is so if an object of the update that is an
-- object of the state has the same value.
pub base_difference-reduce :
    (s : BaseState) (u : BaseUpdate)
    → IsCoherentUpdate s u
    → base_difference (reduce s u) s ≡ all_news s u
unfolding base_difference reduce
base_difference-reduce s u c = λ i. record {
  frontend = changed-update frontend_status_equals_iff s.frontend u.frontend c.frontend i;
  own_frontend =
      changed-update frontend_status_equals_iff s.own_frontend u.own_frontend c.own_frontend i;
  number_of_troves = changed_number-update s.number_of_troves u.number_of_troves i;
  account_balance = changed-update eq_lem s.account_balance u.account_balance c.account_balance i;
  lusd_balance = changed-update eq_lem s.lusd_balance u.lusd_balance c.lusd_balance i;
  lqty_balance = changed-update eq_lem s.lqty_balance u.lqty_balance c.lqty_balance i;
  uni_token_balance =
      changed-update eq_lem s.uni_token_balance u.uni_token_balance c.uni_token_balance i;
  uni_token_allowance =
      changed-update eq_lem s.uni_token_allowance u.uni_token_allowance c.uni_token_allowance i;
  remaining_liquidity_mining_lqty_reward =
      changed-silently eq_lem s.remaining_liquidity_mining_lqty_reward
        u.remaining_liquidity_mining_lqty_reward c.remaining_liquidity_mining_lqty_reward i;
  liquidity_mining_stake =
      changed-update eq_lem s.liquidity_mining_stake u.liquidity_mining_stake
        c.liquidity_mining_stake i;
  total_staked_uni_tokens =
      changed-update eq_lem s.total_staked_uni_tokens u.total_staked_uni_tokens
        c.total_staked_uni_tokens i;
  liquidity_mining_lqty_reward =
      changed-silently eq_lem s.liquidity_mining_lqty_reward u.liquidity_mining_lqty_reward
        c.liquidity_mining_lqty_reward i;
  collateral_surplus_balance =
      changed-update eq_lem s.collateral_surplus_balance u.collateral_surplus_balance
        c.collateral_surplus_balance i;
  price = changed-update eq_lem s.price u.price c.price i;
  lusd_in_stability_pool =
      changed-update eq_lem s.lusd_in_stability_pool u.lusd_in_stability_pool
        c.lusd_in_stability_pool i;
  total = changed-update equals_iff s.total u.total c.total i;
  total_redistributed =
      changed-update equals_iff s.total_redistributed u.total_redistributed c.total_redistributed i;
  trove_before_redistribution =
      changed-update pending_equals_iff s.trove_before_redistribution u.trove_before_redistribution
        c.trove_before_redistribution i;
  stability_deposit =
      changed-update deposit_equals_iff s.stability_deposit u.stability_deposit c.stability_deposit
        i;
  remaining_stability_pool_lqty_reward =
      changed-silently eq_lem s.remaining_stability_pool_lqty_reward
        u.remaining_stability_pool_lqty_reward c.remaining_stability_pool_lqty_reward i;
  fees_in_normal_mode =
      changed-silently fees_equals_iff s.fees_in_normal_mode u.fees_in_normal_mode
        c.fees_in_normal_mode i;
  lqty_stake = changed-update stake_equals_iff s.lqty_stake u.lqty_stake c.lqty_stake i;
  total_staked_lqty =
      changed-update eq_lem s.total_staked_lqty u.total_staked_lqty c.total_staked_lqty i;
  riskiest_trove_before_redistribution =
      changed-silently pending_equals_iff s.riskiest_trove_before_redistribution
        u.riskiest_trove_before_redistribution c.riskiest_trove_before_redistribution i;
}

-- The values of a state are those that an update asks for, or else the old ones.
pub record HasValues (s : BaseState) (u : BaseUpdate) (t : BaseState) : Type 0 where
  pub frontend : t.frontend.value ≡ wanted s.frontend u.frontend
  pub own_frontend : t.own_frontend.value ≡ wanted s.own_frontend u.own_frontend
  pub number_of_troves : t.number_of_troves ≡ wanted_number s.number_of_troves u.number_of_troves
  pub account_balance : t.account_balance.value ≡ wanted s.account_balance u.account_balance
  pub lusd_balance : t.lusd_balance.value ≡ wanted s.lusd_balance u.lusd_balance
  pub lqty_balance : t.lqty_balance.value ≡ wanted s.lqty_balance u.lqty_balance
  pub uni_token_balance : t.uni_token_balance.value ≡ wanted s.uni_token_balance u.uni_token_balance
  pub uni_token_allowance :
      t.uni_token_allowance.value ≡ wanted s.uni_token_allowance u.uni_token_allowance
  pub remaining_liquidity_mining_lqty_reward :
      t.remaining_liquidity_mining_lqty_reward.value
      ≡ wanted s.remaining_liquidity_mining_lqty_reward u.remaining_liquidity_mining_lqty_reward
  pub liquidity_mining_stake :
      t.liquidity_mining_stake.value ≡ wanted s.liquidity_mining_stake u.liquidity_mining_stake
  pub total_staked_uni_tokens :
      t.total_staked_uni_tokens.value ≡ wanted s.total_staked_uni_tokens u.total_staked_uni_tokens
  pub liquidity_mining_lqty_reward :
      t.liquidity_mining_lqty_reward.value
      ≡ wanted s.liquidity_mining_lqty_reward u.liquidity_mining_lqty_reward
  pub collateral_surplus_balance :
      t.collateral_surplus_balance.value
      ≡ wanted s.collateral_surplus_balance u.collateral_surplus_balance
  pub price : t.price.value ≡ wanted s.price u.price
  pub lusd_in_stability_pool :
      t.lusd_in_stability_pool.value ≡ wanted s.lusd_in_stability_pool u.lusd_in_stability_pool
  pub total : t.total.value ≡ wanted s.total u.total
  pub total_redistributed :
      t.total_redistributed.value ≡ wanted s.total_redistributed u.total_redistributed
  pub trove_before_redistribution :
      t.trove_before_redistribution.value
      ≡ wanted s.trove_before_redistribution u.trove_before_redistribution
  pub stability_deposit : t.stability_deposit.value ≡ wanted s.stability_deposit u.stability_deposit
  pub remaining_stability_pool_lqty_reward :
      t.remaining_stability_pool_lqty_reward.value
      ≡ wanted s.remaining_stability_pool_lqty_reward u.remaining_stability_pool_lqty_reward
  pub fees_in_normal_mode :
      t.fees_in_normal_mode.value ≡ wanted s.fees_in_normal_mode u.fees_in_normal_mode
  pub lqty_stake : t.lqty_stake.value ≡ wanted s.lqty_stake u.lqty_stake
  pub total_staked_lqty : t.total_staked_lqty.value ≡ wanted s.total_staked_lqty u.total_staked_lqty
  pub riskiest_trove_before_redistribution :
      t.riskiest_trove_before_redistribution.value
      ≡ wanted s.riskiest_trove_before_redistribution u.riskiest_trove_before_redistribution

-- After an update every variable that it defines has the value that it brings, and every other
-- variable its old value.
pub reduce-HasValues : (s : BaseState) (u : BaseUpdate) → HasValues s u (reduce s u)
unfolding reduce
reduce-HasValues s u = record {
  frontend = value-update frontend_status_equals_iff s.frontend u.frontend;
  own_frontend = value-update frontend_status_equals_iff s.own_frontend u.own_frontend;
  number_of_troves = update_number-wanted s.number_of_troves u.number_of_troves;
  account_balance = value-update eq_lem s.account_balance u.account_balance;
  lusd_balance = value-update eq_lem s.lusd_balance u.lusd_balance;
  lqty_balance = value-update eq_lem s.lqty_balance u.lqty_balance;
  uni_token_balance = value-update eq_lem s.uni_token_balance u.uni_token_balance;
  uni_token_allowance = value-update eq_lem s.uni_token_allowance u.uni_token_allowance;
  remaining_liquidity_mining_lqty_reward =
      value-silently eq_lem s.remaining_liquidity_mining_lqty_reward
        u.remaining_liquidity_mining_lqty_reward;
  liquidity_mining_stake = value-update eq_lem s.liquidity_mining_stake u.liquidity_mining_stake;
  total_staked_uni_tokens = value-update eq_lem s.total_staked_uni_tokens u.total_staked_uni_tokens;
  liquidity_mining_lqty_reward =
      value-silently eq_lem s.liquidity_mining_lqty_reward u.liquidity_mining_lqty_reward;
  collateral_surplus_balance =
      value-update eq_lem s.collateral_surplus_balance u.collateral_surplus_balance;
  price = value-update eq_lem s.price u.price;
  lusd_in_stability_pool = value-update eq_lem s.lusd_in_stability_pool u.lusd_in_stability_pool;
  total = value-update equals_iff s.total u.total;
  total_redistributed = value-update equals_iff s.total_redistributed u.total_redistributed;
  trove_before_redistribution =
      value-update pending_equals_iff s.trove_before_redistribution u.trove_before_redistribution;
  stability_deposit = value-update deposit_equals_iff s.stability_deposit u.stability_deposit;
  remaining_stability_pool_lqty_reward =
      value-silently eq_lem s.remaining_stability_pool_lqty_reward
        u.remaining_stability_pool_lqty_reward;
  fees_in_normal_mode = value-silently fees_equals_iff s.fees_in_normal_mode u.fees_in_normal_mode;
  lqty_stake = value-update stake_equals_iff s.lqty_stake u.lqty_stake;
  total_staked_lqty = value-update eq_lem s.total_staked_lqty u.total_staked_lqty;
  riskiest_trove_before_redistribution =
      value-silently pending_equals_iff s.riskiest_trove_before_redistribution
        u.riskiest_trove_before_redistribution;
}
