-- ===== src/LiquityStore/Reduce.antt =====
-- packages/lib-base/src/LiquityStore.ts: `_reduce`, which merges an update into the base state, and
-- `difference`, which compares two states variable by variable. Logging is left out.
use liquity.Common.{ℕ, Bool, Option, none, some, ◌==◌, if◌then◌else◌}
use liquity.Decimal.{eq}
use liquity.Fees
use liquity.Trove
use liquity.Trove.User.{pending_equals}
use liquity.StabilityDeposit
use liquity.LqtyStake
use liquity.LiquityStore.State.{Ref, frontend_status_equals, BaseState, BaseUpdate}

-- `_updateIfChanged`
unfoldable pub update_if_changed : {A : Type 0} → (A → A → Bool) → Ref A → Option (Ref A) → Ref A
update_if_changed equals prev none = prev
update_if_changed equals prev (some next) = if equals prev.value next.value then prev else next

-- `_silentlyUpdateIfChanged`
unfoldable pub silently_update_if_changed :
    {A : Type 0} → (A → A → Bool) → Ref A → Option (Ref A) → Ref A
silently_update_if_changed equals prev none = prev
silently_update_if_changed equals prev (some next) =
    if equals prev.value next.value then prev else next

-- `_updateIfChanged` with `strictEquals`, for a number
unfoldable pub update_number : ℕ → Option ℕ → ℕ
update_number prev none = prev
update_number prev (some next) = if prev == next then prev else next

-- `_reduce`
unfoldable pub reduce : BaseState → BaseUpdate → BaseState
unfolding update_if_changed silently_update_if_changed update_number
reduce s u = record {
  frontend = update_if_changed frontend_status_equals s.frontend u.frontend;
  own_frontend = update_if_changed frontend_status_equals s.own_frontend u.own_frontend;
  number_of_troves = update_number s.number_of_troves u.number_of_troves;
  account_balance = update_if_changed eq s.account_balance u.account_balance;
  lusd_balance = update_if_changed eq s.lusd_balance u.lusd_balance;
  lqty_balance = update_if_changed eq s.lqty_balance u.lqty_balance;
  uni_token_balance = update_if_changed eq s.uni_token_balance u.uni_token_balance;
  uni_token_allowance = update_if_changed eq s.uni_token_allowance u.uni_token_allowance;
  remaining_liquidity_mining_lqty_reward =
      silently_update_if_changed eq s.remaining_liquidity_mining_lqty_reward
        u.remaining_liquidity_mining_lqty_reward;
  liquidity_mining_stake = update_if_changed eq s.liquidity_mining_stake u.liquidity_mining_stake;
  total_staked_uni_tokens =
      update_if_changed eq s.total_staked_uni_tokens u.total_staked_uni_tokens;
  liquidity_mining_lqty_reward =
      silently_update_if_changed eq s.liquidity_mining_lqty_reward u.liquidity_mining_lqty_reward;
  collateral_surplus_balance =
      update_if_changed eq s.collateral_surplus_balance u.collateral_surplus_balance;
  price = update_if_changed eq s.price u.price;
  lusd_in_stability_pool = update_if_changed eq s.lusd_in_stability_pool u.lusd_in_stability_pool;
  total = update_if_changed Trove.equals s.total u.total;
  total_redistributed = update_if_changed Trove.equals s.total_redistributed u.total_redistributed;
  trove_before_redistribution =
      update_if_changed pending_equals s.trove_before_redistribution u.trove_before_redistribution;
  stability_deposit =
      update_if_changed StabilityDeposit.equals s.stability_deposit u.stability_deposit;
  remaining_stability_pool_lqty_reward =
      silently_update_if_changed eq s.remaining_stability_pool_lqty_reward
        u.remaining_stability_pool_lqty_reward;
  fees_in_normal_mode =
      silently_update_if_changed Fees.equals s.fees_in_normal_mode u.fees_in_normal_mode;
  lqty_stake = update_if_changed LqtyStake.equals s.lqty_stake u.lqty_stake;
  total_staked_lqty = update_if_changed eq s.total_staked_lqty u.total_staked_lqty;
  riskiest_trove_before_redistribution =
      silently_update_if_changed pending_equals s.riskiest_trove_before_redistribution
        u.riskiest_trove_before_redistribution;
}

-- A variable of `difference(a, b)`: objects are compared by identity, numbers by value.
abbrev pub changed : {A : Type 0} → Ref A → Ref A → Option (Ref A)
changed a b = if a.identity == b.identity then none else some a

abbrev pub changed_number : ℕ → ℕ → Option ℕ
changed_number a b = if a == b then none else some a

-- `difference`, for the variables of the base state
unfoldable pub base_difference : BaseState → BaseState → BaseUpdate
base_difference a b = record {
  frontend = changed a.frontend b.frontend;
  own_frontend = changed a.own_frontend b.own_frontend;
  number_of_troves = changed_number a.number_of_troves b.number_of_troves;
  account_balance = changed a.account_balance b.account_balance;
  lusd_balance = changed a.lusd_balance b.lusd_balance;
  lqty_balance = changed a.lqty_balance b.lqty_balance;
  uni_token_balance = changed a.uni_token_balance b.uni_token_balance;
  uni_token_allowance = changed a.uni_token_allowance b.uni_token_allowance;
  remaining_liquidity_mining_lqty_reward =
      changed a.remaining_liquidity_mining_lqty_reward b.remaining_liquidity_mining_lqty_reward;
  liquidity_mining_stake = changed a.liquidity_mining_stake b.liquidity_mining_stake;
  total_staked_uni_tokens = changed a.total_staked_uni_tokens b.total_staked_uni_tokens;
  liquidity_mining_lqty_reward =
      changed a.liquidity_mining_lqty_reward b.liquidity_mining_lqty_reward;
  collateral_surplus_balance = changed a.collateral_surplus_balance b.collateral_surplus_balance;
  price = changed a.price b.price;
  lusd_in_stability_pool = changed a.lusd_in_stability_pool b.lusd_in_stability_pool;
  total = changed a.total b.total;
  total_redistributed = changed a.total_redistributed b.total_redistributed;
  trove_before_redistribution = changed a.trove_before_redistribution b.trove_before_redistribution;
  stability_deposit = changed a.stability_deposit b.stability_deposit;
  remaining_stability_pool_lqty_reward =
      changed a.remaining_stability_pool_lqty_reward b.remaining_stability_pool_lqty_reward;
  fees_in_normal_mode = changed a.fees_in_normal_mode b.fees_in_normal_mode;
  lqty_stake = changed a.lqty_stake b.lqty_stake;
  total_staked_lqty = changed a.total_staked_lqty b.total_staked_lqty;
  riskiest_trove_before_redistribution =
      changed a.riskiest_trove_before_redistribution b.riskiest_trove_before_redistribution;
}
