-- ===== src/LiquityStore/State.antt =====
-- packages/lib-base/src/LiquityStore.ts: the variables of the state, and updates of them.
-- The store tells an object of the state from another by its identity, so a variable that holds an
-- object is a reference: the object's identity and its value. The objects are immutable.
use liquity.Common.{ℕ, Bool, true, false, Option}
use liquity.Decimal.{Decimal, eq}
use liquity.Fees.{Fees}
use liquity.Trove.{Trove}
use liquity.Trove.User.{UserTrove, PendingTrove}
use liquity.StabilityDeposit.{StabilityDeposit}
use liquity.LqtyStake.{LqtyStake}

pub record Ref (A : Type 0) : Type 0 where
  pub identity : ℕ
  pub value : A

-- `FrontendStatus`; a registered frontend has its kickback rate
pub data FrontendStatus : Type 0 where
  unregistered : FrontendStatus
  registered : Decimal → FrontendStatus

unfoldable pub frontend_status_equals : FrontendStatus → FrontendStatus → Bool
frontend_status_equals unregistered unregistered = true
frontend_status_equals unregistered (registered r) = false
frontend_status_equals (registered r) unregistered = false
frontend_status_equals (registered r) (registered s) = eq r s

-- `LiquityStoreBaseState`
pub record BaseState : Type 0 where
  pub frontend : Ref FrontendStatus
  pub own_frontend : Ref FrontendStatus
  pub number_of_troves : ℕ
  pub account_balance : Ref Decimal
  pub lusd_balance : Ref Decimal
  pub lqty_balance : Ref Decimal
  pub uni_token_balance : Ref Decimal
  pub uni_token_allowance : Ref Decimal
  pub remaining_liquidity_mining_lqty_reward : Ref Decimal
  pub liquidity_mining_stake : Ref Decimal
  pub total_staked_uni_tokens : Ref Decimal
  pub liquidity_mining_lqty_reward : Ref Decimal
  pub collateral_surplus_balance : Ref Decimal
  pub price : Ref Decimal
  pub lusd_in_stability_pool : Ref Decimal
  pub total : Ref Trove
  pub total_redistributed : Ref Trove
  pub trove_before_redistribution : Ref PendingTrove
  pub stability_deposit : Ref StabilityDeposit
  pub remaining_stability_pool_lqty_reward : Ref Decimal
  pub fees_in_normal_mode : Ref Fees
  pub lqty_stake : Ref LqtyStake
  pub total_staked_lqty : Ref Decimal
  pub riskiest_trove_before_redistribution : Ref PendingTrove

-- `Partial<LiquityStoreBaseState>`; `none` is `undefined`
pub record BaseUpdate : Type 0 where
  pub frontend : Option (Ref FrontendStatus)
  pub own_frontend : Option (Ref FrontendStatus)
  pub number_of_troves : Option ℕ
  pub account_balance : Option (Ref Decimal)
  pub lusd_balance : Option (Ref Decimal)
  pub lqty_balance : Option (Ref Decimal)
  pub uni_token_balance : Option (Ref Decimal)
  pub uni_token_allowance : Option (Ref Decimal)
  pub remaining_liquidity_mining_lqty_reward : Option (Ref Decimal)
  pub liquidity_mining_stake : Option (Ref Decimal)
  pub total_staked_uni_tokens : Option (Ref Decimal)
  pub liquidity_mining_lqty_reward : Option (Ref Decimal)
  pub collateral_surplus_balance : Option (Ref Decimal)
  pub price : Option (Ref Decimal)
  pub lusd_in_stability_pool : Option (Ref Decimal)
  pub total : Option (Ref Trove)
  pub total_redistributed : Option (Ref Trove)
  pub trove_before_redistribution : Option (Ref PendingTrove)
  pub stability_deposit : Option (Ref StabilityDeposit)
  pub remaining_stability_pool_lqty_reward : Option (Ref Decimal)
  pub fees_in_normal_mode : Option (Ref Fees)
  pub lqty_stake : Option (Ref LqtyStake)
  pub total_staked_lqty : Option (Ref Decimal)
  pub riskiest_trove_before_redistribution : Option (Ref PendingTrove)

-- `LiquityStoreDerivedState`
pub record DerivedState : Type 0 where
  pub trove : Ref UserTrove
  pub fees : Ref Fees
  pub borrowing_rate : Ref Decimal
  pub redemption_rate : Ref Decimal
  pub have_undercollateralized_troves : Bool

-- `Partial<LiquityStoreDerivedState>`
pub record DerivedUpdate : Type 0 where
  pub trove : Option (Ref UserTrove)
  pub fees : Option (Ref Fees)
  pub borrowing_rate : Option (Ref Decimal)
  pub redemption_rate : Option (Ref Decimal)
  pub have_undercollateralized_troves : Option Bool
