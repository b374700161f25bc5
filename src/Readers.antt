-- ===== src/Readers.antt =====
-- packages/lib-base/src/ReadableLiquity.ts: what a client may read of the system, an interface. Its
-- implementations are in the children: Cached, the reads of lib-base with a cache in front; Ethers,
-- the reads of lib-ethers from the contracts; Polled, those from the store. All reads of one call
-- see one state of the chain, and a promise that is rejected is an error; of several that are awaited
-- together, the model takes the error of the first one, in an order of its own.
pub mod Cached
pub mod Ethers
pub mod Fetch
pub mod Polled
use Prim.Native.String.{String}
use liquity.Common.{ℕ, Option, List, Result}
use liquity.Decimal.{Decimal}
use liquity.Fees.{Fees}
use liquity.Trove.{Trove}
use liquity.Trove.User.{UserTrove, PendingTrove}
use liquity.StabilityDeposit.{StabilityDeposit}
use liquity.LqtyStake.{LqtyStake}
use liquity.LiquityStore.State.{FrontendStatus}

-- A number where a natural one is expected: `negative n` is -(n + 1).
pub data Count : Type 0 where
  natural negative : ℕ → Count
  not_integer : Count

-- `sortedBy`, with what is neither of its two values
pub data SortedBy : Type 0 where
  ascending_collateral_ratio descending_collateral_ratio other_order : SortedBy

-- `TroveListingParams`, but for `beforeRedistribution`
pub record ListingParams : Type 0 where
  pub first : Count
  pub sorted_by : SortedBy
  pub starting_at : Option Count

-- `ReadableLiquity`, with extra parameters T, as `_ReadableLiquityWithExtraParams`. The overloads of
-- `getTroves` are two operations.
pub record Readable (T : Type 0) : Type 0 where
  pub get_total_redistributed : T → Result Trove
  pub get_trove_before_redistribution : Option String → T → Result PendingTrove
  pub get_trove : Option String → T → Result UserTrove
  pub get_number_of_troves : T → Result ℕ
  pub get_price : T → Result Decimal
  pub get_total : T → Result Trove
  pub get_stability_deposit : Option String → T → Result StabilityDeposit
  pub get_remaining_stability_pool_lqty_reward : T → Result Decimal
  pub get_lusd_in_stability_pool : T → Result Decimal
  pub get_lusd_balance : Option String → T → Result Decimal
  pub get_lqty_balance : Option String → T → Result Decimal
  pub get_uni_token_balance : Option String → T → Result Decimal
  pub get_uni_token_allowance : Option String → T → Result Decimal
  pub get_remaining_liquidity_mining_lqty_reward : T → Result Decimal
  pub get_liquidity_mining_stake : Option String → T → Result Decimal
  pub get_total_staked_uni_tokens : T → Result Decimal
  pub get_liquidity_mining_lqty_reward : Option String → T → Result Decimal
  pub get_collateral_surplus_balance : Option String → T → Result Decimal
  pub get_troves_before_redistribution : ListingParams → T → Result (List PendingTrove)
  pub get_troves : ListingParams → T → Result (List UserTrove)
  pub get_fees : T → Result Fees
  pub get_lqty_stake : Option String → T → Result LqtyStake
  pub get_total_staked_lqty : T → Result Decimal
  pub get_frontend_status : Option String → T → Result FrontendStatus
