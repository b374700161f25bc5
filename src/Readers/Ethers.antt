-- ===== src/Readers/Ethers.antt =====
-- packages/lib-ethers/src/ReadableEthersLiquity.ts: `ReadableEthersLiquity`, which reads the contracts.
-- The contracts and the provider are a parameter. `decimalify` is the identity on the number that a
-- `Decimal` keeps; `numberify` may throw, and is a parameter too.
pub mod Reads
pub mod Composed
use Prim.Native.String.{String}
use liquity.Common.{
  ℕ, ◌+◌, ◌-◌, ◌*◌, ◌≡◌, Bool, true, false, Option, none, some, List, [], ◌∷◌, map, if◌then◌else◌,
  ◌==◌, Result, ok, err, ◌>>=◌, ◌>>◌, user_address_required, frontend_address_required,
  invalid_backend_status, must_be_integer, must_not_be_negative, invalid_sorting,
}
use liquity.Decimal.{Decimal, mul, sub}
use liquity.Decimal
use liquity.Fees.{Fees, new_fees}
use liquity.Trove.{Trove, trove, plus, collateral_ratio_is_below_critical}
use liquity.Trove.User.{
  UserTroveStatus, non_existent, open_trove, closed_by_owner, closed_by_liquidation,
  closed_by_redemption, UserTrove, PendingTrove, apply_redistribution,
}
use liquity.StabilityDeposit.{StabilityDeposit, new_deposit}
use liquity.LqtyStake.{LqtyStake}
use liquity.LiquityStore.State.{FrontendStatus, registered, unregistered}
use liquity.Readers.{
  Count, natural, negative, not_integer, SortedBy, ascending_collateral_ratio,
  descending_collateral_ratio, other_order, ListingParams, Readable,
}
use liquity.Readers.Cached.{map_results}

-- `BlockTag`: a number, or a word such as "latest"
pub data BlockTag : Type 0 where
  number : ℕ → BlockTag
  word : String → BlockTag

-- `EthersCallOverrides`
pub record Overrides : Type 0 where
  pub block_tag : Option BlockTag

-- `{ ...overrides }`
abbrev pub spread : Option Overrides → Overrides
spread none = record { block_tag = none }
spread (some o) = o

-- `overrides?.blockTag`
abbrev pub tag_of : Option Overrides → Option BlockTag
tag_of none = none
tag_of (some o) = o.block_tag

-- `EthersLiquityConnection`, what is read of it here
pub record Connection : Type 0 where
  pub user_address : Option String
  pub frontend_tag : Option String
  pub total_stability_pool_lqty_reward : Decimal

-- What the contracts return
pub record BackendTrove : Type 0 where
  pub owner : String
  pub status : ℕ
  pub coll : ℕ
  pub debt : ℕ
  pub stake : ℕ
  pub snapshot_eth : ℕ
  pub snapshot_lusd_debt : ℕ

-- The first argument of `getMultipleSortedTroves`, an integer: `from_tail n` is -(n + 1).
pub data StartIndex : Type 0 where
  from_head from_tail : ℕ → StartIndex

-- The contracts' functions, and the provider's; `spender` is the address of `unipool`.
pub record Contracts : Type 0 where
  pub to_number : ℕ → Result ℕ
  pub l_eth : Overrides → Result ℕ
  pub l_lusd_debt : Overrides → Result ℕ
  pub troves : String → Overrides → Result BackendTrove
  pub reward_snapshots : String → Overrides → Result (ℕ × ℕ)
  pub trove_owners_count : Overrides → Result ℕ
  pub fetch_price : Overrides → Result ℕ
  pub active_pool_eth : Overrides → Result ℕ
  pub active_pool_lusd_debt : Overrides → Result ℕ
  pub default_pool_eth : Overrides → Result ℕ
  pub default_pool_lusd_debt : Overrides → Result ℕ
  pub deposits : String → Overrides → Result (String × ℕ)
  pub compounded_lusd_deposit : String → Overrides → Result ℕ
  pub depositor_eth_gain : String → Overrides → Result ℕ
  pub depositor_lqty_gain : String → Overrides → Result ℕ
  pub total_lqty_issued : Overrides → Result ℕ
  pub total_lusd_deposits : Overrides → Result ℕ
  pub lusd_balance_of : String → Overrides → Result ℕ
  pub lqty_balance_of : String → Overrides → Result ℕ
  pub uni_balance_of : String → Overrides → Result ℕ
  pub uni_allowance : (owner spender : String) → Overrides → Result ℕ
  pub unipool_address : String
  pub unipool_total_supply : Overrides → Result ℕ
  pub reward_rate : Overrides → Result ℕ
  pub period_finish : Overrides → Result ℕ
  pub last_update_time : Overrides → Result ℕ
  pub unipool_balance_of : String → Overrides → Result ℕ
  pub earned : String → Overrides → Result ℕ
  pub surplus_collateral : String → Overrides → Result ℕ
  pub multiple_sorted_troves : StartIndex → ℕ → Overrides → Result (List BackendTrove)
  pub block_timestamp : BlockTag → Result ℕ
  pub last_fee_operation_time : Overrides → Result ℕ
  pub base_rate : Overrides → Result ℕ
  pub stakes : String → Overrides → Result ℕ
  pub pending_eth_gain : String → Overrides → Result ℕ
  pub pending_lusd_gain : String → Overrides → Result ℕ
  pub total_lqty_staked : Overrides → Result ℕ
  pub front_ends : String → Overrides → Result (Bool × ℕ)
  pub account_balance : String → Option BlockTag → Result ℕ

-- `MINUTE_DECAY_FACTOR`, `BETA`
abbrev pub minute_decay_factor : Decimal
minute_decay_factor = 999037758833783000

abbrev pub beta : Decimal
beta = 2000000000000000000

-- `userTroveStatusFrom`
unfoldable pub user_trove_status_from : ℕ → Result UserTroveStatus
user_trove_status_from n =
    if n == 0
    then ok non_existent
    else if n == 1
    then ok open_trove
    else if n == 2
    then ok closed_by_owner
    else if n == 3
    then ok closed_by_liquidation
    else if n == 4
    then ok closed_by_redemption
    else err invalid_backend_status

-- `convertToDate`: milliseconds
abbrev pub convert_to_date : ℕ → ℕ
convert_to_date timestamp = timestamp * 1000

-- `expectPositiveInt`, for one key
unfoldable pub expect_positive_int : Option Count → Result (Option ℕ)
expect_positive_int none = ok none
expect_positive_int (some not_integer) = err must_be_integer
expect_positive_int (some (negative n)) = err must_not_be_negative
expect_positive_int (some (natural n)) = ok (some n)
