-- ===== src/Readers/Polled.antt =====
-- packages/lib-ethers/src/ReadableEthersLiquity.ts: `_BlockPolledReadableEthersLiquity`, which answers
-- from the store where it can. Its `_getActivePool`, `_getDefaultPool` and
-- `_getRemainingLiquidityMiningLQTYRewardCalculator` always throw, and are left out.
pub mod Derived
pub mod Pins
pub mod Pinned
use Prim.Native.String.{String}
use text.Mathlib.Text.{◌==◌ as str_eq}
use liquity.Common.{ℕ, Bool, true, false, ◌&&◌, Option, none, some, if◌then◌else◌, ◌==◌, Result, ok}
use liquity.LiquityStore.State.{BaseState, DerivedState}
use liquity.BlockPolledStore.{ExtraState}
use liquity.Readers.{Readable}
use liquity.Readers.Ethers.{BlockTag, number, word, Overrides, Connection, Contracts}
use liquity.Readers.Ethers.Reads.{read_block_timestamp, fees_factory, ethers}
use liquity.Readers.Fetch.{FeesFactory}

-- `===` of a block tag and the number of the store's block, `undefined` when it has none
abbrev pub is_block : Option ℕ → BlockTag → Bool
is_block none tag = false
is_block (some b) (number n) = b == n
is_block (some b) (word w) = false

-- A block tag that is not given is a hit.
abbrev pub tag_hit : Option ℕ → Option BlockTag → Bool
tag_hit block none = true
tag_hit block (some tag) = is_block block tag

-- `_blockHit`
unfoldable pub block_hit : Option ℕ → Option Overrides → Bool
block_hit block none = true
block_hit block (some o) = tag_hit block o.block_tag

-- An address that is not given, or the connection's
abbrev pub address_hit : Option String → Option String → Bool
address_hit mine none = true
address_hit none (some a) = false
address_hit (some m) (some a) = str_eq a m

-- `_userHit` and `_frontendHit`, with the connection's address of the user or frontend
unfoldable pub user_hit : Option ℕ → Option String → Option String → Option Overrides → Bool
unfolding block_hit
user_hit block mine a o = block_hit block o && address_hit mine a

module _ (k : Connection) (c : Contracts) (b : BaseState) (d : DerivedState)
    (x : ExtraState FeesFactory) where
  unfoldable pub polled : Readable (Option Overrides)
  unfolding block_hit user_hit ethers
  polled = record {
    get_total_redistributed = λ o.
        if block_hit x.block_tag o
        then ok b.total_redistributed.value
        else (ethers k c).get_total_redistributed o;
    get_trove_before_redistribution = λ a o.
        if user_hit x.block_tag k.user_address a o
        then ok b.trove_before_redistribution.value
        else (ethers k c).get_trove_before_redistribution a o;
    get_trove = λ a o.
        if user_hit x.block_tag k.user_address a o
        then ok d.trove.value
        else (ethers k c).get_trove a o;
    get_number_of_troves = λ o.
        if block_hit x.block_tag o
        then ok b.number_of_troves
        else (ethers k c).get_number_of_troves o;
    get_price = λ o. if block_hit x.block_tag o then ok b.price.value else (ethers k c).get_price o;
    get_total = λ o. if block_hit x.block_tag o then ok b.total.value else (ethers k c).get_total o;
    get_stability_deposit = λ a o.
        if user_hit x.block_tag k.user_address a o
        then ok b.stability_deposit.value
        else (ethers k c).get_stability_deposit a o;
    get_remaining_stability_pool_lqty_reward = λ o.
        if block_hit x.block_tag o
        then ok b.remaining_stability_pool_lqty_reward.value
        else (ethers k c).get_remaining_stability_pool_lqty_reward o;
    get_lusd_in_stability_pool = λ o.
        if block_hit x.block_tag o
        then ok b.lusd_in_stability_pool.value
        else (ethers k c).get_lusd_in_stability_pool o;
    get_lusd_balance = λ a o.
        if user_hit x.block_tag k.user_address a o
        then ok b.lusd_balance.value
        else (ethers k c).get_lusd_balance a o;
    get_lqty_balance = λ a o.
        if user_hit x.block_tag k.user_address a o
        then ok b.lqty_balance.value
        else (ethers k c).get_lqty_balance a o;
    get_uni_token_balance = λ a o.
        if user_hit x.block_tag k.user_address a o
        then ok b.uni_token_balance.value
        else (ethers k c).get_uni_token_balance a o;
    get_uni_token_allowance = λ a o.
        if user_hit x.block_tag k.user_address a o
        then ok b.uni_token_allowance.value
        else (ethers k c).get_uni_token_allowance a o;
    get_remaining_liquidity_mining_lqty_reward = λ o.
        if block_hit x.block_tag o
        then ok b.remaining_liquidity_mining_lqty_reward.value
        else (ethers k c).get_remaining_liquidity_mining_lqty_reward o;
    get_liquidity_mining_stake = λ a o.
        if user_hit x.block_tag k.user_address a o
        then ok b.liquidity_mining_stake.value
        else (ethers k c).get_liquidity_mining_stake a o;
    get_total_staked_uni_tokens = λ o.
        if block_hit x.block_tag o
        then ok b.total_staked_uni_tokens.value
        else (ethers k c).get_total_staked_uni_tokens o;
    get_liquidity_mining_lqty_reward = λ a o.
        if user_hit x.block_tag k.user_address a o
        then ok b.liquidity_mining_lqty_reward.value
        else (ethers k c).get_liquidity_mining_lqty_reward a o;
    get_collateral_surplus_balance = λ a o.
        if user_hit x.block_tag k.user_address a o
        then ok b.collateral_surplus_balance.value
        else (ethers k c).get_collateral_surplus_balance a o;
    get_troves_before_redistribution = λ p o. (ethers k c).get_troves_before_redistribution p o;
    get_troves = λ p o. (ethers k c).get_troves p o;
    get_fees = λ o. if block_hit x.block_tag o then ok d.fees.value else (ethers k c).get_fees o;
    get_lqty_stake = λ a o.
        if user_hit x.block_tag k.user_address a o
        then ok b.lqty_stake.value
        else (ethers k c).get_lqty_stake a o;
    get_total_staked_lqty = λ o.
        if block_hit x.block_tag o
        then ok b.total_staked_lqty.value
        else (ethers k c).get_total_staked_lqty o;
    get_frontend_status = λ a o.
        if user_hit x.block_tag k.frontend_tag a o
        then ok b.frontend.value
        else (ethers k c).get_frontend_status a o;
  }

  -- `_getBlockTimestamp`, `_getFeesFactory`
  unfoldable pub polled_timestamp : Option BlockTag → Result ℕ
  polled_timestamp tag =
      if tag_hit x.block_tag tag then ok x.block_timestamp else read_block_timestamp k c tag

  unfoldable pub polled_fees_factory : Option Overrides → Result FeesFactory
  polled_fees_factory o = if block_hit x.block_tag o then ok x.fees_factory else fees_factory k c o
