-- ===== src/Readers/Ethers/Reads.antt =====
-- packages/lib-ethers/src/ReadableEthersLiquity.ts: the methods of `ReadableEthersLiquity`.
use Prim.Native.String.{String}
use liquity.Common.{
  ℕ, ◌-◌, ◌*◌, Bool, Option, none, some, List, map, if◌then◌else◌, ◌==◌, Result, ok, err, ◌>>=◌,
  user_address_required, frontend_address_required, invalid_sorting,
}
use liquity.Decimal.{Decimal, digits, mul, sub}
use liquity.Fees.{Fees, new_fees}
use liquity.Trove.{Trove, trove, plus, collateral_ratio_is_below_critical}
use liquity.Trove.User.{open_trove, UserTrove, PendingTrove, apply_redistribution}
use liquity.StabilityDeposit.{StabilityDeposit, new_deposit}
use liquity.LqtyStake.{LqtyStake}
use liquity.LiquityStore.State.{FrontendStatus, registered, unregistered}
use liquity.Readers.{
  SortedBy, ascending_collateral_ratio, descending_collateral_ratio, other_order, ListingParams,
  Readable,
}
use liquity.Readers.Cached.{map_results}
use liquity.Readers.Ethers.{
  BlockTag, word, Overrides, spread, tag_of, Connection, BackendTrove, StartIndex, from_head,
  from_tail, Contracts, minute_decay_factor, beta, user_trove_status_from, convert_to_date,
  expect_positive_int,
}

-- `address ??= _requireAddress(connection)`, and the same for a frontend's address
abbrev or_required : Option String → Option String → Result String
or_required (some a) mine = ok a
or_required none (some a) = ok a
or_required none none = err user_address_required

abbrev or_frontend : Option String → Option String → Result String
or_frontend (some a) mine = ok a
or_frontend none (some a) = ok a
or_frontend none none = err frontend_address_required

abbrev or_zero : Option ℕ → ℕ
or_zero none = 0
or_zero (some n) = n

-- `mapBackendTroves`, for one Trove
abbrev pub listed_trove : BackendTrove → PendingTrove
listed_trove t = record {
  user = record { owner_address = t.owner; status = open_trove; base = trove t.coll t.debt };
  stake = t.stake;
  snapshot_of_total_redistributed = trove t.snapshot_eth t.snapshot_lusd_debt;
}

-- The first argument of `getMultipleSortedTroves`, for valid orders.
unfoldable pub start_index : SortedBy → ℕ → Result StartIndex
start_index descending_collateral_ratio n = ok (from_head n)
start_index ascending_collateral_ratio n = ok (from_tail n)
start_index other_order n = err invalid_sorting

module _ (k : Connection) (c : Contracts) where
  unfoldable pub read_total_redistributed : Option Overrides → Result Trove
  read_total_redistributed o = do
    collateral ← c.l_eth (spread o)
    debt ← c.l_lusd_debt (spread o)
    ok (trove collateral debt)

  -- A Trove that is not active has no numbers.
  unfoldable pub read_trove_before_redistribution :
      Option String → Option Overrides → Result PendingTrove
  read_trove_before_redistribution a o = do
    address ← or_required a k.user_address
    t ← c.troves address (spread o)
    snapshot ← c.reward_snapshots address (spread o)
    status ← user_trove_status_from t.status
    ok (
        if t.status == 1
        then record {
          user = record { owner_address = address; status = status; base = trove t.coll t.debt };
          stake = t.stake;
          snapshot_of_total_redistributed = trove snapshot.0 snapshot.1;
        }
        else record {
          user = record { owner_address = address; status = status; base = trove 0 0 };
          stake = 0;
          snapshot_of_total_redistributed = trove 0 0;
        })

  unfoldable pub read_trove : Option String → Option Overrides → Result UserTrove
  unfolding read_trove_before_redistribution read_total_redistributed
  read_trove a o = do
    t ← read_trove_before_redistribution a o
    total ← read_total_redistributed o
    apply_redistribution t total

  unfoldable pub read_number_of_troves : Option Overrides → Result ℕ
  read_number_of_troves o = c.trove_owners_count (spread o) >>= λ n. c.to_number n

  -- `_getActivePool`, `_getDefaultPool`
  unfoldable pub active_pool : Option Overrides → Result Trove
  active_pool o = do
    collateral ← c.active_pool_eth (spread o)
    debt ← c.active_pool_lusd_debt (spread o)
    ok (trove collateral debt)

  unfoldable pub default_pool : Option Overrides → Result Trove
  default_pool o = do
    collateral ← c.default_pool_eth (spread o)
    debt ← c.default_pool_lusd_debt (spread o)
    ok (trove collateral debt)

  unfoldable pub read_total : Option Overrides → Result Trove
  unfolding active_pool default_pool
  read_total o = do active ← active_pool o; liquidated ← default_pool o; ok (plus active liquidated)

  unfoldable pub read_stability_deposit : Option String → Option Overrides → Result StabilityDeposit
  read_stability_deposit a o = do
    address ← or_required a k.user_address
    d ← c.deposits address (spread o)
    current ← c.compounded_lusd_deposit address (spread o)
    gain ← c.depositor_eth_gain address (spread o)
    reward ← c.depositor_lqty_gain address (spread o)
    new_deposit d.1 current gain reward d.0

  unfoldable pub read_remaining_stability_pool_lqty_reward : Option Overrides → Result Decimal
  read_remaining_stability_pool_lqty_reward o = do
    issued ← c.total_lqty_issued (spread o)
    sub k.total_stability_pool_lqty_reward issued

  -- A balance of an address, from one of the contracts.
  unfoldable pub read_balance :
      (String → Overrides → Result ℕ) → Option String → Option Overrides → Result Decimal
  read_balance balance a o = or_required a k.user_address >>= λ address. balance address (spread o)

  -- `_getRemainingLiquidityMiningLQTYRewardCalculator`; `-` stops at 0, as `Math.max(0, …)` does
  unfoldable pub remaining_reward_calculator : Option Overrides → Result (ℕ → Decimal)
  remaining_reward_calculator o = do
    supply ← c.unipool_total_supply (spread o)
    rate ← c.reward_rate (spread o)
    finish ← c.period_finish (spread o) >>= λ n. c.to_number n
    last ← c.last_update_time (spread o) >>= λ n. c.to_number n
    ok (λ timestamp. mul rate ((finish - (if supply == 0 then last else timestamp)) * digits))

  -- `_getBlockTimestamp`, with "latest" for a block that is not given
  unfoldable pub read_block_timestamp : Option BlockTag → Result ℕ
  read_block_timestamp none = c.block_timestamp (word "latest")
  read_block_timestamp (some tag) = c.block_timestamp tag

  unfoldable pub read_remaining_liquidity_mining_lqty_reward : Option Overrides → Result Decimal
  unfolding remaining_reward_calculator read_block_timestamp
  read_remaining_liquidity_mining_lqty_reward o = do
    calculate ← remaining_reward_calculator o
    timestamp ← read_block_timestamp (tag_of o)
    ok (calculate timestamp)

  -- `getTroves` up to the redistribution: guards, the call, and the Troves of its answer
  unfoldable pub read_troves_before_redistribution :
      ListingParams → Option Overrides → Result (List PendingTrove)
  unfolding expect_positive_int start_index
  read_troves_before_redistribution p o = do
    first ← expect_positive_int (some p.first)
    starting_at ← expect_positive_int p.starting_at
    index ← start_index p.sorted_by (or_zero starting_at)
    troves ← c.multiple_sorted_troves index (or_zero first) (spread o)
    ok (map listed_trove troves)

  -- `getTroves`, when `beforeRedistribution` is not set
  unfoldable pub read_troves : ListingParams → Option Overrides → Result (List UserTrove)
  unfolding read_troves_before_redistribution read_total_redistributed map_results
  read_troves p o = do
    troves ← read_troves_before_redistribution p o
    total ← read_total_redistributed o
    map_results (λ t. apply_redistribution t total) troves

  -- `_getFeesFactory`
  unfoldable pub fees_factory : Option Overrides → Result (ℕ → Bool → Result Fees)
  fees_factory o = do
    time ← c.last_fee_operation_time (spread o)
    base ← c.base_rate (spread o)
    ok (λ timestamp recovery. c.to_number time >>= λ last.
        new_fees base minute_decay_factor beta (convert_to_date last) (convert_to_date timestamp)
          recovery)

  unfoldable pub read_price : Option Overrides → Result Decimal
  read_price o = c.fetch_price (spread o)

  unfoldable pub read_fees : Option Overrides → Result Fees
  unfolding fees_factory read_total read_price read_block_timestamp
  read_fees o = do
    create ← fees_factory o
    total ← read_total o
    price ← read_price o
    timestamp ← read_block_timestamp (tag_of o)
    create timestamp (collateral_ratio_is_below_critical total price)

  unfoldable pub read_lqty_stake : Option String → Option Overrides → Result LqtyStake
  read_lqty_stake a o = do
    address ← or_required a k.user_address
    staked ← c.stakes address (spread o)
    gain ← c.pending_eth_gain address (spread o)
    lusd ← c.pending_lusd_gain address (spread o)
    ok (record { staked_lqty = staked; collateral_gain = gain; lusd_gain = lusd })

  unfoldable pub read_frontend_status : Option String → Option Overrides → Result FrontendStatus
  read_frontend_status a o = do
    address ← or_frontend a k.frontend_tag
    f ← c.front_ends address (spread o)
    ok (if f.0 then registered f.1 else unregistered)

  -- `ReadableEthersLiquity`
  unfoldable pub ethers : Readable (Option Overrides)
  ethers = record {
    get_total_redistributed = read_total_redistributed;
    get_trove_before_redistribution = read_trove_before_redistribution;
    get_trove = read_trove;
    get_number_of_troves = read_number_of_troves;
    get_price = read_price;
    get_total = read_total;
    get_stability_deposit = read_stability_deposit;
    get_remaining_stability_pool_lqty_reward = read_remaining_stability_pool_lqty_reward;
    get_lusd_in_stability_pool = λ o. c.total_lusd_deposits (spread o);
    get_lusd_balance = read_balance c.lusd_balance_of;
    get_lqty_balance = read_balance c.lqty_balance_of;
    get_uni_token_balance = read_balance c.uni_balance_of;
    get_uni_token_allowance = read_balance (λ a o. c.uni_allowance a c.unipool_address o);
    get_remaining_liquidity_mining_lqty_reward = read_remaining_liquidity_mining_lqty_reward;
    get_liquidity_mining_stake = read_balance c.unipool_balance_of;
    get_total_staked_uni_tokens = λ o. c.unipool_total_supply (spread o);
    get_liquidity_mining_lqty_reward = read_balance c.earned;
    get_collateral_surplus_balance = read_balance c.surplus_collateral;
    get_troves_before_redistribution = read_troves_before_redistribution;
    get_troves = read_troves;
    get_fees = read_fees;
    get_lqty_stake = read_lqty_stake;
    get_total_staked_lqty = λ o. c.total_lqty_staked (spread o);
    get_frontend_status = read_frontend_status;
  }
