-- ===== src/Examples/Reads.antt =====
-- Contracts given by concrete functions, a fetch from them, and the readers' theorems on it.
use liquity.Common.{
  ℕ, ◌*◌, ◌≡◌, refl, ap, Bool, true, false, Option, none, some, [], ◌∷◌, Result, ok, ◌==◌,
  if◌then◌else◌, arith,
}
use liquity.Decimal.{digits, sub, mul}
use liquity.Fees.{Fees, new_fees, minutes_since}
use liquity.Trove.{trove, plus}
use liquity.Trove.User.{open_trove, PendingTrove}
use liquity.StabilityDeposit.{new_deposit}
use liquity.LiquityStore.State.{registered, BaseState, DerivedState}
use liquity.LiquityStore.Derive.{DerivedIds, derive}
use liquity.LiquityStore.Derive.Rates.{Describes, derive-Describes}
use liquity.BlockPolledStore.{ExtraState}
use liquity.Readers.Cached.{ReadCache, cached}
use liquity.Readers.Cached.Coherent.{Holds, IsCoherent, cached-same}
use liquity.Readers.Ethers.{
  number, word, BlockTag, Overrides, Connection, BackendTrove, Contracts, user_trove_status_from,
  expect_positive_int, minute_decay_factor, beta,
}
use liquity.Readers.Ethers.Composed.{ethers-IsComposed}
use liquity.Readers.Ethers.Reads.{
  ethers, start_index, read_price, read_number_of_troves, read_total_redistributed, read_total,
  active_pool, default_pool, read_remaining_stability_pool_lqty_reward, read_balance,
  read_trove_before_redistribution, read_stability_deposit, read_lqty_stake, read_frontend_status,
  read_block_timestamp, fees_factory, remaining_reward_calculator,
  read_troves_before_redistribution,
}
use liquity.Readers.Fetch.{
  Account, base_state, FeesFactory, ◌&◌, riskiest, get_account, get_globals, get_reads, get,
}
use liquity.Readers.Polled.{block_hit, polled}
use liquity.Readers.Polled.Pins.{pinned}
use liquity.Readers.Polled.Pinned.{polled-pinned}

abbrev mine : BackendTrove
mine = record {
  owner = "0xa";
  status = 1;
  coll = 20 * digits;
  debt = 2000 * digits;
  stake = 20 * digits;
  snapshot_eth = 0;
  snapshot_lusd_debt = 0;
}

-- The price changes after block 7.
abbrev price_at : Option BlockTag → ℕ
price_at (some (number b)) = if b == 7 then 200 * digits else 180 * digits
price_at (some (word w)) = 180 * digits
price_at none = 180 * digits

abbrev connection : Connection
connection = record {
  user_address = some "0xa";
  frontend_tag = some "0xf";
  total_stability_pool_lqty_reward = 32000000 * digits;
}

abbrev contracts : Contracts
contracts = record {
  to_number = λ n. ok n;
  troves = λ a o. ok mine;
  reward_snapshots = λ a o. ok (0, 0);
  fetch_price = λ o. ok (price_at o.block_tag);
  deposits = λ a o. ok ("0xf", 100 * digits);
  uni_allowance = λ a s o. ok 0;
  unipool_address = "0xu";
  multiple_sorted_troves = λ i n o. ok (mine ∷ []);
  block_timestamp = λ tag. ok 1000;
  last_fee_operation_time = λ o. ok 1000;
  front_ends = λ a o. ok (true, 800000000000000000);
  account_balance = λ a tag. ok (7 * digits);
  l_eth = λ o. ok (0);
  l_lusd_debt = λ o. ok (0);
  trove_owners_count = λ o. ok (1);
  active_pool_eth = λ o. ok (20 * digits);
  active_pool_lusd_debt = λ o. ok (2000 * digits);
  default_pool_eth = λ o. ok (0);
  default_pool_lusd_debt = λ o. ok (0);
  total_lqty_issued = λ o. ok (5 * digits);
  total_lusd_deposits = λ o. ok (100 * digits);
  unipool_total_supply = λ o. ok (3 * digits);
  reward_rate = λ o. ok (digits);
  period_finish = λ o. ok (1010);
  last_update_time = λ o. ok (900);
  base_rate = λ o. ok (0);
  total_lqty_staked = λ o. ok (digits);
  compounded_lusd_deposit = λ a o. ok (90 * digits);
  depositor_eth_gain = λ a o. ok (0);
  depositor_lqty_gain = λ a o. ok (digits);
  lusd_balance_of = λ a o. ok (500 * digits);
  lqty_balance_of = λ a o. ok (0);
  uni_balance_of = λ a o. ok (0);
  unipool_balance_of = λ a o. ok (digits);
  earned = λ a o. ok (0);
  surplus_collateral = λ a o. ok (0);
  stakes = λ a o. ok (0);
  pending_eth_gain = λ a o. ok (0);
  pending_lusd_gain = λ a o. ok (0);
}

abbrev my_trove : PendingTrove
my_trove = record {
  user = record {
    owner_address = "0xa";
    status = open_trove;
    base = trove (20 * digits) (2000 * digits);
  };
  stake = 20 * digits;
  snapshot_of_total_redistributed = trove 0 0;
}

abbrev account : Account
account = record {
  account_balance = 7 * digits;
  lusd_balance = 500 * digits;
  lqty_balance = 0;
  uni_token_balance = 0;
  uni_token_allowance = 0;
  liquidity_mining_stake = digits;
  liquidity_mining_lqty_reward = 0;
  collateral_surplus_balance = 0;
  trove_before_redistribution = my_trove;
  stability_deposit = record {
    initial_lusd = 100 * digits;
    current_lusd = 90 * digits;
    collateral_gain = 0;
    lqty_reward = digits;
    frontend_tag = "0xf";
  };
  lqty_stake = record { staked_lqty = 0; collateral_gain = 0; lusd_gain = 0 };
  own_frontend = registered 800000000000000000;
}

abbrev fees_at : Bool → Fees
fees_at recovery = record {
  base_rate_without_decay = 0;
  minute_decay_factor = minute_decay_factor;
  beta = beta;
  last_fee_operation = 1000000;
  time_of_latest_block = 1000000;
  recovery_mode = recovery;
}

abbrev base : BaseState
base =
    base_state (λ n. n)
      (
        200 * digits,
        (
          1,
          (
            trove 0 0,
            (
              trove (20 * digits) (2000 * digits),
              (100 * digits, (digits, (my_trove, (3 * digits, 31999995 * digits)))),
            ),
          ),
        ),
      )
      (registered 800000000000000000) account (10 * digits) (fees_at false)

abbrev factory : FeesFactory
factory =
    λ timestamp recovery. new_fees 0 minute_decay_factor beta 1000000 (timestamp * 1000) recovery

abbrev extra : ExtraState FeesFactory
extra = record { block_tag = some 7; block_timestamp = 1000; fees_factory = factory }

fetched : get connection contracts (λ n. n) (some 7) ≡ ok (base, extra)
unfolding get get_reads get_account get_globals riskiest ◌&◌ new_fees new_deposit
    user_trove_status_from expect_positive_int start_index read_price read_number_of_troves
    read_total_redistributed read_total active_pool default_pool
    read_remaining_stability_pool_lqty_reward read_balance read_trove_before_redistribution
    read_stability_deposit read_lqty_stake read_frontend_status read_block_timestamp fees_factory
    remaining_reward_calculator read_troves_before_redistribution sub mul plus
fetched = refl

abbrev ids : DerivedIds
ids = record { trove = 30; fees = 31; borrowing_rate = 32; redemption_rate = 33 }

describes : (d : DerivedState) × (derive ids base ≡ ok d) × Describes base d
unfolding minutes_since
describes = derive-Describes ids base (omega arith) (omega arith)

polled-pinned_example :
    polled connection contracts base describes.0 extra
    ≡ pinned (some 7) "0xa" "0xf" (ethers connection contracts)
polled-pinned_example =
    polled-pinned connection contracts "0xa" "0xf" (λ n. n) (some 7) base extra ids describes.0 refl
      refl fetched describes.1

-- The store still answers with block 7; a read of the contracts would see the next price.
from_store : (polled connection contracts base describes.0 extra).get_price none ≡ ok (200 * digits)
unfolding polled block_hit
from_store = refl

from_contracts : (ethers connection contracts).get_price none ≡ ok (180 * digits)
unfolding ethers read_price
from_contracts = refl

-- A cache of the number of Troves.
abbrev cache : ReadCache (Option Overrides)
cache = record {
  get_number_of_troves = λ o. some 1;
  get_total_redistributed = λ o. none;
  get_trove_before_redistribution = λ a o. none;
  get_price = λ o. none;
  get_total = λ o. none;
  get_stability_deposit = λ a o. none;
  get_remaining_stability_pool_lqty_reward = λ o. none;
  get_lusd_in_stability_pool = λ o. none;
  get_lusd_balance = λ a o. none;
  get_lqty_balance = λ a o. none;
  get_uni_token_balance = λ a o. none;
  get_uni_token_allowance = λ a o. none;
  get_remaining_liquidity_mining_lqty_reward = λ o. none;
  get_liquidity_mining_stake = λ a o. none;
  get_total_staked_uni_tokens = λ o. none;
  get_liquidity_mining_lqty_reward = λ a o. none;
  get_collateral_surplus_balance = λ a o. none;
  get_troves_before_redistribution = λ p o. none;
  get_fees = λ o. none;
  get_lqty_stake = λ a o. none;
  get_total_staked_lqty = λ o. none;
  get_frontend_status = λ a o. none;
}

one_trove : {n : ℕ} → some 1 ≡ some n → 1 ≡ n
one_trove h = cc

never : {A : Type 0} {read : Result A} → Holds none read
never a h = absurd cc

cache-IsCoherent : IsCoherent (ethers connection contracts) cache
unfolding ethers read_number_of_troves
cache-IsCoherent = record {
  get_number_of_troves = λ o n h. ap (λ n. ok n) (one_trove h);
  get_total_redistributed = λ o. never;
  get_trove_before_redistribution = λ a o. never;
  get_price = λ o. never;
  get_total = λ o. never;
  get_stability_deposit = λ a o. never;
  get_remaining_stability_pool_lqty_reward = λ o. never;
  get_lusd_in_stability_pool = λ o. never;
  get_lusd_balance = λ a o. never;
  get_lqty_balance = λ a o. never;
  get_uni_token_balance = λ a o. never;
  get_uni_token_allowance = λ a o. never;
  get_remaining_liquidity_mining_lqty_reward = λ o. never;
  get_liquidity_mining_stake = λ a o. never;
  get_total_staked_uni_tokens = λ o. never;
  get_liquidity_mining_lqty_reward = λ a o. never;
  get_collateral_surplus_balance = λ a o. never;
  get_troves_before_redistribution = λ p o. never;
  get_fees = λ o. never;
  get_lqty_stake = λ a o. never;
  get_total_staked_lqty = λ o. never;
  get_frontend_status = λ a o. never;
}

cached-same_example : cached (ethers connection contracts) cache ≡ ethers connection contracts
cached-same_example =
    cached-same (ethers connection contracts) cache (ethers-IsComposed connection contracts)
      cache-IsCoherent
