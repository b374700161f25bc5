-- ===== src/Readers/Fetch.antt =====
-- packages/lib-ethers/src/BlockPolledLiquityStore.ts: `_get`, which fetches the state at a block.
-- A fetch makes new objects: `new n` is the identity of the n-th one.
pub mod Parts
pub mod Fetched
use Prim.Native.String.{String}
use liquity.Common.{ℕ, Bool, false, Option, none, some, List, [], ◌∷◌, Result, ok, err, ◌>>=◌}
use liquity.Decimal.{Decimal}
use liquity.Fees.{Fees}
use liquity.Trove.{Trove, trove}
use liquity.Trove.User.{non_existent, PendingTrove}
use liquity.StabilityDeposit.{StabilityDeposit, new_deposit}
use liquity.LqtyStake.{LqtyStake}
use liquity.LiquityStore.State.{FrontendStatus, unregistered, BaseState}
use liquity.LiquityStore.Derive.{ref}
use liquity.BlockPolledStore.{ExtraState}
use liquity.Readers.{natural, ascending_collateral_ratio}
use liquity.Readers.Ethers.{number, Overrides, spread, tag_of, Connection, Contracts}
use liquity.Readers.Ethers.Reads.{
  read_price, read_number_of_troves, read_total_redistributed, read_total,
  read_remaining_stability_pool_lqty_reward, read_balance, read_trove_before_redistribution,
  read_stability_deposit, read_lqty_stake, read_frontend_status, read_block_timestamp, fees_factory,
  remaining_reward_calculator, read_troves_before_redistribution,
}

-- `{ blockTag }`
abbrev pub at_block : Option ℕ → Option Overrides
at_block none = some (record { block_tag = none })
at_block (some b) = some (record { block_tag = some (number b) })

abbrev pub address_zero : String
address_zero = "0x0000000000000000000000000000000000000000"

-- `new TroveWithPendingRedistribution(AddressZero, "nonExistent")`
abbrev pub no_trove : PendingTrove
no_trove = record {
  user = record { owner_address = address_zero; status = non_existent; base = trove 0 0 };
  stake = 0;
  snapshot_of_total_redistributed = trove 0 0;
}

abbrev pub first_or_none : List PendingTrove → PendingTrove
first_or_none [] = no_trove
first_or_none (t ∷ s) = t

-- The variables that depend on the user's address
pub record Account : Type 0 where
  pub account_balance : Decimal
  pub lusd_balance : Decimal
  pub lqty_balance : Decimal
  pub uni_token_balance : Decimal
  pub uni_token_allowance : Decimal
  pub liquidity_mining_stake : Decimal
  pub liquidity_mining_lqty_reward : Decimal
  pub collateral_surplus_balance : Decimal
  pub trove_before_redistribution : PendingTrove
  pub stability_deposit : StabilityDeposit
  pub lqty_stake : LqtyStake
  pub own_frontend : FrontendStatus

-- `Fees` at a time, in recovery mode or not
abbrev pub FeesFactory : Type 0
FeesFactory = ℕ → Bool → Result Fees

-- `promiseAllValues`: all of the values, when there are all
infixr 6 ◌&◌
unfoldable pub ◌&◌ : {A B : Type 0} → Result A → Result B → Result (A × B)
err thrown & n = err thrown
ok a & err thrown = err thrown
ok a & ok b = ok (a, b)

abbrev pub account_from :
    (Decimal
      × (Decimal
          × (Decimal
              × (Decimal
                  × (Decimal
                      × (Decimal
                          × (Decimal
                              × (Decimal
                                  × (PendingTrove
                                      × (StabilityDeposit × (LqtyStake × (FrontendStatus))))))))))))
    → Account
account_from (v0, (v1, (v2, (v3, (v4, (v5, (v6, (v7, (v8, (v9, (v10, v11))))))))))) = record {
  account_balance = v0;
  lusd_balance = v1;
  lqty_balance = v2;
  uni_token_balance = v3;
  uni_token_allowance = v4;
  liquidity_mining_stake = v5;
  liquidity_mining_lqty_reward = v6;
  collateral_surplus_balance = v7;
  trove_before_redistribution = v8;
  stability_deposit = v9;
  lqty_stake = v10;
  own_frontend = v11;
}

-- The variables that depend on the block alone
abbrev pub Globals : Type 0
Globals =
    Decimal
    × (ℕ × (Trove × (Trove × (Decimal × (Decimal × (PendingTrove × (Decimal × (Decimal))))))))

-- The object that is returned, with what it takes from the block.
abbrev pub base_state : (ℕ → ℕ) → Globals → FrontendStatus → Account → Decimal → Fees → BaseState
base_state new (g0, (g1, (g2, (g3, (g4, (g5, (g6, (g7, g8)))))))) frontend account remaining fees =
    record {
      frontend = ref (new 0) frontend;
      own_frontend = ref (new 1) account.own_frontend;
      number_of_troves = g1;
      account_balance = ref (new 2) account.account_balance;
      lusd_balance = ref (new 3) account.lusd_balance;
      lqty_balance = ref (new 4) account.lqty_balance;
      uni_token_balance = ref (new 5) account.uni_token_balance;
      uni_token_allowance = ref (new 6) account.uni_token_allowance;
      liquidity_mining_stake = ref (new 7) account.liquidity_mining_stake;
      liquidity_mining_lqty_reward = ref (new 8) account.liquidity_mining_lqty_reward;
      collateral_surplus_balance = ref (new 9) account.collateral_surplus_balance;
      trove_before_redistribution = ref (new 10) account.trove_before_redistribution;
      stability_deposit = ref (new 11) account.stability_deposit;
      lqty_stake = ref (new 12) account.lqty_stake;
      price = ref (new 13) g0;
      total_redistributed = ref (new 14) g2;
      total = ref (new 15) g3;
      lusd_in_stability_pool = ref (new 16) g4;
      total_staked_lqty = ref (new 17) g5;
      riskiest_trove_before_redistribution = ref (new 18) g6;
      total_staked_uni_tokens = ref (new 19) g7;
      remaining_stability_pool_lqty_reward = ref (new 20) g8;
      remaining_liquidity_mining_lqty_reward = ref (new 21) remaining;
      fees_in_normal_mode = ref (new 22) fees;
    }

module _ (k : Connection) (c : Contracts) where
  -- `_getRiskiestTroveBeforeRedistribution`
  unfoldable pub riskiest : Option Overrides → Result PendingTrove
  riskiest o = do
    troves ←
        read_troves_before_redistribution k c
          (record { first = natural 1; sorted_by = ascending_collateral_ratio; starting_at = none })
          o
    ok (first_or_none troves)

  abbrev pub account_reads :
      String
      → Option Overrides
      → Result (
          Decimal
          × (Decimal
              × (Decimal
                  × (Decimal
                      × (Decimal
                          × (Decimal
                              × (Decimal
                                  × (Decimal
                                      × (PendingTrove
                                          × (StabilityDeposit
                                              × (LqtyStake × (FrontendStatus))))))))))))
  account_reads u o =
      c.account_balance u (tag_of o)
      & read_balance k c c.lusd_balance_of (some u) o
      & read_balance k c c.lqty_balance_of (some u) o
      & read_balance k c c.uni_balance_of (some u) o
      & read_balance k c (λ a o. c.uni_allowance a c.unipool_address o) (some u) o
      & read_balance k c c.unipool_balance_of (some u) o
      & read_balance k c c.earned (some u) o
      & read_balance k c c.surplus_collateral (some u) o
      & read_trove_before_redistribution k c (some u) o
      & read_stability_deposit k c (some u) o
      & read_lqty_stake k c (some u) o
      & read_frontend_status k c (some u) o

  -- without a user's address, zeros
  unfoldable pub get_account : Option String → Option Overrides → Result Account
  unfolding ◌&◌
  get_account none o = do
    deposit ← new_deposit 0 0 0 0 address_zero
    ok (record {
      account_balance = 0;
      lusd_balance = 0;
      lqty_balance = 0;
      uni_token_balance = 0;
      uni_token_allowance = 0;
      liquidity_mining_stake = 0;
      liquidity_mining_lqty_reward = 0;
      collateral_surplus_balance = 0;
      trove_before_redistribution = no_trove;
      stability_deposit = deposit;
      lqty_stake = record { staked_lqty = 0; collateral_gain = 0; lusd_gain = 0 };
      own_frontend = unregistered;
    })
  get_account (some u) o = account_reads u o >>= λ values. ok (account_from values)

  unfoldable pub get_globals : Option Overrides → Result Globals
  unfolding riskiest ◌&◌
  get_globals o =
      read_price k c o
      & read_number_of_troves k c o
      & read_total_redistributed k c o
      & read_total k c o
      & c.total_lusd_deposits (spread o)
      & c.total_lqty_staked (spread o)
      & riskiest o
      & c.unipool_total_supply (spread o)
      & read_remaining_stability_pool_lqty_reward k c o

  abbrev pub get_frontend : Option String → Option Overrides → Result FrontendStatus
  get_frontend none o = ok unregistered
  get_frontend (some f) o = read_frontend_status k c (some f) o

  -- `_get`
  abbrev pub Reads : Type 0
  Reads = ℕ × (FeesFactory × ((ℕ → Decimal) × (Globals × (FrontendStatus × Account))))

  unfoldable pub get_reads : Option Overrides → Result Reads
  unfolding ◌&◌ get_account get_globals
  get_reads o =
      read_block_timestamp k c (tag_of o)
      & fees_factory k c o
      & remaining_reward_calculator k c o
      & get_globals o
      & get_frontend k.frontend_tag o
      & get_account k.user_address o

  abbrev pub finish_get : (ℕ → ℕ) → Option ℕ → Reads → Result (BaseState × ExtraState FeesFactory)
  finish_get new tag (timestamp, (factory, (calculate, (globals, (frontend, account))))) =
      factory timestamp false >>= λ fees. ok (
        base_state new globals frontend account (calculate timestamp) fees,
        record { block_tag = tag; block_timestamp = timestamp; fees_factory = factory },
      )

  unfoldable pub get : (ℕ → ℕ) → Option ℕ → Result (BaseState × ExtraState FeesFactory)
  unfolding get_reads
  get new tag = get_reads (at_block tag) >>= λ reads. finish_get new tag reads
