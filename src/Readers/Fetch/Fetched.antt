-- ===== src/Readers/Fetch/Fetched.antt =====
-- What a fetch returns is what the reads answer at its block.
use mathlib.Core.Path.{subst}
use Prim.Native.String.{String}
use liquity.Common.{ℕ, ◌≡◌, refl, false, Option, some, ok, ok-injective, bind-ok}
use liquity.LiquityStore.State.{BaseState}
use liquity.BlockPolledStore.{ExtraState}
use liquity.Readers.Ethers.{spread, tag_of, Connection, Contracts}
use liquity.Readers.Ethers.Reads.{
  read_price, read_number_of_troves, read_total_redistributed, read_total,
  read_remaining_stability_pool_lqty_reward, read_balance, read_trove_before_redistribution,
  read_stability_deposit, read_lqty_stake, read_frontend_status, read_block_timestamp, fees_factory,
  read_remaining_liquidity_mining_lqty_reward,
}
use liquity.Readers.Fetch.Parts.{
  both-ok, get_account-IsReadAccount, remaining-read, get_globals-AreGlobals,
}
use liquity.Readers.Fetch.{
  at_block, FeesFactory, riskiest, get_account, get_frontend, Reads, get_reads, finish_get, get,
}

-- The variables are what the reads answer at a block, for a user and a frontend.
pub record IsRead (k : Connection) (c : Contracts) (u f : String) (tag : Option ℕ) (b : BaseState)
    (x : ExtraState FeesFactory) : Type 0 where
  pub block_tag : x.block_tag ≡ tag
  pub block_timestamp : read_block_timestamp k c (tag_of (at_block tag)) ≡ ok x.block_timestamp
  pub factory : fees_factory k c (at_block tag) ≡ ok x.fees_factory
  pub price : read_price k c (at_block tag) ≡ ok b.price.value
  pub number_of_troves : read_number_of_troves k c (at_block tag) ≡ ok b.number_of_troves
  pub total_redistributed :
      read_total_redistributed k c (at_block tag) ≡ ok b.total_redistributed.value
  pub total : read_total k c (at_block tag) ≡ ok b.total.value
  pub lusd_in_stability_pool :
      c.total_lusd_deposits (spread (at_block tag)) ≡ ok b.lusd_in_stability_pool.value
  pub total_staked_lqty : c.total_lqty_staked (spread (at_block tag)) ≡ ok b.total_staked_lqty.value
  pub riskiest_trove_before_redistribution :
      riskiest k c (at_block tag) ≡ ok b.riskiest_trove_before_redistribution.value
  pub total_staked_uni_tokens :
      c.unipool_total_supply (spread (at_block tag)) ≡ ok b.total_staked_uni_tokens.value
  pub remaining_stability_pool_lqty_reward :
      read_remaining_stability_pool_lqty_reward k c (at_block tag)
      ≡ ok b.remaining_stability_pool_lqty_reward.value
  pub account_balance : c.account_balance u (tag_of (at_block tag)) ≡ ok b.account_balance.value
  pub lusd_balance :
      read_balance k c c.lusd_balance_of (some u) (at_block tag) ≡ ok b.lusd_balance.value
  pub lqty_balance :
      read_balance k c c.lqty_balance_of (some u) (at_block tag) ≡ ok b.lqty_balance.value
  pub uni_token_balance :
      read_balance k c c.uni_balance_of (some u) (at_block tag) ≡ ok b.uni_token_balance.value
  pub uni_token_allowance :
      read_balance k c (λ a o. c.uni_allowance a c.unipool_address o) (some u) (at_block tag)
      ≡ ok b.uni_token_allowance.value
  pub liquidity_mining_stake :
      read_balance k c c.unipool_balance_of (some u) (at_block tag)
      ≡ ok b.liquidity_mining_stake.value
  pub liquidity_mining_lqty_reward :
      read_balance k c c.earned (some u) (at_block tag) ≡ ok b.liquidity_mining_lqty_reward.value
  pub collateral_surplus_balance :
      read_balance k c c.surplus_collateral (some u) (at_block tag)
      ≡ ok b.collateral_surplus_balance.value
  pub trove_before_redistribution :
      read_trove_before_redistribution k c (some u) (at_block tag)
      ≡ ok b.trove_before_redistribution.value
  pub stability_deposit :
      read_stability_deposit k c (some u) (at_block tag) ≡ ok b.stability_deposit.value
  pub lqty_stake : read_lqty_stake k c (some u) (at_block tag) ≡ ok b.lqty_stake.value
  pub own_frontend : read_frontend_status k c (some u) (at_block tag) ≡ ok b.own_frontend.value
  pub frontend : read_frontend_status k c (some f) (at_block tag) ≡ ok b.frontend.value
  pub fees_in_normal_mode : x.fees_factory x.block_timestamp false ≡ ok b.fees_in_normal_mode.value
  pub remaining_liquidity_mining_lqty_reward :
      read_remaining_liquidity_mining_lqty_reward k c (at_block tag)
      ≡ ok b.remaining_liquidity_mining_lqty_reward.value

get_finished :
    (k : Connection) (c : Contracts) (u f : String) (new : ℕ → ℕ) (tag : Option ℕ) (b : BaseState)
    (x : ExtraState FeesFactory) (reads : Reads k c)
    → k.user_address ≡ some u
    → k.frontend_tag ≡ some f
    → get_reads k c (at_block tag) ≡ ok reads
    → finish_get k c new tag reads ≡ ok (b, x)
    → IsRead k c u f tag b x
unfolding get_reads
get_finished k c u f new tag b x (timestamp, (factory, (calculate, (globals, (frontend, account)))))
      hu hf e h =
    let (e0, r0) = both-ok e in
    let (e1, r1) = both-ok r0 in
    let (e2, r2) = both-ok r1 in
    let (e3, r3) = both-ok r2 in
    let (e4, e5) = both-ok r3 in
    let (fees, e6, same) = bind-ok (factory timestamp false) h in
    let a =
      get_account-IsReadAccount k c u tag account
        (subst (λ u. get_account k c u (at_block tag) ≡ ok account) hu e5) in
    let g =
      get_globals-AreGlobals k c (at_block tag) globals new frontend account (calculate timestamp)
        fees e3 in
    let status = subst (λ f. get_frontend k c f (at_block tag) ≡ ok frontend) hf e4 in
    subst (λ p. IsRead k c u f tag p.0 p.1) (ok-injective same)
      (record {
        block_tag = refl;
        block_timestamp = e0;
        factory = e1;
        price = g.price;
        number_of_troves = g.number_of_troves;
        total_redistributed = g.total_redistributed;
        total = g.total;
        lusd_in_stability_pool = g.lusd_in_stability_pool;
        total_staked_lqty = g.total_staked_lqty;
        riskiest_trove_before_redistribution = g.riskiest_trove_before_redistribution;
        total_staked_uni_tokens = g.total_staked_uni_tokens;
        remaining_stability_pool_lqty_reward = g.remaining_stability_pool_lqty_reward;
        account_balance = a.account_balance;
        lusd_balance = a.lusd_balance;
        lqty_balance = a.lqty_balance;
        uni_token_balance = a.uni_token_balance;
        uni_token_allowance = a.uni_token_allowance;
        liquidity_mining_stake = a.liquidity_mining_stake;
        liquidity_mining_lqty_reward = a.liquidity_mining_lqty_reward;
        collateral_surplus_balance = a.collateral_surplus_balance;
        trove_before_redistribution = a.trove_before_redistribution;
        stability_deposit = a.stability_deposit;
        lqty_stake = a.lqty_stake;
        own_frontend = a.own_frontend;
        frontend = status;
        fees_in_normal_mode = e6;
        remaining_liquidity_mining_lqty_reward =
            remaining-read k c (at_block tag) timestamp calculate e2 e0;
      })

-- A fetch that succeeds, for a user and a frontend, returns what each of the reads answers at its
-- block.
pub get-IsRead :
    (k : Connection) (c : Contracts) (u f : String) (new : ℕ → ℕ) (tag : Option ℕ) (b : BaseState)
    (x : ExtraState FeesFactory)
    → k.user_address ≡ some u
    → k.frontend_tag ≡ some f
    → get k c new tag ≡ ok (b, x)
    → IsRead k c u f tag b x
unfolding get
get-IsRead k c u f new tag b x hu hf h =
    let (reads, e, same) = bind-ok (get_reads k c (at_block tag)) h in
    get_finished k c u f new tag b x reads hu hf e same
