-- ===== src/Readers/Fetch/Parts.antt =====
-- The parts of a fetch: what the block's variables and the user's are read from.
use Prim.Native.String.{String}
use liquity.Common.{ℕ, ◌≡◌, refl, ap, ◌∙◌, Option, some, Result, ok, err, ok-injective, bind-ok}
use liquity.Decimal.{Decimal}
use liquity.Fees.{Fees}
use liquity.LiquityStore.State.{FrontendStatus, BaseState}
use liquity.Readers.Ethers.{Overrides, spread, tag_of, Connection, Contracts}
use liquity.Readers.Ethers.Reads.{
  read_price, read_number_of_troves, read_total_redistributed, read_total,
  read_remaining_stability_pool_lqty_reward, read_balance, read_trove_before_redistribution,
  read_stability_deposit, read_lqty_stake, read_frontend_status, read_block_timestamp,
  remaining_reward_calculator, read_remaining_liquidity_mining_lqty_reward,
}
use liquity.Readers.Fetch.{
  at_block, Account, ◌&◌, account_reads, riskiest, get_account, get_globals, Globals, base_state,
}

pub record IsReadAccount (k : Connection) (c : Contracts) (u : String) (tag : Option ℕ)
    (a : Account) : Type 0 where
  pub account_balance : c.account_balance u (tag_of (at_block tag)) ≡ ok a.account_balance
  pub lusd_balance : read_balance k c c.lusd_balance_of (some u) (at_block tag) ≡ ok a.lusd_balance
  pub lqty_balance : read_balance k c c.lqty_balance_of (some u) (at_block tag) ≡ ok a.lqty_balance
  pub uni_token_balance :
      read_balance k c c.uni_balance_of (some u) (at_block tag) ≡ ok a.uni_token_balance
  pub uni_token_allowance :
      read_balance k c (λ a o. c.uni_allowance a c.unipool_address o) (some u) (at_block tag)
      ≡ ok a.uni_token_allowance
  pub liquidity_mining_stake :
      read_balance k c c.unipool_balance_of (some u) (at_block tag) ≡ ok a.liquidity_mining_stake
  pub liquidity_mining_lqty_reward :
      read_balance k c c.earned (some u) (at_block tag) ≡ ok a.liquidity_mining_lqty_reward
  pub collateral_surplus_balance :
      read_balance k c c.surplus_collateral (some u) (at_block tag)
      ≡ ok a.collateral_surplus_balance
  pub trove_before_redistribution :
      read_trove_before_redistribution k c (some u) (at_block tag)
      ≡ ok a.trove_before_redistribution
  pub stability_deposit :
      read_stability_deposit k c (some u) (at_block tag) ≡ ok a.stability_deposit
  pub lqty_stake : read_lqty_stake k c (some u) (at_block tag) ≡ ok a.lqty_stake
  pub own_frontend : read_frontend_status k c (some u) (at_block tag) ≡ ok a.own_frontend

both_of :
    {A B : Type 0} (m : Result A) (n : Result B) {p : A × B}
    → (m & n) ≡ ok p
    → (m ≡ ok p.0) × (n ≡ ok p.1)
unfolding ◌&◌
both_of (err e) n h = absurd cc
both_of (ok a) (err e) h = absurd cc
both_of (ok a) (ok b) h =
    let same = ok-injective h in (ap (λ p. ok p.0) same, ap (λ p. ok p.1) same)

pub both-ok :
    {A B : Type 0} {m : Result A} {n : Result B} {p : A × B}
    → (m & n) ≡ ok p
    → (m ≡ ok p.0) × (n ≡ ok p.1)
both-ok {m = m} {n = n} h = both_of m n h

pub get_account-IsReadAccount :
    (k : Connection) (c : Contracts) (u : String) (tag : Option ℕ) (a : Account)
    → get_account k c (some u) (at_block tag) ≡ ok a
    → IsReadAccount k c u tag a
unfolding get_account
get_account-IsReadAccount k c u tag a h =
    let (values, e, same) = bind-ok (account_reads k c u (at_block tag)) h in
    let (e0, r0) = both-ok e in
    let (e1, r1) = both-ok r0 in
    let (e2, r2) = both-ok r1 in
    let (e3, r3) = both-ok r2 in
    let (e4, r4) = both-ok r3 in
    let (e5, r5) = both-ok r4 in
    let (e6, r6) = both-ok r5 in
    let (e7, r7) = both-ok r6 in
    let (e8, r8) = both-ok r7 in
    let (e9, r9) = both-ok r8 in
    let (e10, r10) = both-ok r9 in
    let to_a = ok-injective same in
    record {
      account_balance = e0 ∙ ap (λ x. ok x.account_balance) to_a;
      lusd_balance = e1 ∙ ap (λ x. ok x.lusd_balance) to_a;
      lqty_balance = e2 ∙ ap (λ x. ok x.lqty_balance) to_a;
      uni_token_balance = e3 ∙ ap (λ x. ok x.uni_token_balance) to_a;
      uni_token_allowance = e4 ∙ ap (λ x. ok x.uni_token_allowance) to_a;
      liquidity_mining_stake = e5 ∙ ap (λ x. ok x.liquidity_mining_stake) to_a;
      liquidity_mining_lqty_reward = e6 ∙ ap (λ x. ok x.liquidity_mining_lqty_reward) to_a;
      collateral_surplus_balance = e7 ∙ ap (λ x. ok x.collateral_surplus_balance) to_a;
      trove_before_redistribution = e8 ∙ ap (λ x. ok x.trove_before_redistribution) to_a;
      stability_deposit = e9 ∙ ap (λ x. ok x.stability_deposit) to_a;
      lqty_stake = e10 ∙ ap (λ x. ok x.lqty_stake) to_a;
      own_frontend = r10 ∙ ap (λ x. ok x.own_frontend) to_a;
    }

pub remaining-read :
    (k : Connection) (c : Contracts) (o : Option Overrides) (timestamp : ℕ)
    (calculate : ℕ → Decimal)
    → remaining_reward_calculator k c o ≡ ok calculate
    → read_block_timestamp k c (tag_of o) ≡ ok timestamp
    → read_remaining_liquidity_mining_lqty_reward k c o ≡ ok (calculate timestamp)
unfolding read_remaining_liquidity_mining_lqty_reward
remaining-read k c o timestamp calculate e f = rw (e, f) refl

pub record AreGlobals (k : Connection) (c : Contracts) (o : Option Overrides) (g : Globals)
    (b : BaseState) : Type 0 where
  pub price : read_price k c o ≡ ok b.price.value
  pub number_of_troves : read_number_of_troves k c o ≡ ok b.number_of_troves
  pub total_redistributed : read_total_redistributed k c o ≡ ok b.total_redistributed.value
  pub total : read_total k c o ≡ ok b.total.value
  pub lusd_in_stability_pool : c.total_lusd_deposits (spread o) ≡ ok b.lusd_in_stability_pool.value
  pub total_staked_lqty : c.total_lqty_staked (spread o) ≡ ok b.total_staked_lqty.value
  pub riskiest_trove_before_redistribution :
      riskiest k c o ≡ ok b.riskiest_trove_before_redistribution.value
  pub total_staked_uni_tokens :
      c.unipool_total_supply (spread o) ≡ ok b.total_staked_uni_tokens.value
  pub remaining_stability_pool_lqty_reward :
      read_remaining_stability_pool_lqty_reward k c o
      ≡ ok b.remaining_stability_pool_lqty_reward.value

pub get_globals-AreGlobals :
    (k : Connection) (c : Contracts) (o : Option Overrides) (g : Globals) (new : ℕ → ℕ)
    (frontend : FrontendStatus) (account : Account) (remaining : Decimal) (fees : Fees)
    → get_globals k c o ≡ ok g
    → AreGlobals k c o g (base_state new g frontend account remaining fees)
unfolding get_globals
get_globals-AreGlobals k c o g new frontend account remaining fees e =
    let (e0, r0) = both-ok e in
    let (e1, r1) = both-ok r0 in
    let (e2, r2) = both-ok r1 in
    let (e3, r3) = both-ok r2 in
    let (e4, r4) = both-ok r3 in
    let (e5, r5) = both-ok r4 in
    let (e6, r6) = both-ok r5 in
    let (e7, r7) = both-ok r6 in
    record {
      price = e0;
      number_of_troves = e1;
      total_redistributed = e2;
      total = e3;
      lusd_in_stability_pool = e4;
      total_staked_lqty = e5;
      riskiest_trove_before_redistribution = e6;
      total_staked_uni_tokens = e7;
      remaining_stability_pool_lqty_reward = r7;
    }
