-- ===== src/Readers/Polled/Pinned.antt =====
-- Reads that the store answers are reads of the contracts at the store's block.
use Prim.Native.String.{String}
use liquity.Common.{ℕ, ◌≡◌, refl, Option, none, some, Result, ok}
use liquity.LiquityStore.State.{BaseState, DerivedState}
use liquity.LiquityStore.Derive.{DerivedIds, derive}
use liquity.BlockPolledStore.{ExtraState}
use liquity.Readers.Ethers.{Overrides, Connection, Contracts}
use liquity.Readers.Ethers.Reads.{
  ethers, read_balance, read_trove_before_redistribution, read_trove, read_stability_deposit,
  read_lqty_stake, read_frontend_status,
}
use liquity.Readers.Fetch.{FeesFactory, get}
use liquity.Readers.Fetch.Fetched.{get-IsRead}
use liquity.Readers.Polled.Derived.{read_trove-derived, read_fees-derived}
use liquity.Readers.Polled.Pins.{pinned, if_read, if_read_at}
use liquity.Readers.Polled.{polled}

module _ (k : Connection) (c : Contracts) (u f : String) (hu : k.user_address ≡ some u)
    (hf : k.frontend_tag ≡ some f) where
  own_balance :
      (balance : String → Overrides → Result ℕ) (o : Option Overrides)
      → read_balance k c balance none o ≡ read_balance k c balance (some u) o
  unfolding read_balance
  own_balance balance o = rw hu refl

  own_trove_before_redistribution :
      (o : Option Overrides)
      → read_trove_before_redistribution k c none o
        ≡ read_trove_before_redistribution k c (some u) o
  unfolding read_trove_before_redistribution
  own_trove_before_redistribution o = rw hu refl

  own_trove : (o : Option Overrides) → read_trove k c none o ≡ read_trove k c (some u) o
  unfolding read_trove
  own_trove o = rw (own_trove_before_redistribution o) refl

  own_stability_deposit :
      (o : Option Overrides)
      → read_stability_deposit k c none o ≡ read_stability_deposit k c (some u) o
  unfolding read_stability_deposit
  own_stability_deposit o = rw hu refl

  own_lqty_stake :
      (o : Option Overrides) → read_lqty_stake k c none o ≡ read_lqty_stake k c (some u) o
  unfolding read_lqty_stake
  own_lqty_stake o = rw hu refl

  own_frontend_status :
      (o : Option Overrides) → read_frontend_status k c none o ≡ read_frontend_status k c (some f) o
  unfolding read_frontend_status
  own_frontend_status o = rw hf refl

-- After a fetch that succeeded, for a user and a frontend, and the derivation from what it fetched,
-- the reads that go through the store are the reads of the contracts, with the fetched block in
-- place of a block that is not named, and with the connection's address in place of an address
-- that is not named; only what is read of another address, and lists of Troves, stay as they are.
pub polled-pinned :
    (k : Connection) (c : Contracts) (u f : String) (new : ℕ → ℕ) (tag : Option ℕ) (b : BaseState)
    (x : ExtraState FeesFactory) (ids : DerivedIds) (d : DerivedState)
    → k.user_address ≡ some u
    → k.frontend_tag ≡ some f
    → get k c new tag ≡ ok (b, x)
    → derive ids b ≡ ok d
    → polled k c b d x ≡ pinned x.block_tag u f (ethers k c)
unfolding polled ethers
polled-pinned k c u f new tag b x ids d hu hf fetched derived =
    let r = get-IsRead k c u f new tag b x hu hf fetched in
    rw r.block_tag (λ i. record {
      get_total_redistributed =
          λ o. if_read tag ((ethers k c).get_total_redistributed) o r.total_redistributed i;
      get_trove_before_redistribution = λ a o.
          if_read_at tag u ((ethers k c).get_trove_before_redistribution) a o hu
            (own_trove_before_redistribution k c u f hu hf) r.trove_before_redistribution i;
      get_trove = λ a o.
          if_read_at tag u ((ethers k c).get_trove) a o hu (own_trove k c u f hu hf)
            (read_trove-derived k c u f tag b x ids d derived r) i;
      get_number_of_troves =
          λ o. if_read tag ((ethers k c).get_number_of_troves) o r.number_of_troves i;
      get_price = λ o. if_read tag ((ethers k c).get_price) o r.price i;
      get_total = λ o. if_read tag ((ethers k c).get_total) o r.total i;
      get_stability_deposit = λ a o.
          if_read_at tag u ((ethers k c).get_stability_deposit) a o hu
            (own_stability_deposit k c u f hu hf) r.stability_deposit i;
      get_remaining_stability_pool_lqty_reward = λ o.
          if_read tag ((ethers k c).get_remaining_stability_pool_lqty_reward) o
            r.remaining_stability_pool_lqty_reward i;
      get_lusd_in_stability_pool =
          λ o. if_read tag ((ethers k c).get_lusd_in_stability_pool) o r.lusd_in_stability_pool i;
      get_lusd_balance = λ a o.
          if_read_at tag u ((ethers k c).get_lusd_balance) a o hu
            (own_balance k c u f hu hf c.lusd_balance_of) r.lusd_balance i;
      get_lqty_balance = λ a o.
          if_read_at tag u ((ethers k c).get_lqty_balance) a o hu
            (own_balance k c u f hu hf c.lqty_balance_of) r.lqty_balance i;
      get_uni_token_balance = λ a o.
          if_read_at tag u ((ethers k c).get_uni_token_balance) a o hu
            (own_balance k c u f hu hf c.uni_balance_of) r.uni_token_balance i;
      get_uni_token_allowance = λ a o.
          if_read_at tag u ((ethers k c).get_uni_token_allowance) a o hu
            (own_balance k c u f hu hf (λ a o. c.uni_allowance a c.unipool_address o))
            r.uni_token_allowance i;
      get_remaining_liquidity_mining_lqty_reward = λ o.
          if_read tag ((ethers k c).get_remaining_liquidity_mining_lqty_reward) o
            r.remaining_liquidity_mining_lqty_reward i;
      get_liquidity_mining_stake = λ a o.
          if_read_at tag u ((ethers k c).get_liquidity_mining_stake) a o hu
            (own_balance k c u f hu hf c.unipool_balance_of) r.liquidity_mining_stake i;
      get_total_staked_uni_tokens =
          λ o. if_read tag ((ethers k c).get_total_staked_uni_tokens) o r.total_staked_uni_tokens i;
      get_liquidity_mining_lqty_reward = λ a o.
          if_read_at tag u ((ethers k c).get_liquidity_mining_lqty_reward) a o hu
            (own_balance k c u f hu hf c.earned) r.liquidity_mining_lqty_reward i;
      get_collateral_surplus_balance = λ a o.
          if_read_at tag u ((ethers k c).get_collateral_surplus_balance) a o hu
            (own_balance k c u f hu hf c.surplus_collateral) r.collateral_surplus_balance i;
      get_troves_before_redistribution = (ethers k c).get_troves_before_redistribution;
      get_troves = (ethers k c).get_troves;
      get_fees = λ o.
          if_read tag ((ethers k c).get_fees) o (read_fees-derived k c u f tag b x ids d derived r)
            i;
      get_lqty_stake = λ a o.
          if_read_at tag u ((ethers k c).get_lqty_stake) a o hu (own_lqty_stake k c u f hu hf)
            r.lqty_stake i;
      get_total_staked_lqty =
          λ o. if_read tag ((ethers k c).get_total_staked_lqty) o r.total_staked_lqty i;
      get_frontend_status = λ a o.
          if_read_at tag f ((ethers k c).get_frontend_status) a o hf
            (own_frontend_status k c u f hu hf) r.frontend i;
    })
