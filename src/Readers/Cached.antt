-- ===== src/Readers/Cached.antt =====
-- packages/lib-base/src/_CachedReadableLiquity.ts: reads with a cache in front of them.
pub mod Coherent
use Prim.Native.String.{String}
use liquity.Common.{ℕ, ◌≡◌, refl, sym, Option, none, some, List, [], ◌∷◌, Result, ok, err, ◌>>=◌}
use liquity.Decimal.{Decimal}
use liquity.Fees.{Fees}
use liquity.Trove.{Trove}
use liquity.Trove.User.{UserTrove, PendingTrove, apply_redistribution}
use liquity.StabilityDeposit.{StabilityDeposit}
use liquity.LqtyStake.{LqtyStake}
use liquity.LiquityStore.State.{FrontendStatus}
use liquity.Readers.{ListingParams, Readable}

-- `_LiquityReadCache`, as far as it is read: `none` stands for `undefined`.
pub record ReadCache (T : Type 0) : Type 0 where
  pub get_total_redistributed : T → Option Trove
  pub get_trove_before_redistribution : Option String → T → Option PendingTrove
  pub get_number_of_troves : T → Option ℕ
  pub get_price : T → Option Decimal
  pub get_total : T → Option Trove
  pub get_stability_deposit : Option String → T → Option StabilityDeposit
  pub get_remaining_stability_pool_lqty_reward : T → Option Decimal
  pub get_lusd_in_stability_pool : T → Option Decimal
  pub get_lusd_balance : Option String → T → Option Decimal
  pub get_lqty_balance : Option String → T → Option Decimal
  pub get_uni_token_balance : Option String → T → Option Decimal
  pub get_uni_token_allowance : Option String → T → Option Decimal
  pub get_remaining_liquidity_mining_lqty_reward : T → Option Decimal
  pub get_liquidity_mining_stake : Option String → T → Option Decimal
  pub get_total_staked_uni_tokens : T → Option Decimal
  pub get_liquidity_mining_lqty_reward : Option String → T → Option Decimal
  pub get_collateral_surplus_balance : Option String → T → Option Decimal
  pub get_troves_before_redistribution : ListingParams → T → Option (List PendingTrove)
  pub get_fees : T → Option Fees
  pub get_lqty_stake : Option String → T → Option LqtyStake
  pub get_total_staked_lqty : T → Option Decimal
  pub get_frontend_status : Option String → T → Option FrontendStatus

-- `cached ?? read`
abbrev pub or_read : {A : Type 0} → Option A → Result A → Result A
or_read none read = read
or_read (some a) read = ok a

-- `map` with a function that may throw
unfoldable pub map_results : {A B : Type 0} → (A → Result B) → List A → Result (List B)
map_results f [] = ok []
map_results f (a ∷ s) = do b ← f a; rest ← map_results f s; ok (b ∷ rest)

module _ {T : Type 0} (r : Readable T) (c : ReadCache T) where
  abbrev total_redistributed : T → Result Trove
  total_redistributed t = or_read (c.get_total_redistributed t) (r.get_total_redistributed t)

  abbrev trove_before_redistribution : Option String → T → Result PendingTrove
  trove_before_redistribution a t =
      or_read (c.get_trove_before_redistribution a t) (r.get_trove_before_redistribution a t)

  -- `getTrove`
  unfoldable pub cached_trove : Option String → T → Result UserTrove
  cached_trove a t = do
    trove ← trove_before_redistribution a t
    total ← total_redistributed t
    apply_redistribution trove total

  abbrev troves_before_redistribution : ListingParams → T → Result (List PendingTrove)
  troves_before_redistribution p t =
      or_read (c.get_troves_before_redistribution p t) (r.get_troves_before_redistribution p t)

  -- `getTroves`, when `beforeRedistribution` is not set
  unfoldable pub cached_troves : ListingParams → T → Result (List UserTrove)
  unfolding map_results
  cached_troves p t = do
    troves ← troves_before_redistribution p t
    total ← total_redistributed t
    map_results (λ trove. apply_redistribution trove total) troves

  -- `_CachedReadableLiquity`
  unfoldable pub cached : Readable T
  unfolding cached_trove cached_troves
  cached = record {
    get_total_redistributed =
        λ t. or_read (c.get_total_redistributed t) (r.get_total_redistributed t);
    get_trove_before_redistribution = λ a t.
        or_read (c.get_trove_before_redistribution a t) (r.get_trove_before_redistribution a t);
    get_trove = cached_trove;
    get_number_of_troves = λ t. or_read (c.get_number_of_troves t) (r.get_number_of_troves t);
    get_price = λ t. or_read (c.get_price t) (r.get_price t);
    get_total = λ t. or_read (c.get_total t) (r.get_total t);
    get_stability_deposit =
        λ a t. or_read (c.get_stability_deposit a t) (r.get_stability_deposit a t);
    get_remaining_stability_pool_lqty_reward = λ t.
        or_read (c.get_remaining_stability_pool_lqty_reward t)
          (r.get_remaining_stability_pool_lqty_reward t);
    get_lusd_in_stability_pool =
        λ t. or_read (c.get_lusd_in_stability_pool t) (r.get_lusd_in_stability_pool t);
    get_lusd_balance = λ a t. or_read (c.get_lusd_balance a t) (r.get_lusd_balance a t);
    get_lqty_balance = λ a t. or_read (c.get_lqty_balance a t) (r.get_lqty_balance a t);
    get_uni_token_balance =
        λ a t. or_read (c.get_uni_token_balance a t) (r.get_uni_token_balance a t);
    get_uni_token_allowance =
        λ a t. or_read (c.get_uni_token_allowance a t) (r.get_uni_token_allowance a t);
    get_remaining_liquidity_mining_lqty_reward = λ t.
        or_read (c.get_remaining_liquidity_mining_lqty_reward t)
          (r.get_remaining_liquidity_mining_lqty_reward t);
    get_liquidity_mining_stake =
        λ a t. or_read (c.get_liquidity_mining_stake a t) (r.get_liquidity_mining_stake a t);
    get_total_staked_uni_tokens =
        λ t. or_read (c.get_total_staked_uni_tokens t) (r.get_total_staked_uni_tokens t);
    get_liquidity_mining_lqty_reward = λ a t.
        or_read (c.get_liquidity_mining_lqty_reward a t) (r.get_liquidity_mining_lqty_reward a t);
    get_collateral_surplus_balance = λ a t.
        or_read (c.get_collateral_surplus_balance a t) (r.get_collateral_surplus_balance a t);
    get_troves_before_redistribution = λ p t.
        or_read (c.get_troves_before_redistribution p t) (r.get_troves_before_redistribution p t);
    get_troves = cached_troves;
    get_fees = λ t. or_read (c.get_fees t) (r.get_fees t);
    get_lqty_stake = λ a t. or_read (c.get_lqty_stake a t) (r.get_lqty_stake a t);
    get_total_staked_lqty = λ t. or_read (c.get_total_staked_lqty t) (r.get_total_staked_lqty t);
    get_frontend_status = λ a t. or_read (c.get_frontend_status a t) (r.get_frontend_status a t);
  }
