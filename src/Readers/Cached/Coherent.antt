-- ===== src/Readers/Cached/Coherent.antt =====
-- Reads through a cache answer as the reads behind it.
use Prim.Native.String.{String}
use liquity.Common.{◌≡◌, refl, sym, Option, none, some, Result, ok, ◌>>=◌}
use liquity.Trove.User.{apply_redistribution}
use liquity.Readers.{ListingParams, Readable}
use liquity.Readers.Cached.{ReadCache, or_read, map_results, cached, cached_trove, cached_troves}

-- `getTrove` and `getTroves` bring the Troves up to date with the redistributions.
pub record IsComposed {T : Type 0} (r : Readable T) : Type 0 where
  pub trove :
      (a : Option String) (t : T)
      → r.get_trove a t ≡ (
          r.get_trove_before_redistribution a t >>= λ trove.
          r.get_total_redistributed t >>= λ total. apply_redistribution trove total)
  pub troves :
      (p : ListingParams) (t : T)
      → r.get_troves p t ≡ (
          r.get_troves_before_redistribution p t >>= λ troves.
          r.get_total_redistributed t >>= λ total.
          map_results (λ trove. apply_redistribution trove total) troves)

-- What the cache holds of a read is what the read would answer.
abbrev pub Holds : {A : Type 0} → Option A → Result A → Type 0
Holds {A} cached read = (a : A) → cached ≡ some a → read ≡ ok a

pub record IsCoherent {T : Type 0} (r : Readable T) (c : ReadCache T) : Type 0 where
  pub get_total_redistributed :
      (t : T) → Holds (c.get_total_redistributed t) (r.get_total_redistributed t)
  pub get_trove_before_redistribution :
      (a : Option String) (t : T)
      → Holds (c.get_trove_before_redistribution a t) (r.get_trove_before_redistribution a t)
  pub get_number_of_troves : (t : T) → Holds (c.get_number_of_troves t) (r.get_number_of_troves t)
  pub get_price : (t : T) → Holds (c.get_price t) (r.get_price t)
  pub get_total : (t : T) → Holds (c.get_total t) (r.get_total t)
  pub get_stability_deposit :
      (a : Option String) (t : T)
      → Holds (c.get_stability_deposit a t) (r.get_stability_deposit a t)
  pub get_remaining_stability_pool_lqty_reward :
      (t : T)
      → Holds
          (c.get_remaining_stability_pool_lqty_reward t)
          (r.get_remaining_stability_pool_lqty_reward t)
  pub get_lusd_in_stability_pool :
      (t : T) → Holds (c.get_lusd_in_stability_pool t) (r.get_lusd_in_stability_pool t)
  pub get_lusd_balance :
      (a : Option String) (t : T) → Holds (c.get_lusd_balance a t) (r.get_lusd_balance a t)
  pub get_lqty_balance :
      (a : Option String) (t : T) → Holds (c.get_lqty_balance a t) (r.get_lqty_balance a t)
  pub get_uni_token_balance :
      (a : Option String) (t : T)
      → Holds (c.get_uni_token_balance a t) (r.get_uni_token_balance a t)
  pub get_uni_token_allowance :
      (a : Option String) (t : T)
      → Holds (c.get_uni_token_allowance a t) (r.get_uni_token_allowance a t)
  pub get_remaining_liquidity_mining_lqty_reward :
      (t : T)
      → Holds
          (c.get_remaining_liquidity_mining_lqty_reward t)
          (r.get_remaining_liquidity_mining_lqty_reward t)
  pub get_liquidity_mining_stake :
      (a : Option String) (t : T)
      → Holds (c.get_liquidity_mining_stake a t) (r.get_liquidity_mining_stake a t)
  pub get_total_staked_uni_tokens :
      (t : T) → Holds (c.get_total_staked_uni_tokens t) (r.get_total_staked_uni_tokens t)
  pub get_liquidity_mining_lqty_reward :
      (a : Option String) (t : T)
      → Holds (c.get_liquidity_mining_lqty_reward a t) (r.get_liquidity_mining_lqty_reward a t)
  pub get_collateral_surplus_balance :
      (a : Option String) (t : T)
      → Holds (c.get_collateral_surplus_balance a t) (r.get_collateral_surplus_balance a t)
  pub get_troves_before_redistribution :
      (p : ListingParams) (t : T)
      → Holds (c.get_troves_before_redistribution p t) (r.get_troves_before_redistribution p t)
  pub get_fees : (t : T) → Holds (c.get_fees t) (r.get_fees t)
  pub get_lqty_stake :
      (a : Option String) (t : T) → Holds (c.get_lqty_stake a t) (r.get_lqty_stake a t)
  pub get_total_staked_lqty :
      (t : T) → Holds (c.get_total_staked_lqty t) (r.get_total_staked_lqty t)
  pub get_frontend_status :
      (a : Option String) (t : T) → Holds (c.get_frontend_status a t) (r.get_frontend_status a t)

or_read-same :
    {A : Type 0} (cached : Option A) (read : Result A)
    → Holds cached read
    → or_read cached read ≡ read
or_read-same none read h = refl
or_read-same (some a) read h = sym (h a refl)

module _ {T : Type 0} (r : Readable T) (c : ReadCache T) (h : IsCoherent r c) where
  total-same :
      (t : T)
      → or_read (c.get_total_redistributed t) (r.get_total_redistributed t)
        ≡ r.get_total_redistributed t
  total-same t =
      or_read-same (c.get_total_redistributed t) (r.get_total_redistributed t)
        (h.get_total_redistributed t)

  cached_trove-same :
      IsComposed r → (a : Option String) (t : T) → cached_trove r c a t ≡ r.get_trove a t
  unfolding cached_trove
  cached_trove-same composed a t =
      rw
        (
          or_read-same (c.get_trove_before_redistribution a t)
              (r.get_trove_before_redistribution a t) (h.get_trove_before_redistribution a t),
          total-same t,
        )
        (sym (composed.trove a t))

  cached_troves-same :
      IsComposed r → (p : ListingParams) (t : T) → cached_troves r c p t ≡ r.get_troves p t
  unfolding cached_troves
  cached_troves-same composed p t =
      rw
        (
          or_read-same (c.get_troves_before_redistribution p t)
              (r.get_troves_before_redistribution p t) (h.get_troves_before_redistribution p t),
          total-same t,
        )
        (sym (composed.troves p t))

-- When the reads compose, and the cache holds nothing but what the reads would answer, every read
-- through the cache has the result of the same read without it: the two readers are equal.
pub cached-same :
    {T : Type 0} (r : Readable T) (c : ReadCache T) → IsComposed r → IsCoherent r c → cached r c ≡ r
unfolding cached
cached-same r c composed h = λ i. record {
  get_total_redistributed = λ t.
      or_read-same (c.get_total_redistributed t) (r.get_total_redistributed t)
        (h.get_total_redistributed t) i;
  get_trove_before_redistribution = λ a t.
      or_read-same (c.get_trove_before_redistribution a t) (r.get_trove_before_redistribution a t)
        (h.get_trove_before_redistribution a t) i;
  get_trove = λ a t. cached_trove-same r c h composed a t i;
  get_number_of_troves = λ t.
      or_read-same (c.get_number_of_troves t) (r.get_number_of_troves t) (h.get_number_of_troves t)
        i;
  get_price = λ t. or_read-same (c.get_price t) (r.get_price t) (h.get_price t) i;
  get_total = λ t. or_read-same (c.get_total t) (r.get_total t) (h.get_total t) i;
  get_stability_deposit = λ a t.
      or_read-same (c.get_stability_deposit a t) (r.get_stability_deposit a t)
        (h.get_stability_deposit a t) i;
  get_remaining_stability_pool_lqty_reward = λ t.
      or_read-same (c.get_remaining_stability_pool_lqty_reward t)
        (r.get_remaining_stability_pool_lqty_reward t)
        (h.get_remaining_stability_pool_lqty_reward t) i;
  get_lusd_in_stability_pool = λ t.
      or_read-same (c.get_lusd_in_stability_pool t) (r.get_lusd_in_stability_pool t)
        (h.get_lusd_in_stability_pool t) i;
  get_lusd_balance = λ a t.
      or_read-same (c.get_lusd_balance a t) (r.get_lusd_balance a t) (h.get_lusd_balance a t) i;
  get_lqty_balance = λ a t.
      or_read-same (c.get_lqty_balance a t) (r.get_lqty_balance a t) (h.get_lqty_balance a t) i;
  get_uni_token_balance = λ a t.
      or_read-same (c.get_uni_token_balance a t) (r.get_uni_token_balance a t)
        (h.get_uni_token_balance a t) i;
  get_uni_token_allowance = λ a t.
      or_read-same (c.get_uni_token_allowance a t) (r.get_uni_token_allowance a t)
        (h.get_uni_token_allowance a t) i;
  get_remaining_liquidity_mining_lqty_reward = λ t.
      or_read-same (c.get_remaining_liquidity_mining_lqty_reward t)
        (r.get_remaining_liquidity_mining_lqty_reward t)
        (h.get_remaining_liquidity_mining_lqty_reward t) i;
  get_liquidity_mining_stake = λ a t.
      or_read-same (c.get_liquidity_mining_stake a t) (r.get_liquidity_mining_stake a t)
        (h.get_liquidity_mining_stake a t) i;
  get_total_staked_uni_tokens = λ t.
      or_read-same (c.get_total_staked_uni_tokens t) (r.get_total_staked_uni_tokens t)
        (h.get_total_staked_uni_tokens t) i;
  get_liquidity_mining_lqty_reward = λ a t.
      or_read-same (c.get_liquidity_mining_lqty_reward a t) (r.get_liquidity_mining_lqty_reward a t)
        (h.get_liquidity_mining_lqty_reward a t) i;
  get_collateral_surplus_balance = λ a t.
      or_read-same (c.get_collateral_surplus_balance a t) (r.get_collateral_surplus_balance a t)
        (h.get_collateral_surplus_balance a t) i;
  get_troves_before_redistribution = λ p t.
      or_read-same (c.get_troves_before_redistribution p t) (r.get_troves_before_redistribution p t)
        (h.get_troves_before_redistribution p t) i;
  get_troves = λ p t. cached_troves-same r c h composed p t i;
  get_fees = λ t. or_read-same (c.get_fees t) (r.get_fees t) (h.get_fees t) i;
  get_lqty_stake =
      λ a t. or_read-same (c.get_lqty_stake a t) (r.get_lqty_stake a t) (h.get_lqty_stake a t) i;
  get_total_staked_lqty = λ t.
      or_read-same (c.get_total_staked_lqty t) (r.get_total_staked_lqty t)
        (h.get_total_staked_lqty t) i;
  get_frontend_status = λ a t.
      or_read-same (c.get_frontend_status a t) (r.get_frontend_status a t)
        (h.get_frontend_status a t) i;
}
