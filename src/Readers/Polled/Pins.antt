-- ===== src/Readers/Polled/Pins.antt =====
-- Readers with a block for reads that name none, and an address for reads that name none.
use Prim.Native.String.{String}
use text.Mathlib.Text.{◌==◌ as str_eq}
use text.Mathlib.TextEquality.{eq_iff}
use liquity.Common.{
  ℕ, ◌≡◌, ◌&&◌, refl, sym, ap, ◌∙◌, arith, Bool, true, false, Bool-cases, inl, inr, Option, none,
  some, if◌then◌else◌, Result, ok,
}
use liquity.Readers.{Readable}
use liquity.Readers.Ethers.{BlockTag, number, word, Overrides}
use liquity.Readers.Fetch.{at_block}
use liquity.Readers.Polled.{is_block, tag_hit, block_hit, user_hit}

-- Overrides that name a block stay as they are.
abbrev pub pin_tag : Option ℕ → Option BlockTag → Option Overrides
pin_tag block none = at_block block
pin_tag block (some tag) = some (record { block_tag = some tag })

abbrev pub pin_block : Option ℕ → Option Overrides → Option Overrides
pin_block block none = at_block block
pin_block block (some o) = pin_tag block o.block_tag

-- A read for the address u, or for none, is one for u at the block; a read for another address
-- stays as it is.
abbrev pub pin_address :
    {A : Type 0}
    → Option ℕ
    → String
    → (Option String → Option Overrides → Result A)
    → Option String
    → Option Overrides
    → Result A
pin_address block u read none o = read (some u) (pin_block block o)
pin_address block u read (some a) o =
    if str_eq a u then read (some a) (pin_block block o) else read (some a) o

module _ (block : Option ℕ) (u f : String) (r : Readable (Option Overrides)) where
  abbrev pub pinned : Readable (Option Overrides)
  pinned = record {
    get_total_redistributed = λ o. r.get_total_redistributed (pin_block block o);
    get_trove_before_redistribution = pin_address block u r.get_trove_before_redistribution;
    get_trove = pin_address block u r.get_trove;
    get_number_of_troves = λ o. r.get_number_of_troves (pin_block block o);
    get_price = λ o. r.get_price (pin_block block o);
    get_total = λ o. r.get_total (pin_block block o);
    get_stability_deposit = pin_address block u r.get_stability_deposit;
    get_remaining_stability_pool_lqty_reward =
        λ o. r.get_remaining_stability_pool_lqty_reward (pin_block block o);
    get_lusd_in_stability_pool = λ o. r.get_lusd_in_stability_pool (pin_block block o);
    get_lusd_balance = pin_address block u r.get_lusd_balance;
    get_lqty_balance = pin_address block u r.get_lqty_balance;
    get_uni_token_balance = pin_address block u r.get_uni_token_balance;
    get_uni_token_allowance = pin_address block u r.get_uni_token_allowance;
    get_remaining_liquidity_mining_lqty_reward =
        λ o. r.get_remaining_liquidity_mining_lqty_reward (pin_block block o);
    get_liquidity_mining_stake = pin_address block u r.get_liquidity_mining_stake;
    get_total_staked_uni_tokens = λ o. r.get_total_staked_uni_tokens (pin_block block o);
    get_liquidity_mining_lqty_reward = pin_address block u r.get_liquidity_mining_lqty_reward;
    get_collateral_surplus_balance = pin_address block u r.get_collateral_surplus_balance;
    get_troves_before_redistribution = r.get_troves_before_redistribution;
    get_troves = r.get_troves;
    get_fees = λ o. r.get_fees (pin_block block o);
    get_lqty_stake = pin_address block u r.get_lqty_stake;
    get_total_staked_lqty = λ o. r.get_total_staked_lqty (pin_block block o);
    get_frontend_status = pin_address block f r.get_frontend_status;
  }

is_block-eq :
    (block : Option ℕ) (tag : BlockTag)
    → is_block block tag ≡ true
    → at_block block ≡ some (record { block_tag = some tag })
is_block-eq none tag h = absurd cc
is_block-eq (some b) (number n) h =
    ap (λ n. some (record { block_tag = some (number n) })) (ground arith)
is_block-eq (some b) (word w) h = absurd cc

pin_tag-hit :
    (block : Option ℕ) (tag : Option BlockTag)
    → tag_hit block tag ≡ true
    → pin_tag block tag ≡ at_block block
pin_tag-hit block none h = refl
pin_tag-hit block (some tag) h = sym (is_block-eq block tag h)

pin_tag-miss :
    (block : Option ℕ) (tag : Option BlockTag)
    → tag_hit block tag ≡ false
    → pin_tag block tag ≡ some (record { block_tag = tag })
pin_tag-miss block none h = absurd cc
pin_tag-miss block (some tag) h = refl

-- The store answers when the block is a hit: then the overrides are pinned to its block.
pub pin_block-hit :
    (block : Option ℕ) (o : Option Overrides)
    → block_hit block o ≡ true
    → pin_block block o ≡ at_block block
unfolding block_hit
pin_block-hit block none h = refl
pin_block-hit block (some o) h = pin_tag-hit block o.block_tag h

pub pin_block-miss :
    (block : Option ℕ) (o : Option Overrides) → block_hit block o ≡ false → pin_block block o ≡ o
unfolding block_hit
pin_block-miss block none h = absurd cc
pin_block-miss block (some o) h = pin_tag-miss block o.block_tag h

pub if_read :
    {A : Type 0} (block : Option ℕ) (read : Option Overrides → Result A) (o : Option Overrides)
    {v : A}
    → read (at_block block) ≡ ok v
    → (if block_hit block o then ok v else read o) ≡ read (pin_block block o)
if_read block read o h = elim (Bool-cases (block_hit block o)) [
  | inl hit ↦ rw (hit, pin_block-hit block o hit) (sym h)
  | inr miss ↦ rw (miss, pin_block-miss block o miss) refl
]

no_hit : {A : Type 0} (v : A) (b : Bool) (m : Result A) → (if b && false then ok v else m) ≡ m
no_hit v true m = refl
no_hit v false m = refl

pub if_read_at :
    {A : Type 0} (block : Option ℕ) (u : String)
    (read : Option String → Option Overrides → Result A) (a : Option String) (o : Option Overrides)
    {mine : Option String} {v : A}
    → mine ≡ some u
    → ((o : Option Overrides) → read none o ≡ read (some u) o)
    → read (some u) (at_block block) ≡ ok v
    → (if user_hit block mine a o then ok v else read a o) ≡ pin_address block u read a o
unfolding user_hit
if_read_at block u read none o e own h = elim (Bool-cases (block_hit block o)) [
  | inl hit ↦ rw (hit, pin_block-hit block o hit) (sym h)
  | inr miss ↦ rw (miss, pin_block-miss block o miss) (own o)
]
if_read_at block u read (some a) o {v = v} e own h = elim (Bool-cases (str_eq a u)) [
  | inl same ↦ elim (Bool-cases (block_hit block o)) [
    | inl hit ↦
        rw (e, same, hit, pin_block-hit block o hit)
          (sym h ∙ ap (λ u. read (some u) (at_block block)) (sym ((eq_iff a u).0 same)))
    | inr miss ↦ rw (e, same, miss, pin_block-miss block o miss) refl
  ]
  | inr other ↦ rw (e, other) (no_hit v (block_hit block o) (read (some a) o))
]
