-- ===== src/LqtyStake/Changes.antt =====
-- `LQTYStake.whatChanged` and `apply`: they are inverse, and neither throws.
use liquity.Common.{◌-◌, ◌≡◌, ◌↔◌, arith, true, ltb, inl, inr, Bool-cases, Option, none, some, ok}
use liquity.Decimal.{Decimal, is_zero}
use liquity.LqtyStake.{
  LqtyStake, equals, LqtyStakeChange, stake_lqty, unstake_lqty, what_changed, apply,
}

-- Every amount can be staked from every stake: `whatChanged` finds a change, and applying it gives
-- exactly the amount.
pub stake_what_changed-apply :
    (s : LqtyStake) (that : Decimal)
    → (c : Option LqtyStakeChange) × (what_changed s that ≡ ok c) × (apply s c ≡ ok that)
unfolding what_changed apply
stake_what_changed-apply s that = elim (Bool-cases (ltb that s.staked_lqty)) [
  | inl less ↦
      (some (unstake_lqty (s.staked_lqty - that) (is_zero that)), ground arith, ground arith)
  | inr enough ↦ elim (Bool-cases (ltb s.staked_lqty that)) [
    | inl more ↦ (some (stake_lqty (that - s.staked_lqty)), ground arith, ground arith)
    | inr same ↦ (none, ground arith, ground arith)
  ]
]

pub stake_equals_iff : (s t : LqtyStake) → (equals s t ≡ true) ↔ (s ≡ t)
unfolding equals
stake_equals_iff s t = ground arith
