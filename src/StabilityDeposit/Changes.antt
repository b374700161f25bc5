-- ===== src/StabilityDeposit/Changes.antt =====
-- `StabilityDeposit.whatChanged` and `apply`: they are inverse, and neither throws.
use text.Mathlib.TextEquality.{eq_iff}
use liquity.Common.{
  ◌+◌, ◌-◌, ◌≤◌, ◌≡◌, ◌↔◌, arith, refl, Bool, true, ltb, inl, inr, Bool-cases, Option, none, some,
  if◌then◌else◌, ok,
}
use liquity.Decimal.{Decimal, is_zero}
use liquity.StabilityDeposit.{
  StabilityDeposit, equals, StabilityDepositChange, deposit_lusd, withdraw_lusd, what_changed,
  apply,
}

-- Every amount can be reached from every deposit: `whatChanged` finds a change, and applying it
-- gives exactly the amount.
pub deposit_what_changed-apply :
    (d : StabilityDeposit) (that : Decimal)
    → (c : Option StabilityDepositChange) × (what_changed d that ≡ ok c) × (apply d c ≡ ok that)
unfolding what_changed apply
deposit_what_changed-apply d that = elim (Bool-cases (ltb that d.current_lusd)) [
  | inl less ↦
      (some (withdraw_lusd (d.current_lusd - that) (is_zero that)), ground arith, ground arith)
  | inr enough ↦ elim (Bool-cases (ltb d.current_lusd that)) [
    | inl more ↦ (some (deposit_lusd (that - d.current_lusd)), ground arith, ground arith)
    | inr same ↦ (none, ground arith, ground arith)
  ]
]

-- Applying any change whatever to a deposit returns an amount: a withdrawal of more than there is
-- takes all of it.
pub apply-total :
    (d : StabilityDeposit) (c : Option StabilityDepositChange)
    → (r : Decimal) × (apply d c ≡ ok r)
      × ((w : Decimal) (all : Bool) → c ≡ some (withdraw_lusd w all) → r ≤ d.current_lusd - w)
      × ((i : Decimal) → c ≡ some (deposit_lusd i) → r ≡ d.current_lusd + i)
unfolding apply
apply-total d none = (d.current_lusd, refl, λ w all e. cc, λ i e. cc)
apply-total d (some (deposit_lusd j)) =
    (d.current_lusd + j, refl, λ w all e. cc, λ i e. ground arith)
apply-total d (some (withdraw_lusd v b)) =
    (if b then 0 else d.current_lusd - v, ground arith, λ w all e. ground arith, λ i e. cc)

pub deposit_equals_iff : (d e : StabilityDeposit) → (equals d e ≡ true) ↔ (d ≡ e)
unfolding equals
deposit_equals_iff d e = ground (arith, eq_iff d.frontend_tag e.frontend_tag)
