-- ===== src/Trove/Ratio.antt =====
-- `Trove`: what the collateral ratio's comparisons with the two thresholds decide.
use liquity.Common.{
  ℕ, zero, suc, ◌*◌, ◌≤◌, ◌<◌, ◌≡◌, ◌↔◌, arith, true, false, not, Bool-cases, inl, inr,
}
use native.Mathlib.Decide.{dec_lt}
use liquity.Decimal.{Decimal}
use liquity.Decimal.Rounding.{mul_div-lt_iff}
use liquity.Constants.{minimum_collateral_ratio, critical_collateral_ratio}
use liquity.Trove.{
  Trove, plus, collateral_ratio_is_below_minimum, collateral_ratio_is_below_critical,
  is_openable_in_recovery_mode,
}

-- The collateral's value is below a ratio of the debt, as exact numbers. A debt of 0 is never.
abbrev pub IsBelow : Decimal → Decimal → Trove → Type 0
IsBelow ratio price t = (0 < t.debt) × (t.collateral * price < ratio * t.debt)

-- The test for the minimum of 110% is exact: it holds just when the debt is not 0 and the
-- collateral times the price is below 110% of the debt, so the rounding of the ratio never changes
-- its result.
pub collateral_ratio_is_below_minimum_iff :
    (t : Trove) (price : Decimal)
    → (collateral_ratio_is_below_minimum t price ≡ true) ↔ IsBelow minimum_collateral_ratio price t
unfolding collateral_ratio_is_below_minimum
collateral_ratio_is_below_minimum_iff t price =
    mul_div-lt_iff t.collateral price t.debt minimum_collateral_ratio (omega arith)

pub collateral_ratio_is_below_critical_iff :
    (t : Trove) (price : Decimal)
    → (collateral_ratio_is_below_critical t price ≡ true)
      ↔ IsBelow critical_collateral_ratio price t
unfolding collateral_ratio_is_below_critical
collateral_ratio_is_below_critical_iff t price =
    mul_div-lt_iff t.collateral price t.debt critical_collateral_ratio (omega arith)

-- A Trove can be opened in recovery mode just when its ratio is not below the critical one.
pub is_openable-eq-not-below :
    (t : Trove) (price : Decimal)
    → is_openable_in_recovery_mode t price ≡ not (collateral_ratio_is_below_critical t price)
unfolding is_openable_in_recovery_mode collateral_ratio_is_below_critical
is_openable-eq-not-below t price = ground arith

pos_of_mul : (a b c : ℕ) → c < a * b → 0 < b
pos_of_mul a zero c h = absurd (omega arith)
pos_of_mul a (suc b) c h = omega arith

covers :
    (ratio price : Decimal) (t : Trove)
    → ¬ IsBelow ratio price t
    → ratio * t.debt ≤ t.collateral * price
covers ratio price t n = elim (dec_lt (t.collateral * price) (ratio * t.debt)) [
  | yes p ↦ absurd (n (pos_of_mul ratio t.debt _ p, p))
  | no p ↦ omega arith
]

sum-below :
    (ratio price : Decimal) (t u : Trove)
    → IsBelow ratio price (plus t u)
    → ¬ IsBelow ratio price t
    → ¬ IsBelow ratio price u
    → ⊥
unfolding plus
sum-below ratio price t u b nt nu =
    omega (arith, b.1, covers ratio price t nt, covers ratio price u nu)

-- If two Troves are not below the critical ratio, neither is their sum.
pub plus-below_critical :
    (t u : Trove) (price : Decimal)
    → collateral_ratio_is_below_critical t price ≡ false
    → collateral_ratio_is_below_critical u price ≡ false
    → collateral_ratio_is_below_critical (plus t u) price ≡ false
plus-below_critical t u price ht hu =
    elim (Bool-cases (collateral_ratio_is_below_critical (plus t u) price)) [
      | inr fine ↦ fine
      | inl below ↦ absurd (
          sum-below critical_collateral_ratio price t u
            ((collateral_ratio_is_below_critical_iff (plus t u) price).0 below)
            (λ b. let p = (collateral_ratio_is_below_critical_iff t price).1 b in cc)
            (λ b. let p = (collateral_ratio_is_below_critical_iff u price).1 b in cc))
    ]
