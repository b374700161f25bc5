-- ===== src/Trove/Params/Adjust.antt =====
-- `_normalizeTroveAdjustment`, `Trove.adjust` and `Trove.adjustTo`.
use native.Mathlib.Decide.{dec_lt, ℕ_discrete}
use liquity.Common.{
  ◌-◌, ◌<◌, ◌≡◌, ◌≢◌, refl, arith, Option, none, some, [], ◌∷◌, ok, false, ◌&&◌, ◌∙◌, if◌then◌else◌,
  ◌==◌, ◌>>=◌,
}
use liquity.Decimal.{Decimal, is_zero}
use liquity.Trove.{Trove, is_empty}
use liquity.Trove.Change.{
  CollateralChange, deposit_collateral, withdraw_collateral, DebtChange, borrow_lusd, repay_lusd,
  AdjustmentParams, Zeroed, collateral_only, debt_only, both, apply_fee, unapply_fee, what_changed,
  adjustment,
}
use liquity.Trove.Change.Apply.{settle, apply_adjustment-settle}
use liquity.Trove.Change.Fee.{apply_fee-unapply_fee, unapply_fee-le_iff}
use liquity.Trove.Change.RoundTrip.{
  Reaches, debt_part, collateral_part, adjusted-debt_only, adjusted-collateral_only, adjusted-both,
  if_adjusting,
}
use liquity.Trove.Params.{
  Entries, collateral_change_from, debt_change_from, combine, normalize_adjustment, adjust,
  adjust_to,
}

-- The object with the four properties of `TroveAdjustmentParams`.
abbrev pub adjustment_entries :
    Option Decimal → Option Decimal → Option Decimal → Option Decimal → Entries (Option Decimal)
adjustment_entries d w b r =
    ("depositCollateral", d) ∷ ("withdrawCollateral", w) ∷ ("borrowLUSD", b) ∷ ("repayLUSD", r) ∷ []

-- An amount that is undefined or zero counts for nothing.
abbrev pub non_zero_amount : Option Decimal → Option Decimal
non_zero_amount none = none
non_zero_amount (some v) = if is_zero v then none else some v

-- Of the four amounts those that are defined and not zero make the change: at most one of the
-- collateral, at most one of the debt, at least one in all; otherwise normalizing throws.
pub normalize_adjustment_lem :
    (d w b r : Option Decimal)
    → normalize_adjustment (adjustment_entries d w b r) ≡ (
        collateral_change_from (non_zero_amount d) (non_zero_amount w) >>= λ c.
        debt_change_from (non_zero_amount b) (non_zero_amount r) >>= λ e. combine c e)
unfolding normalize_adjustment
normalize_adjustment_lem d w b r = ground arith

-- The parameters as an object again.
abbrev pub entries_of : AdjustmentParams → Entries (Option Decimal)
entries_of (collateral_only (deposit_collateral c)) = adjustment_entries (some c) none none none
entries_of (collateral_only (withdraw_collateral c)) = adjustment_entries none (some c) none none
entries_of (debt_only (borrow_lusd d)) = adjustment_entries none none (some d) none
entries_of (debt_only (repay_lusd d)) = adjustment_entries none none none (some d)
entries_of (both (borrow_lusd d) (deposit_collateral c)) =
    adjustment_entries (some c) none (some d) none
entries_of (both (borrow_lusd d) (withdraw_collateral c)) =
    adjustment_entries none (some c) (some d) none
entries_of (both (repay_lusd d) (deposit_collateral c)) =
    adjustment_entries (some c) none none (some d)
entries_of (both (repay_lusd d) (withdraw_collateral c)) =
    adjustment_entries none (some c) none (some d)

abbrev collateral_amount : CollateralChange → Decimal
collateral_amount (deposit_collateral c) = c
collateral_amount (withdraw_collateral c) = c

abbrev debt_amount : DebtChange → Decimal
debt_amount (borrow_lusd d) = d
debt_amount (repay_lusd d) = d

abbrev IsNonZero : AdjustmentParams → Type 0
IsNonZero (collateral_only c) = 0 < collateral_amount c
IsNonZero (debt_only d) = 0 < debt_amount d
IsNonZero (both d c) = (0 < debt_amount d) × (0 < collateral_amount c)

-- The object of any parameters without zero amounts is normalized to these parameters.
pub normalize_adjustment-entries_of :
    (p : AdjustmentParams) → IsNonZero p → normalize_adjustment (entries_of p) ≡ ok p
unfolding normalize_adjustment
normalize_adjustment-entries_of (collateral_only (deposit_collateral c)) h = ground arith
normalize_adjustment-entries_of (collateral_only (withdraw_collateral c)) h = ground arith
normalize_adjustment-entries_of (debt_only (borrow_lusd d)) h = ground arith
normalize_adjustment-entries_of (debt_only (repay_lusd d)) h = ground arith
normalize_adjustment-entries_of (both (borrow_lusd d) (deposit_collateral c)) h = ground arith
normalize_adjustment-entries_of (both (borrow_lusd d) (withdraw_collateral c)) h = ground arith
normalize_adjustment-entries_of (both (repay_lusd d) (deposit_collateral c)) h = ground arith
normalize_adjustment-entries_of (both (repay_lusd d) (withdraw_collateral c)) h = ground arith

apply_fee-zero : (rate : Decimal) → apply_fee rate 0 ≡ 0
unfolding apply_fee
apply_fee-zero rate = omega arith

-- A positive increase is borrowed by a positive amount.
unapply_fee-pos : (rate d : Decimal) → 0 < d → 0 < unapply_fee rate d
unapply_fee-pos rate d h = elim (dec_lt 0 (unapply_fee rate d)) [
  | yes p ↦ p
  | no n ↦
      absurd (omega (arith, (unapply_fee-le_iff rate d 0).0 (omega arith), apply_fee-zero rate))
]

same_trove : (t that : Trove) → t.collateral ≡ that.collateral → t.debt ≡ that.debt → t ≡ that
same_trove t that p q = ground arith

differs :
    (t that : Trove)
    → t ≢ that
    → ((t.collateral == that.collateral) && (t.debt == that.debt)) ≡ false
differs t that n = ground (arith, same_trove t that)

module _ (t that : Trove) (rate : Decimal) where
  debt_part-pos : t.debt ≢ that.debt → 0 < debt_amount (debt_part t that rate)
  debt_part-pos n = ground (arith, unapply_fee-pos rate (that.debt - t.debt))

  collateral_part-pos :
      t.collateral ≢ that.collateral → 0 < collateral_amount (collateral_part t that rate)
  collateral_part-pos n = ground arith

  debt_only-Reaches :
      t.collateral ≡ that.collateral
      → Reaches rate t that (settle t (debt_only (debt_part t that rate)) none rate)
  debt_only-Reaches e = ground (arith, apply_fee-unapply_fee rate (that.debt - t.debt))

  collateral_only-Reaches :
      t.debt ≡ that.debt
      → Reaches rate t that (settle t (collateral_only (collateral_part t that rate)) none rate)
  collateral_only-Reaches e = ground arith

  both-Reaches :
      Reaches rate t that
        (settle t (both (debt_part t that rate) (collateral_part t that rate)) none rate)
  both-Reaches = ground (arith, apply_fee-unapply_fee rate (that.debt - t.debt))

  -- `adjustTo` finds the parameters p, and `adjust` leads to what p settles to without `setToZero`.
  adjusts :
      (p : AdjustmentParams) (z : Option Zeroed)
      → what_changed t that rate ≡ ok (some (adjustment p z))
      → IsNonZero p
      → (adjust_to t that rate ≡ ok p) × (adjust t (entries_of p) rate ≡ ok (settle t p none rate))
  unfolding adjust_to adjust
  adjusts p z e h =
      (rw e refl, rw (normalize_adjustment-entries_of p h) (apply_adjustment-settle t p none rate))

  -- The parameters found lead to the Trove that was asked for.
  abbrev Adjusts : Type 0
  Adjusts =
      (p : AdjustmentParams) × (adjust_to t that rate ≡ ok p)
      × (r : Trove) × (adjust t (entries_of p) rate ≡ ok r)
      × Reaches rate t that r

  reached :
      (p : AdjustmentParams) (z : Option Zeroed)
      → what_changed t that rate ≡ ok (some (adjustment p z))
      → IsNonZero p
      → Reaches rate t that (settle t p none rate)
      → Adjusts
  reached p z e h r =
      let (found, done) = adjusts p z e h in (p, found, settle t p none rate, done, r)

-- Between any two non-empty Troves that differ, `adjustTo` finds parameters with which `adjust`
-- leads to exactly the wanted collateral and, but for the fee's rounding, the wanted debt, although
-- `adjust` knows nothing of `setToZero`.
pub adjust-adjust_to :
    (t that : Trove) (rate : Decimal)
    → is_empty t ≡ false
    → is_empty that ≡ false
    → t ≢ that
    → (p : AdjustmentParams) × (adjust_to t that rate ≡ ok p)
      × (r : Trove) × (adjust t (entries_of p) rate ≡ ok r)
      × Reaches rate t that r
adjust-adjust_to t that rate e f n =
    let changed = if_adjusting t that rate (differs t that n) e f in
    elim (ℕ_discrete t.collateral that.collateral) [
      | yes same ↦
          let m = λ (q : t.debt ≡ that.debt). n (same_trove t that same q) in
          reached t that rate _ _ (changed ∙ adjusted-debt_only t that rate same)
            (debt_part-pos t that rate m) (debt_only-Reaches t that rate same)
      | no k ↦ elim (ℕ_discrete t.debt that.debt) [
        | yes same ↦
            reached t that rate _ _ (changed ∙ adjusted-collateral_only t that rate k same)
              (collateral_part-pos t that rate k) (collateral_only-Reaches t that rate same)
        | no m ↦
            reached t that rate _ _ (changed ∙ adjusted-both t that rate k m)
              (debt_part-pos t that rate m, collateral_part-pos t that rate k)
              (both-Reaches t that rate)
      ]
    ]
