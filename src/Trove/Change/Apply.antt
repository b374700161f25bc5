-- ===== src/Trove/Change/Apply.antt =====
-- packages/lib-base/src/Trove.ts: `Trove.apply`.
use liquity.Common.{
  ◌+◌, ◌-◌, ◌≡◌, Option, none, some, Result, ok, ◌>>◌, require, not, create_onto_existing,
  close_empty,
}
use liquity.Decimal.{Decimal, add}
use liquity.Constants.{lusd_liquidation_reserve}
use liquity.Trove.{
  Trove, trove, empty_trove, is_empty, plus, add_collateral, add_debt, subtract,
  subtract_collateral, subtract_debt, set_collateral, set_debt,
}
use liquity.Trove.Laws.{subtract_lem, subtract_collateral_lem, subtract_debt_lem}
use liquity.Trove.Change.{
  deposit_collateral, withdraw_collateral, borrow_lusd, repay_lusd, AdjustmentParams,
  collateral_only, debt_only, both, Zeroed, collateral_zeroed, debt_zeroed, TroveChange,
  invalid_creation, creation, closure, adjustment, apply_fee,
}

-- `withdrawCollateral ?? Decimal.ZERO` and its kin, for the changes that the parameters hold.
abbrev pub collateral_decrease : AdjustmentParams → Decimal
collateral_decrease (collateral_only (withdraw_collateral c)) = c
collateral_decrease (both d (withdraw_collateral c)) = c
collateral_decrease _ = 0

abbrev pub collateral_increase : AdjustmentParams → Decimal
collateral_increase (collateral_only (deposit_collateral c)) = c
collateral_increase (both d (deposit_collateral c)) = c
collateral_increase _ = 0

abbrev pub debt_decrease : AdjustmentParams → Decimal
debt_decrease (debt_only (repay_lusd d)) = d
debt_decrease (both (repay_lusd d) c) = d
debt_decrease _ = 0

abbrev pub debt_increase : Decimal → AdjustmentParams → Decimal
debt_increase rate (debt_only (borrow_lusd d)) = apply_fee rate d
debt_increase rate (both (borrow_lusd d) c) = apply_fee rate d
debt_increase rate _ = 0

unfoldable pub apply_adjustment : Trove → AdjustmentParams → Option Zeroed → Decimal → Result Trove
unfolding add_debt add_collateral plus subtract subtract_debt subtract_collateral
apply_adjustment t p (some collateral_zeroed) rate =
    subtract_debt (add_debt (set_collateral t 0) (debt_increase rate p)) (debt_decrease p)
apply_adjustment t p (some debt_zeroed) rate =
    subtract_collateral (add_collateral (set_debt t 0) (collateral_increase p))
      (collateral_decrease p)
apply_adjustment t p none rate =
    subtract (plus t (trove (collateral_increase p) (debt_increase rate p)))
      (trove (collateral_decrease p) (debt_decrease p))

unfoldable pub apply_change : Trove → TroveChange → Decimal → Result Trove
unfolding add apply_adjustment
apply_change t (invalid_creation invalid) rate = do
  require (is_empty t) create_onto_existing
  ok invalid
apply_change t (creation p) rate = do
  require (is_empty t) create_onto_existing
  ok (trove p.deposit (add lusd_liquidation_reserve (apply_fee rate p.borrow)))
apply_change t (closure p) rate = do require (not (is_empty t)) close_empty; ok empty_trove
apply_change t (adjustment p zeroed) rate = apply_adjustment t p zeroed rate

-- `Trove.apply`; `none` stands for `undefined`.
unfoldable pub apply : Trove → Option TroveChange → Decimal → Result Trove
unfolding apply_change
apply t none rate = ok t
apply t (some c) rate = apply_change t c rate

-- The Trove that an adjustment leads to, with the additions and subtractions on plain numbers.
abbrev pub settle : Trove → AdjustmentParams → Option Zeroed → Decimal → Trove
settle t p (some collateral_zeroed) rate = trove 0 (t.debt + debt_increase rate p - debt_decrease p)
settle t p (some debt_zeroed) rate =
    trove (t.collateral + collateral_increase p - collateral_decrease p) 0
settle t p none rate =
    trove (t.collateral + collateral_increase p - collateral_decrease p)
      (t.debt + debt_increase rate p - debt_decrease p)

-- An adjustment never throws.
pub apply_adjustment-settle :
    (t : Trove) (p : AdjustmentParams) (z : Option Zeroed) (rate : Decimal)
    → apply_adjustment t p z rate ≡ ok (settle t p z rate)
unfolding apply_adjustment
apply_adjustment-settle t p (some collateral_zeroed) rate = subtract_debt_lem _ _
apply_adjustment-settle t p (some debt_zeroed) rate = subtract_collateral_lem _ _
apply_adjustment-settle t p none rate = subtract_lem _ _
