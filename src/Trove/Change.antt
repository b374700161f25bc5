-- ===== src/Trove/Change.antt =====
-- packages/lib-base/src/Trove.ts: `TroveChange`, `Trove.whatChanged` and `Trove.apply`.
-- The optional `borrowingRate` of both is an argument; its default is `minimum_borrowing_rate`.
pub mod Apply
pub mod Fee
pub mod RoundTrip
use liquity.Common.{
  ℕ, Bool, ◌&&◌, Option, none, some, if◌then◌else◌, Result, ok, err, ◌>>=◌, create_onto_existing,
  close_empty,
}
use liquity.Decimal.{Decimal, one, add, sub, mul, div_ceil, lt, eq, gt, is_zero, zero?, non_zero?}
use liquity.Constants.{lusd_liquidation_reserve}
use liquity.Trove.{
  Trove, trove, empty_trove, is_empty, net_debt, plus, add_collateral, add_debt, subtract,
  subtract_collateral, subtract_debt, set_collateral, set_debt,
}

-- `_CollateralChange`
pub data CollateralChange : Type 0 where
  deposit_collateral withdraw_collateral : Decimal → CollateralChange

-- `_DebtChange`
pub data DebtChange : Type 0 where
  borrow_lusd repay_lusd : Decimal → DebtChange

pub record CreationParams : Type 0 where
  pub deposit : Decimal
  pub borrow : Decimal

pub record ClosureParams : Type 0 where
  pub withdraw : Decimal
  pub repay : Option Decimal

-- At least one of the two changes, as the type `TroveAdjustmentParams` requires.
pub data AdjustmentParams : Type 0 where
  collateral_only : CollateralChange → AdjustmentParams
  debt_only : DebtChange → AdjustmentParams
  both : DebtChange → CollateralChange → AdjustmentParams

-- `setToZero`
pub data Zeroed : Type 0 where
  collateral_zeroed debt_zeroed : Zeroed

-- The only `TroveCreationError` is "missingLiquidationReserve".
pub data TroveChange : Type 0 where
  invalid_creation : Trove → TroveChange
  creation : CreationParams → TroveChange
  closure : ClosureParams → TroveChange
  adjustment : AdjustmentParams → Option Zeroed → TroveChange

unfoldable pub apply_fee : Decimal → Decimal → Decimal
unfolding add mul
apply_fee rate increase = mul increase (add one rate)

unfoldable pub unapply_fee : Decimal → Decimal → Decimal
unfolding add div_ceil
unapply_fee rate increase = div_ceil increase (add one rate)

unfoldable pub debt_change : Trove → Trove → Decimal → Result DebtChange
unfolding sub
debt_change t that rate =
    if gt that.debt t.debt
    then (sub that.debt t.debt >>= λ d. ok (borrow_lusd (unapply_fee rate d)))
    else (sub t.debt that.debt >>= λ d. ok (repay_lusd d))

unfoldable pub collateral_change : Trove → Trove → Result CollateralChange
unfolding sub
collateral_change t that =
    if gt that.collateral t.collateral
    then (sub that.collateral t.collateral >>= λ c. ok (deposit_collateral c))
    else (sub t.collateral that.collateral >>= λ c. ok (withdraw_collateral c))

-- `debt.zero && "debt"` and `collateral.zero && "collateral"`
abbrev pub debt_zero : Trove → Option Zeroed
debt_zero t = if is_zero t.debt then some debt_zeroed else none

abbrev pub collateral_zero : Trove → Option Zeroed
collateral_zero t = if is_zero t.collateral then some collateral_zeroed else none

-- `a ?? b`
abbrev pub or_else {ℓ} : {A : Type ℓ} → Option A → Option A → Option A
or_else none b = b
or_else (some a) b = some a

-- The branch of `whatChanged` for a Trove that is created.
unfoldable pub created : Trove → Decimal → Result (Option TroveChange)
unfolding net_debt
created that rate =
    if lt that.debt lusd_liquidation_reserve
    then ok (some (invalid_creation that))
    else (net_debt that >>= λ d.
        ok (some (creation (record { deposit = that.collateral; borrow = unapply_fee rate d }))))

-- The branch for a Trove that is closed.
unfoldable pub closed : Trove → Result (Option TroveChange)
unfolding net_debt
closed t = do
  d ← net_debt t
  ok (some (closure (record { withdraw = t.collateral; repay = non_zero? d })))

-- The branches for a Trove that stays open.
unfoldable pub adjusted : Trove → Trove → Decimal → Result (Option TroveChange)
unfolding debt_change collateral_change
adjusted t that rate =
    if eq t.collateral that.collateral
    then (debt_change t that rate >>= λ d. ok (some (adjustment (debt_only d) (debt_zero that))))
    else if eq t.debt that.debt
    then (collateral_change t that >>= λ c.
        ok (some (adjustment (collateral_only c) (collateral_zero that))))
    else (debt_change t that rate >>= λ d. collateral_change t that >>= λ c.
        ok (some (adjustment (both d c) (or_else (debt_zero that) (collateral_zero that)))))

-- `none` stands for `undefined`: nothing changed.
unfoldable pub what_changed : Trove → Trove → Decimal → Result (Option TroveChange)
unfolding created closed adjusted
what_changed t that rate =
    if eq t.collateral that.collateral && eq t.debt that.debt
    then ok none
    else if is_empty t
    then created that rate
    else if is_empty that
    then closed t
    else adjusted t that rate
