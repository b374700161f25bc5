-- ===== src/Validation.antt =====
-- packages/dev-frontend/src/components/Trove/validation/validateTroveChange.tsx: which changes of a
-- Trove the front end lets a user make. An error stands for the description that is shown.
pub mod Accepted
pub mod Stability
use liquity.Common.{
  ℕ, Bool, true, false, not, Option, none, some, if◌then◌else◌, ◌==◌, Result, ok, err, ◌>>=◌, ◌&&◌,
}
use liquity.Decimal.{Decimal, lt, gt}
use liquity.Constants.{lusd_minimum_debt, lusd_minimum_net_debt}
use liquity.Trove.{
  Trove, collateral_ratio, collateral_ratio_is_below_minimum, collateral_ratio_is_below_critical,
  is_openable_in_recovery_mode, plus, subtract,
}
use liquity.Trove.Change.{
  CollateralChange, deposit_collateral, withdraw_collateral, DebtChange, borrow_lusd, repay_lusd,
  CreationParams, ClosureParams, AdjustmentParams, collateral_only, debt_only, both, TroveChange,
  invalid_creation, creation, closure, adjustment, what_changed,
}
use liquity.Trove.Change.Apply.{apply}

-- `selectForTroveChangeValidation`
pub record Selected : Type 0 where
  pub price : Decimal
  pub total : Trove
  pub account_balance : Decimal
  pub lusd_balance : Decimal
  pub number_of_troves : ℕ

-- `TroveChangeValidationContext`
pub record Context : Type 0 where
  pub selected : Selected
  pub original_trove : Trove
  pub resulting_trove : Trove
  pub recovery_mode : Bool
  pub would_trigger_recovery_mode : Bool

-- The `ErrorDescription`s, in the order of the source.
pub data Refusal : Type 0 where
  total_debt_below_minimum : Refusal
  borrowed_below_minimum : Refusal
  opened_below_critical : Refusal
  opened_below_minimum : Refusal
  opening_triggers_recovery : Refusal
  deposit_exceeds_balance : Refusal
  withdrawal_in_recovery : Refusal
  borrowing_below_critical : Refusal
  ratio_decreases_in_recovery : Refusal
  adjusted_below_minimum : Refusal
  adjusting_triggers_recovery : Refusal
  repaid_below_minimum : Refusal
  repayment_exceeds_balance : Refusal
  last_trove : Refusal
  closing_in_recovery : Refusal
  balance_short_of_closing : Refusal
  closing_triggers_recovery : Refusal

-- `if (condition) return refusal`, followed by the rest; `none` is `null`.
abbrev pub refuse : Bool → Refusal → Option Refusal → Option Refusal
refuse true r rest = some r
refuse false r rest = rest

-- Whether an optional amount is there, and greater than a bound (`?.gt`).
abbrev pub present : Option Decimal → Bool
present none = false
present (some a) = true

abbrev pub exceeds : Option Decimal → Decimal → Bool
exceeds none b = false
exceeds (some a) b = gt a b

-- The properties of `TroveAdjustmentParams`; `none` is `undefined`.
abbrev pub deposited_of : AdjustmentParams → Option Decimal
deposited_of (collateral_only (deposit_collateral c)) = some c
deposited_of (both d (deposit_collateral c)) = some c
deposited_of _ = none

abbrev pub withdrawn_of : AdjustmentParams → Option Decimal
withdrawn_of (collateral_only (withdraw_collateral c)) = some c
withdrawn_of (both d (withdraw_collateral c)) = some c
withdrawn_of _ = none

abbrev pub borrowed_of : AdjustmentParams → Option Decimal
borrowed_of (debt_only (borrow_lusd d)) = some d
borrowed_of (both (borrow_lusd d) c) = some d
borrowed_of _ = none

abbrev pub repaid_of : AdjustmentParams → Option Decimal
repaid_of (debt_only (repay_lusd d)) = some d
repaid_of (both (repay_lusd d) c) = some d
repaid_of _ = none

unfoldable pub validate_creation : CreationParams → Context → Option Refusal
unfolding is_openable_in_recovery_mode collateral_ratio_is_below_minimum
validate_creation p c =
    let price = c.selected.price in
    let balance = refuse (gt p.deposit c.selected.account_balance) deposit_exceeds_balance none in
    refuse (lt p.borrow lusd_minimum_net_debt) borrowed_below_minimum (
      if c.recovery_mode
      then refuse (not (is_openable_in_recovery_mode c.resulting_trove price)) opened_below_critical
          balance
      else refuse (collateral_ratio_is_below_minimum c.resulting_trove price) opened_below_minimum
          (refuse c.would_trigger_recovery_mode opening_triggers_recovery balance))

unfoldable pub validate_adjustment : AdjustmentParams → Context → Option Refusal
unfolding collateral_ratio collateral_ratio_is_below_minimum collateral_ratio_is_below_critical
    lusd_minimum_debt
validate_adjustment p c =
    let price = c.selected.price in
    let balance =
      refuse (exceeds (deposited_of p) c.selected.account_balance) deposit_exceeds_balance none in
    let repayment =
      refuse (present (repaid_of p) && lt c.resulting_trove.debt lusd_minimum_debt)
        repaid_below_minimum
        (refuse (exceeds (repaid_of p) c.selected.lusd_balance) repayment_exceeds_balance
          balance) in
    if c.recovery_mode
    then refuse (present (withdrawn_of p)) withdrawal_in_recovery (
        refuse
          (present (borrowed_of p) && collateral_ratio_is_below_critical c.resulting_trove price)
          borrowing_below_critical
          (refuse
            (present (borrowed_of p)
              && lt (collateral_ratio c.resulting_trove price)
                  (collateral_ratio c.original_trove price))
            ratio_decreases_in_recovery repayment))
    else refuse (collateral_ratio_is_below_minimum c.resulting_trove price) adjusted_below_minimum
        (refuse c.would_trigger_recovery_mode adjusting_triggers_recovery repayment)

unfoldable pub validate_closure : ClosureParams → Context → Option Refusal
validate_closure p c = refuse (c.selected.number_of_troves == 1) last_trove (
    refuse c.recovery_mode closing_in_recovery (
      refuse (exceeds p.repay c.selected.lusd_balance) balance_short_of_closing
        (refuse c.would_trigger_recovery_mode closing_triggers_recovery none)))

-- What is shown: nothing, a refusal, or the valid change.
pub data Verdict : Type 0 where
  unchanged : Verdict
  refused : Refusal → Verdict
  accepted : TroveChange → Verdict

abbrev pub conclude : TroveChange → Option Refusal → Verdict
conclude change none = accepted change
conclude change (some r) = refused r

unfoldable pub validate_in : TroveChange → Context → Verdict
unfolding validate_creation validate_adjustment validate_closure
validate_in (invalid_creation t) c = refused total_debt_below_minimum
validate_in (creation p) c = conclude (creation p) (validate_creation p c)
validate_in (closure p) c = conclude (closure p) (validate_closure p c)
validate_in (adjustment p z) c = conclude (adjustment p z) (validate_adjustment p c)

-- The context of a change that leads to the given Trove.
unfoldable pub context : Selected → Trove → Trove → Result Context
unfolding subtract plus collateral_ratio_is_below_critical
context s original resulting = do
  others ← subtract s.total original
  ok (record {
    selected = s;
    original_trove = original;
    resulting_trove = resulting;
    recovery_mode = collateral_ratio_is_below_critical s.total s.price;
    would_trigger_recovery_mode =
        collateral_ratio_is_below_critical (plus others resulting) s.price;
  })

-- `validateTroveChange`
unfoldable pub validate_change : Trove → Decimal → Selected → Option TroveChange → Result Verdict
unfolding validate_in context
validate_change original rate s none = ok unchanged
validate_change original rate s (some change) = do
  resulting ← apply original (some change) rate
  c ← context s original resulting
  ok (validate_in change c)

unfoldable pub validate_trove_change : Trove → Trove → Decimal → Selected → Result Verdict
unfolding validate_change
validate_trove_change original adjusted rate s = do
  change ← what_changed original adjusted rate
  validate_change original rate s change
