-- ===== src/Validation/Stability.antt =====
-- packages/dev-frontend/src/components/Stability/validation/validateStabilityDepositChange.tsx
use liquity.Common.{
  ◌+◌, ◌≤◌, ◌<◌, ◌≡◌, ◌↔◌, arith, Bool, false, Option, none, some, if◌then◌else◌, Result, ok, ◌>>=◌,
  ◌&&◌,
}
use liquity.Decimal.{Decimal, is_zero}
use liquity.StabilityDeposit.{
  StabilityDeposit, StabilityDepositChange, deposit_lusd, withdraw_lusd, what_changed,
}
use liquity.Validation.{exceeds, present}

-- `StabilityDepositChangeValidationContext`, without the Trove
pub record DepositContext : Type 0 where
  pub lusd_balance : Decimal
  pub have_own_frontend : Bool
  pub have_undercollateralized_troves : Bool

pub data DepositVerdict : Type 0 where
  unchanged : DepositVerdict
  from_frontend : DepositVerdict
  exceeds_balance : DepositVerdict
  undercollateralized_troves : DepositVerdict
  accepted : StabilityDepositChange → DepositVerdict

-- The properties of the change; `none` is `undefined`.
abbrev deposited_of : StabilityDepositChange → Option Decimal
deposited_of (deposit_lusd a) = some a
deposited_of (withdraw_lusd a all) = none

abbrev withdrawn_of : StabilityDepositChange → Option Decimal
withdrawn_of (deposit_lusd a) = none
withdrawn_of (withdraw_lusd a all) = some a

abbrev pub validate_deposit_in : DepositContext → Option StabilityDepositChange → DepositVerdict
validate_deposit_in c none = if c.have_own_frontend then from_frontend else unchanged
validate_deposit_in c (some change) =
    if c.have_own_frontend
    then from_frontend
    else if exceeds (deposited_of change) c.lusd_balance
    then exceeds_balance
    else if present (withdrawn_of change) && c.have_undercollateralized_troves
    then undercollateralized_troves
    else accepted change

-- `validateStabilityDepositChange`
unfoldable pub validate_deposit_change :
    StabilityDeposit → Decimal → DepositContext → Result DepositVerdict
unfolding what_changed
validate_deposit_change original edited c = do
  change ← what_changed original edited
  ok (validate_deposit_in c change)

-- A deposit is accepted just when the edited amount is higher, the
-- wallet is no frontend, and the balance covers the difference; and then it is of the difference.
pub validate_deposit_change-deposit_iff :
    (d : StabilityDeposit) (edited : Decimal) (c : DepositContext) (a : Decimal)
    → (validate_deposit_change d edited c ≡ ok (accepted (deposit_lusd a))) ↔ (
        (c.have_own_frontend ≡ false)
        × (d.current_lusd < edited)
        × (edited ≡ d.current_lusd + a)
        × (a ≤ c.lusd_balance))
unfolding validate_deposit_change
validate_deposit_change-deposit_iff d edited c a = ground arith

-- A withdrawal is accepted just when the edited amount is lower, the wallet is no frontend, and no
-- Trove is undercollateralized; it is of the difference, and of everything if the edited amount
-- is 0.
pub validate_deposit_change-withdraw_iff :
    (d : StabilityDeposit) (edited : Decimal) (c : DepositContext) (a : Decimal) (all : Bool)
    → (validate_deposit_change d edited c ≡ ok (accepted (withdraw_lusd a all))) ↔ (
        (c.have_own_frontend ≡ false)
        × (c.have_undercollateralized_troves ≡ false)
        × (edited < d.current_lusd)
        × (d.current_lusd ≡ edited + a)
        × (all ≡ is_zero edited))
unfolding validate_deposit_change
validate_deposit_change-withdraw_iff d edited c a all = ground arith
