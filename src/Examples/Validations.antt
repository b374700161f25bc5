-- ===== src/Examples/Validations.antt =====
-- Runs of the validations, and their theorems at concrete inputs.
use liquity.Common.{◌+◌, ◌*◌, ◌^◌, ◌≤◌, ◌<◌, ◌≡◌, ◌↔◌, refl, arith, true, false, none, some, ok}
use liquity.Decimal.{Decimal, one, mul_div, is_zero}
use liquity.Trove.{Trove, trove, collateral_ratio_is_below_critical}
use liquity.Trove.Change.{
  both, borrow_lusd, deposit_collateral, TroveChange, adjustment, apply_fee, unapply_fee,
  what_changed,
}
use liquity.Trove.Change.Apply.{apply}
use liquity.Trove.Change.RoundTrip.{IsClosable}
use liquity.StabilityDeposit.{StabilityDeposit, deposit_lusd, withdraw_lusd}
use liquity.Validation.{Selected, Verdict, accepted, validate_trove_change}
use liquity.Validation.Accepted.{
  total_after, Rules, outcome, Keeps, validate_trove_change-Keeps, validate_trove_change_iff,
  accepted-stays_normal,
}
use liquity.Validation.Stability
use liquity.Validation.Stability.{
  DepositContext, validate_deposit_change, validate_deposit_change-deposit_iff,
  validate_deposit_change-withdraw_iff,
}

abbrev rate : Decimal
rate = 5 * 10 ^ 15

abbrev small : Trove
small = trove one (6 * one)

abbrev large : Trove
large = trove (2 * one) (10 * one)

abbrev selected : Selected
selected = record {
  price = 100 * one;
  total = trove (50 * one) (500 * one);
  account_balance = 5 * one;
  lusd_balance = 0;
  number_of_troves = 12;
}

-- 4 LUSD with the fee of 0.5%.
abbrev growth : TroveChange
growth = adjustment (both (borrow_lusd 3980099502487562190) (deposit_collateral one)) none

closable : IsClosable small large
closable = λ _ _. omega arith

growth_found : what_changed small large rate ≡ ok (some growth)
unfolding what_changed unapply_fee
growth_found = refl

growth_applied : apply small (some growth) rate ≡ ok (trove (2 * one) (10 * one))
unfolding apply apply_fee
growth_applied = refl

growth_accepted : validate_trove_change small large rate selected ≡ ok (accepted growth)
unfolding validate_trove_change what_changed apply apply_fee unapply_fee mul_div
growth_accepted = refl

validate_trove_change-Keeps_example :
    (v : Verdict) × (validate_trove_change small large rate selected ≡ ok v)
    × Keeps small large rate selected v
validate_trove_change-Keeps_example = validate_trove_change-Keeps small large rate selected closable

validate_trove_change_iff_example :
    (validate_trove_change small large rate selected ≡ ok (accepted growth))
    ↔ Rules growth (outcome selected small (trove (2 * one) (10 * one)))
validate_trove_change_iff_example =
    validate_trove_change_iff small large rate selected growth (trove (2 * one) (10 * one))
      growth_found growth_applied

normal : collateral_ratio_is_below_critical selected.total selected.price ≡ false
unfolding collateral_ratio_is_below_critical mul_div
normal = refl

accepted-stays_normal_example :
    (r : Trove) × (apply small (some growth) rate ≡ ok r)
    × (collateral_ratio_is_below_critical (total_after selected small r) selected.price ≡ false)
accepted-stays_normal_example =
    accepted-stays_normal small large rate selected growth closable growth_accepted normal

abbrev deposit : StabilityDeposit
deposit = record {
  initial_lusd = 100;
  current_lusd = 80;
  collateral_gain = 5;
  lqty_reward = 6;
  frontend_tag = "0xf";
}

abbrev wallet : DepositContext
wallet = record {
  lusd_balance = 50;
  have_own_frontend = false;
  have_undercollateralized_troves = false;
}

validate_deposit_change-deposit_iff_example :
    (validate_deposit_change deposit 120 wallet ≡ ok (Stability.accepted (deposit_lusd 40)))
    ↔ ((false ≡ false) × (80 < 120) × (120 ≡ 80 + 40) × (40 ≤ 50))
validate_deposit_change-deposit_iff_example =
    validate_deposit_change-deposit_iff deposit 120 wallet 40

validate_deposit_change-withdraw_iff_example :
    (validate_deposit_change deposit 0 wallet ≡ ok (Stability.accepted (withdraw_lusd 80 true)))
    ↔ ((false ≡ false) × (false ≡ false) × (0 < 80) × (80 ≡ 0 + 80) × (true ≡ is_zero 0))
validate_deposit_change-withdraw_iff_example =
    validate_deposit_change-withdraw_iff deposit 0 wallet 80 true
