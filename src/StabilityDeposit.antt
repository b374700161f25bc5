-- ===== src/StabilityDeposit.antt =====
-- packages/lib-base/src/StabilityDeposit.ts
pub mod Changes
use Prim.Native.String.{String}
use text.Mathlib.Text.{◌==◌ as str_eq}
use liquity.Common.{
  Bool, true, false, ◌&&◌, ◌||◌, Option, none, some, if◌then◌else◌, Result, ok, err, ◌>>=◌,
  current_above_initial,
}
use liquity.Decimal.{Decimal, add, sub, lt, gt, lte, eq, is_zero}

pub record StabilityDeposit : Type 0 where
  pub initial_lusd : Decimal
  pub current_lusd : Decimal
  pub collateral_gain : Decimal
  pub lqty_reward : Decimal
  pub frontend_tag : String

-- The constructor.
unfoldable pub new_deposit :
    Decimal → Decimal → Decimal → Decimal → String → Result StabilityDeposit
new_deposit initial current gain reward tag =
    if gt current initial
    then err current_above_initial
    else ok (record {
      initial_lusd = initial;
      current_lusd = current;
      collateral_gain = gain;
      lqty_reward = reward;
      frontend_tag = tag;
    })

unfoldable pub is_empty : StabilityDeposit → Bool
is_empty d =
    is_zero d.initial_lusd
    && (is_zero d.current_lusd && (is_zero d.collateral_gain && is_zero d.lqty_reward))

unfoldable pub equals : StabilityDeposit → StabilityDeposit → Bool
equals d e =
    eq d.initial_lusd e.initial_lusd
    && (eq d.current_lusd e.current_lusd
        && (eq d.collateral_gain e.collateral_gain
            && (eq d.lqty_reward e.lqty_reward && str_eq d.frontend_tag e.frontend_tag)))

pub data StabilityDepositChange : Type 0 where
  deposit_lusd : Decimal → StabilityDepositChange
  -- the amount, and `withdrawAllLUSD`
  withdraw_lusd : Decimal → Bool → StabilityDepositChange

-- `none` stands for `undefined`.
unfoldable pub what_changed : StabilityDeposit → Decimal → Result (Option StabilityDepositChange)
unfolding sub
what_changed d that =
    if lt that d.current_lusd
    then (sub d.current_lusd that >>= λ w. ok (some (withdraw_lusd w (is_zero that))))
    else if gt that d.current_lusd
    then (sub that d.current_lusd >>= λ i. ok (some (deposit_lusd i)))
    else ok none

unfoldable pub apply : StabilityDeposit → Option StabilityDepositChange → Result Decimal
unfolding sub add
apply d none = ok d.current_lusd
apply d (some (withdraw_lusd w all)) =
    if all || lte d.current_lusd w then ok 0 else sub d.current_lusd w
apply d (some (deposit_lusd i)) = ok (add d.current_lusd i)
