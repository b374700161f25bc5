-- ===== src/Trove.antt =====
-- packages/lib-base/src/Trove.ts: `class Trove`, a collateral and a debt. Its children model the
-- changes between two Troves, the parameters of transactions, and the subclasses.
pub mod Laws
pub mod Ratio
pub mod Change
pub mod Params
pub mod User
use liquity.Common.{
  ℕ, ◌*◌, ◌^◌, Bool, ◌&&◌, if◌then◌else◌, Result, ok, err, ◌>>=◌, net_debt_below_reserve,
}
use liquity.Decimal.{Decimal, digits, add, sub, mul, mul_div, lt, eq, gt, gte, is_zero}
use liquity.Constants.{
  minimum_collateral_ratio, critical_collateral_ratio, lusd_liquidation_reserve,
}

pub record Trove : Type 0 where
  pub collateral : Decimal
  pub debt : Decimal

abbrev pub trove : Decimal → Decimal → Trove
trove c d = record { collateral = c; debt = d }

-- `_emptyTrove`
abbrev pub empty_trove : Trove
empty_trove = trove 0 0

abbrev pub is_empty : Trove → Bool
is_empty t = is_zero t.collateral && is_zero t.debt

unfoldable pub net_debt : Trove → Result Decimal
unfolding sub
net_debt t =
    if lt t.debt lusd_liquidation_reserve
    then err net_debt_below_reserve
    else sub t.debt lusd_liquidation_reserve

abbrev nominal_collateral_ratio_precision : Decimal
nominal_collateral_ratio_precision = 100 * digits

unfoldable pub nominal_collateral_ratio : Trove → Decimal
nominal_collateral_ratio t = mul_div t.collateral nominal_collateral_ratio_precision t.debt

unfoldable pub collateral_ratio : Trove → Decimal → Decimal
collateral_ratio t price = mul_div t.collateral price t.debt

unfoldable pub collateral_ratio_is_below_minimum : Trove → Decimal → Bool
unfolding collateral_ratio
collateral_ratio_is_below_minimum t price = lt (collateral_ratio t price) minimum_collateral_ratio

unfoldable pub collateral_ratio_is_below_critical : Trove → Decimal → Bool
unfolding collateral_ratio
collateral_ratio_is_below_critical t price = lt (collateral_ratio t price) critical_collateral_ratio

unfoldable pub is_openable_in_recovery_mode : Trove → Decimal → Bool
unfolding collateral_ratio
is_openable_in_recovery_mode t price = gte (collateral_ratio t price) critical_collateral_ratio

unfoldable pub equals : Trove → Trove → Bool
equals t u = eq t.collateral u.collateral && eq t.debt u.debt

-- `Trove.add`
unfoldable pub plus : Trove → Trove → Trove
unfolding add
plus t u = trove (add t.collateral u.collateral) (add t.debt u.debt)

unfoldable pub add_collateral : Trove → Decimal → Trove
unfolding add
add_collateral t c = trove (add t.collateral c) t.debt

unfoldable pub add_debt : Trove → Decimal → Trove
unfolding add
add_debt t d = trove t.collateral (add t.debt d)

-- `a.gt(b) ? a.sub(b) : Decimal.ZERO`
unfoldable pub sub_or_zero : Decimal → Decimal → Result Decimal
unfolding sub
sub_or_zero a b = if gt a b then sub a b else ok 0

unfoldable pub subtract : Trove → Trove → Result Trove
unfolding sub_or_zero
subtract t u = do
  c ← sub_or_zero t.collateral u.collateral
  d ← sub_or_zero t.debt u.debt
  ok (trove c d)

unfoldable pub subtract_collateral : Trove → Decimal → Result Trove
unfolding sub_or_zero
subtract_collateral t c = do rest ← sub_or_zero t.collateral c; ok (trove rest t.debt)

unfoldable pub subtract_debt : Trove → Decimal → Result Trove
unfolding sub_or_zero
subtract_debt t d = do rest ← sub_or_zero t.debt d; ok (trove t.collateral rest)

unfoldable pub multiply : Trove → Decimal → Trove
unfolding mul
multiply t m = trove (mul t.collateral m) (mul t.debt m)

abbrev pub set_collateral : Trove → Decimal → Trove
set_collateral t c = trove c t.debt

abbrev pub set_debt : Trove → Decimal → Trove
set_debt t d = trove t.collateral d
