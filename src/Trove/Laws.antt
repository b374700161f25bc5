-- ===== src/Trove/Laws.antt =====
-- `Trove`: the guarded subtractions never throw, and they undo the additions.
use liquity.Common.{◌-◌, ◌≡◌, arith, ok}
use liquity.Decimal.{Decimal}
use liquity.Trove.{Trove, trove, plus, sub_or_zero, subtract, subtract_collateral, subtract_debt}

pub sub_or_zero_lem : (a b : Decimal) → sub_or_zero a b ≡ ok (a - b)
unfolding sub_or_zero
sub_or_zero_lem a b = ground arith

-- Where one of the parts is larger than what it is taken from, the rest is 0.
pub subtract_lem :
    (t u : Trove) → subtract t u ≡ ok (trove (t.collateral - u.collateral) (t.debt - u.debt))
unfolding subtract
subtract_lem t u = ground arith

pub subtract_collateral_lem :
    (t : Trove) (c : Decimal) → subtract_collateral t c ≡ ok (trove (t.collateral - c) t.debt)
unfolding subtract_collateral
subtract_collateral_lem t c = ground arith

pub subtract_debt_lem :
    (t : Trove) (d : Decimal) → subtract_debt t d ≡ ok (trove t.collateral (t.debt - d))
unfolding subtract_debt
subtract_debt_lem t d = ground arith

pub subtract-plus : (t u : Trove) → subtract (plus t u) u ≡ ok t
unfolding plus
subtract-plus t u = ground (arith, subtract_lem (plus t u) u)
