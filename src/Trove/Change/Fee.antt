-- ===== src/Trove/Change/Fee.antt =====
-- `applyFee` and `unapplyFee`: how they undo each other.
use native.Mathlib.Nat.{lt-div-mul-add, div-mul-le_self}
use liquity.Common.{◌+◌, ◌-◌, ◌*◌, ◌≤◌, ◌<◌, ◌↔◌, arith}
use liquity.Decimal.{Decimal, digits, one}
use liquity.Decimal.Rounding.{div_ceil-pos, div_ceil-le_iff}
use liquity.Trove.Change.{apply_fee, unapply_fee}

-- The amount without the fee is the smallest one that, with the fee on top, reaches the increase.
pub unapply_fee-le_iff : (rate d x : Decimal) → (unapply_fee rate d ≤ x) ↔ (d ≤ apply_fee rate x)
unfolding unapply_fee apply_fee
unapply_fee-le_iff rate d x = div_ceil-le_iff d (one + rate) x (omega arith)

-- What the fee's rounding may add to a debt: less than 1 + rate in the last of its 18 digits.
abbrev pub Overshoots : Decimal → Decimal → Decimal → Type 0
Overshoots rate d r = (d ≤ r) × (r * digits < d * digits + digits + rate)

pub apply_fee-unapply_fee :
    (rate d : Decimal) → Overshoots rate d (apply_fee rate (unapply_fee rate d))
unfolding unapply_fee apply_fee
apply_fee-unapply_fee rate d = rw (div_ceil-pos d (one + rate) (omega arith)) (
    omega (
      arith,
      lt-div-mul-add {a = d * digits + (one + rate - 1)} {b = one + rate} (omega arith),
      div-mul-le_self (d * digits + (one + rate - 1)) (one + rate),
    ))
