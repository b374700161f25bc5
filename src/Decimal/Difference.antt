-- ===== src/Decimal/Difference.antt =====
-- packages/lib-base/src/Decimal.ts: `class Difference`, a signed difference of two decimals.
use native.Mathlib.Decide.{ℕ_discrete}
use liquity.Common.{
  ◌+◌, ◌-◌, ◌≤◌, ◌<◌, ◌≡◌, ◌≢◌, Bool, true, false, Option, none, some, arith, ltb, if◌then◌else◌,
  Result, ok, ◌>>=◌, ◌⊎◌, inl, inr, Bool-cases,
}
use liquity.Decimal.{Decimal, infinity, sub, mul, gt, is_infinite, is_zero}

-- "", "+" and "-"
pub data Sign : Type 0 where
  neutral plus minus : Sign

-- `DifferenceRepresentation`
pub record Representation : Type 0 where
  pub sign : Sign
  pub absolute_value : Decimal

-- `none` is the `Difference` that prints as "N/A".
abbrev pub Difference : Type 0
Difference = Option Representation

abbrev signed : Sign → Decimal → Difference
signed s a = some (record { sign = s; absolute_value = a })

-- The two arguments when both are defined.
between_defined : Decimal → Decimal → Result Difference
unfolding sub
between_defined a b =
    if is_infinite a
    then (if is_infinite b then ok none else ok (signed plus a))
    else if is_infinite b
    then ok (signed minus b)
    else if gt a b
    then (sub a b >>= λ d. ok (signed plus d))
    else if gt b a
    then (sub b a >>= λ d. ok (signed minus d))
    else ok (signed neutral 0)

pub between : Option Decimal → Option Decimal → Result Difference
unfolding between_defined
between none _ = ok none
between (some a) none = ok none
between (some a) (some b) = between_defined a b

-- `Difference.mul`
pub scale : Difference → Decimal → Difference
unfolding mul
scale none m = none
scale (some n) m = signed n.sign (mul n.absolute_value m)

-- `get nonZero`, `get positive`, `get negative`, `get infinite` and `get finite`; `none` is
-- `undefined`
pub non_zero : Difference → Option Difference
non_zero none = none
non_zero (some n) = if is_zero n.absolute_value then none else some (some n)

has_sign : Sign → Sign → Bool
has_sign plus plus = true
has_sign minus minus = true
has_sign neutral neutral = true
has_sign _ _ = false

pub positive : Difference → Option Difference
unfolding has_sign
positive none = none
positive (some n) = if has_sign n.sign plus then some (some n) else none

pub negative : Difference → Option Difference
unfolding has_sign
negative none = none
negative (some n) = if has_sign n.sign minus then some (some n) else none

abbrev represent : Sign → Decimal → Representation
represent s a = record { sign = s; absolute_value = a }

-- What the signs of a difference of a and b mean.
pub record Separates (a b : Decimal) (d : Representation) : Type 0 where
  pub above : d.sign ≡ plus → (b < a) × (a ≢ infinity → b + d.absolute_value ≡ a)
  pub below : d.sign ≡ minus → (a < b) × (b ≢ infinity → a + d.absolute_value ≡ b)
  pub level : d.sign ≡ neutral → (a ≡ b) × (d.absolute_value ≡ 0)

abbrev Found : Decimal → Decimal → Type 0
Found a b = (d : Representation) × (between (some a) (some b) ≡ ok (some d)) × Separates a b d

infinite_left : (a b : Decimal) → b ≤ infinity → a ≡ infinity → b ≢ infinity → Found a b
unfolding between
infinite_left a b h e n = (represent plus a, ground arith, ground arith)

infinite_right : (a b : Decimal) → a ≤ infinity → b ≡ infinity → a ≢ infinity → Found a b
unfolding between
infinite_right a b h e n = (represent minus b, ground arith, ground arith)

finite : (a b : Decimal) → a ≢ infinity → b ≢ infinity → Found a b
unfolding between
finite a b na nb = elim (Bool-cases (ltb b a)) [
  | inl h ↦ (represent plus (a - b), ground arith, ground arith)
  | inr h ↦ elim (Bool-cases (ltb a b)) [
    | inl k ↦ (represent minus (b - a), ground arith, ground arith)
    | inr k ↦ (represent neutral 0, ground arith, ground arith)
  ]
]

-- For decimals up to infinity, `between` never throws. Two infinities have no difference. Any other
-- two have one whose sign is `plus` only if the first is larger, `minus` only if the second is, and
-- neutral only if they are equal; added to the smaller one, the absolute value gives the larger one,
-- if that is finite.
pub between-Separates :
    (a b : Decimal)
    → a ≤ infinity
    → b ≤ infinity
    → ((a ≡ infinity) × (b ≡ infinity) × (between (some a) (some b) ≡ ok none))
      ⊎ ((d : Representation) × (between (some a) (some b) ≡ ok (some d)) × Separates a b d)
between-Separates a b ha hb = elim (ℕ_discrete a infinity) [
  | yes ea ↦ elim (ℕ_discrete b infinity) [
    | yes eb ↦ inl (ea, eb, unfold between in ground arith)
    | no nb ↦ inr (infinite_left a b hb ea nb)
  ]
  | no na ↦ elim (ℕ_discrete b infinity) [
    | yes eb ↦ inr (infinite_right a b ha eb na)
    | no nb ↦ inr (finite a b na nb)
  ]
]
