-- ===== src/Subgraph/Decimals.antt =====
-- packages/subgraph/src/utils: bignumbers.ts and collateralRatio.ts. The numbers of the package
-- graph-ts are a parameter; a `BigInt` that comes with an event is unsigned, and a natural number.
use liquity.Common.{ℕ, ◌≡◌, ◌↔◌, Bool, true, false, Option, none, some, if◌then◌else◌}

-- `BigDecimal`, as far as the indexer calls it; `from_numeral` is `fromString` of a numeral, and
-- `div_decimal` is a function of `BigInt`.
pub record BigDecimals : Type 1 where
  pub D : Type 0
  pub from_numeral : ℕ → D
  pub div_decimal : ℕ → D → D
  pub plus : D → D → D
  pub minus : D → D → D
  pub times : D → D → D
  pub div : D → D → D
  pub truncate : D → ℕ → D
  pub equals : D → D → Bool
  pub greater : D → D → Bool

-- 10 ^ 18
abbrev pub scaling_factor : ℕ
scaling_factor = 1000000000000000000

abbrev pub decimal_precision : ℕ
decimal_precision = 18

abbrev pub collateral_gas_compensation_divisor : ℕ
collateral_gas_compensation_divisor = 200

module _ (b : BigDecimals) where
  open b use {D, from_numeral, div_decimal, plus, minus, times, div, truncate, equals, greater}

  -- `DECIMAL_ZERO`, `DECIMAL_ONE`
  abbrev pub decimal_zero : D
  decimal_zero = from_numeral 0

  abbrev pub decimal_one : D
  decimal_one = from_numeral 1

  abbrev pub decimalize : ℕ → D
  decimalize n = div_decimal n (from_numeral scaling_factor)

  unfoldable pub calculate_collateral_ratio : D → D → D → Option D
  calculate_collateral_ratio collateral debt price =
      if equals debt decimal_zero
      then none
      else some (truncate (div (times collateral price) debt) decimal_precision)

  -- How these numbers compare, and an unsigned number that is made a decimal: it is 0, or it is
  -- positive. Nothing is asked of the arithmetic, so rounding to 34 digits does not matter.
  pub record IsComparable : Type 0 where
    pub equals_iff : (x y : D) → (equals x y ≡ true) ↔ (x ≡ y)
    pub zero_decimal : decimalize 0 ≡ decimal_zero
    pub decimal_injective : (n : ℕ) → decimalize n ≡ decimal_zero → n ≡ 0
    pub positive : (n : ℕ) → (greater (decimalize n) decimal_zero ≡ false) ↔ (n ≡ 0)
    pub zero_least : (n : ℕ) → greater decimal_zero (decimalize n) ≡ false

  -- Exact decimals. The numbers of graph-ts have 34 digits, so of them this holds only as long as no
  -- sum or difference drops a digit.
  pub record IsExact : Type 0 where
    pub comparable : IsComparable
    pub plus_comm : (x y : D) → plus x y ≡ plus y x
    pub plus_assoc : (x y z : D) → plus (plus x y) z ≡ plus x (plus y z)
    pub minus_plus : (x y : D) → plus (minus x y) y ≡ x
    pub plus_minus : (x y : D) → minus (plus x y) y ≡ x
    pub plus_zero : (x : D) → plus x decimal_zero ≡ x
