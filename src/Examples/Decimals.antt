-- ===== src/Examples/Decimals.antt =====
-- An instance of the indexer's decimals: integers of the 18th digit, which are exact.
use liquity.Common.{ℕ, ◌+◌, ◌*◌, ◌/◌, ◌≡◌, ◌↔◌, ap, refl, arith, Bool, true, ◌==◌, ltb}
use liquity.Common.Int.{ℤ, pos, pos_part, neg_part, ◌+ℤ◌, ◌-ℤ◌, +ℤ_comm, +ℤ_assoc, sub_add, add_sub}
use liquity.Subgraph.Decimals.{BigDecimals, IsExact, IsComparable, scaling_factor, decimalize}

abbrev equals_ℤ : ℤ → ℤ → Bool
equals_ℤ a b = pos_part a + neg_part b == pos_part b + neg_part a

abbrev greater_ℤ : ℤ → ℤ → Bool
greater_ℤ a b = ltb (pos_part b + neg_part a) (pos_part a + neg_part b)

abbrev pub integers : BigDecimals
integers = record {
  D = ℤ;
  from_numeral = λ n. pos (n * scaling_factor);
  div_decimal = λ n x. pos (n * (scaling_factor * scaling_factor) / pos_part x);
  plus = ◌+ℤ◌;
  minus = ◌-ℤ◌;
  times = λ x y. pos (pos_part x * pos_part y / scaling_factor);
  div = λ x y. pos (pos_part x * scaling_factor / pos_part y);
  truncate = λ x _. x;
  equals = equals_ℤ;
  greater = greater_ℤ;
}

equals_ℤ_iff : (x y : ℤ) → (equals_ℤ x y ≡ true) ↔ (x ≡ y)
equals_ℤ_iff x y = (λ e. ground arith, λ e. ground arith)

plus_zero_ℤ : (x : ℤ) → x +ℤ pos 0 ≡ x
unfolding ◌+ℤ◌
plus_zero_ℤ x = ground arith

decimal_ℤ : (n : ℕ) → n * (scaling_factor * scaling_factor) / (scaling_factor * scaling_factor) ≡ n
decimal_ℤ n = omega arith

abbrev raw : (n : ℕ) → decimalize integers n ≡ pos n
raw n = ap pos (decimal_ℤ n)

pub integers-IsComparable : IsComparable integers
integers-IsComparable = record {
  equals_iff = equals_ℤ_iff;
  zero_decimal = refl;
  decimal_injective = λ n e. ground (arith, raw n);
  positive = λ n. (λ e. ground (arith, raw n), λ e. ground (arith, raw n));
  zero_least = λ n. ground (arith, raw n);
}

pub integers-IsExact : IsExact integers
integers-IsExact = record {
  comparable = integers-IsComparable;
  plus_comm = +ℤ_comm;
  plus_assoc = +ℤ_assoc;
  minus_plus = sub_add;
  plus_minus = add_sub;
  plus_zero = plus_zero_ℤ;
}
