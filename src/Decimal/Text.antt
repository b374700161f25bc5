-- ===== src/Decimal/Text.antt =====
-- packages/lib-base/src/Decimal.ts: `_fromString` and `toString`. A string is the list of its code
-- units. `BigNumber.from` on a string and `BigNumber.toString` belong to @ethersproject/bignumber,
-- and are a parameter.
pub mod Digits
pub mod RoundTrip
pub mod Rounded
use liquity.Common.{
  ℕ, zero, suc, ◌+◌, ◌-◌, ◌*◌, ◌/◌, ◌%◌, ◌^◌, ◌≤◌, ◌<◌, ◌≡◌, ◌≢◌, Bool, true, false, not, ◌&&◌,
  ◌||◌, Option, none, some, List, [], ◌∷◌, ◌++◌, ltb, leb, ◌==◌, if◌then◌else◌, Result, ok, err,
  ◌>>=◌, ◌>>◌, require, bad_decimal_format, arith,
}
use liquity.Decimal.{Decimal, digits, is_infinite}

abbrev pub Text : Type 0
Text = List ℕ

abbrev pub length : Text → ℕ
length [] = 0
length (c ∷ s) = suc (length s)

-- `"0".repeat(n)`
abbrev pub zeros : ℕ → Text
zeros zero = []
zeros (suc n) = b'0' ∷ zeros n

abbrev pub is_digit : ℕ → Bool
is_digit c = leb b'0' c && leb c b'9'

abbrev pub AllDigits : Text → Type 0
AllDigits [] = Unit
AllDigits (c ∷ s) = (is_digit c ≡ true) × AllDigits s

-- The number that digits spell behind n.
abbrev pub value : ℕ → Text → ℕ
value n [] = n
value n (c ∷ s) = value (n * 10 + (c - b'0')) s

-- The documented conversions of `BigNumber`: from the decimal digits of a number, and to them,
-- without leading zeros.
pub record BigNumberText : Type 0 where
  pub parse : Text → Option ℕ
  pub print : ℕ → Text
  pub parse-digits : (s : Text) → s ≢ [] → AllDigits s → parse s ≡ some (value 0 s)
  pub print-AllDigits : (n : ℕ) → AllDigits (print n)
  pub value-print : (n : ℕ) → value 0 (print n) ≡ n
  pub print-not-empty : (n : ℕ) → print n ≢ []
  pub length-print : (n k : ℕ) → n < 10 ^ suc k → length (print n) ≤ suc k

abbrev pub is_empty : Text → Bool
is_empty [] = true
is_empty (c ∷ s) = false

-- `includes`, for one character
unfoldable pub includes : ℕ → Text → Bool
includes c [] = false
includes c (d ∷ s) = d == c || includes c s

-- `split`, for a character that occurs once: what is before it and what is behind it.
unfoldable pub split : ℕ → Text → Text × Text
split c [] = ([], [])
split c (d ∷ s) = let (front, back) = split c s in if d == c then ([], s) else (d ∷ front, back)

-- `stringRepresentationFormat`: digits, perhaps a point and digits, perhaps an exponent.
unfoldable pub some_digits : Text → Bool
some_digits [] = true
some_digits (c ∷ s) = is_digit c && some_digits s

abbrev match_exponent_digits : Text → Bool
match_exponent_digits [] = false
match_exponent_digits (c ∷ s) = is_digit c && some_digits s

unfoldable pub match_exponent : Text → Bool
unfolding some_digits
match_exponent [] = false
match_exponent (c ∷ s) =
    if c == b'-' || c == b'+' then match_exponent_digits s else match_exponent_digits (c ∷ s)

unfoldable pub match_fraction : Text → Bool
unfolding match_exponent
match_fraction [] = true
match_fraction (c ∷ s) =
    let rest = match_fraction s in
    if is_digit c then rest else if c == b'e' then match_exponent s else false

unfoldable pub match_format : Text → Bool
unfolding match_fraction
match_format [] = true
match_format (c ∷ s) =
    let rest = match_format s in
    if is_digit c
    then rest
    else if c == b'.'
    then match_fraction s
    else if c == b'e'
    then match_exponent s
    else false

-- `mantissa += "0".repeat(PRECISION - mantissa.length)` or `mantissa.substr(0, PRECISION)`: the first
-- n characters, with zeros for missing ones.
unfoldable pub fit : ℕ → Text → Text
fit zero s = []
fit (suc n) [] = b'0' ∷ fit n []
fit (suc n) (c ∷ s) = c ∷ fit n s

-- `padStart(n, "0")`
unfoldable pub pad_start : ℕ → Text → Text
pad_start n s = zeros (n - length s) ++ s

-- `replace(/0*$/, "")`
unfoldable pub trim_zeros : Text → Text
trim_zeros [] = []
trim_zeros (c ∷ s) = let rest = trim_zeros s in if c == b'0' && is_empty rest then [] else c ∷ rest

-- `substr(0, n)`
unfoldable pub prefix : ℕ → Text → Text
prefix zero s = []
prefix (suc n) [] = []
prefix (suc n) (c ∷ s) = c ∷ prefix n s

abbrev pub or_throw : Option ℕ → Result ℕ
or_throw none = err bad_decimal_format
or_throw (some n) = ok n

module _ (big : BigNumberText) where
  open big use {parse, print}

  -- A string that `BigNumber` cannot read makes it throw.
  unfoldable pub big_number : Text → Result ℕ
  big_number s = or_throw (parse s)

  -- `characteristic || 0`
  abbrev pub characteristic_of : Text → Result ℕ
  characteristic_of [] = ok 0
  characteristic_of (c ∷ s) = big_number (c ∷ s)

  unfoldable pub from_fraction : Text → Text → Result Decimal
  unfolding fit
  from_fraction characteristic mantissa = do
    c ← characteristic_of characteristic
    m ← big_number (fit 18 mantissa)
    ok (c * digits + m)

  unfoldable pub from_whole : Text → Result Decimal
  from_whole s = big_number s >>= λ n. ok (n * digits)

  -- `_fromString`, for a string without an exponent
  unfoldable pub from_plain : Text → Result Decimal
  unfolding match_format includes split from_fraction from_whole big_number
  from_plain s = do
    require (not (is_empty s) && match_format s) bad_decimal_format
    if includes b'.' s then from_fraction (split b'.' s).0 (split b'.' s).1 else from_whole s

  unfoldable pub scale_by : Decimal → Text → Result Decimal
  scale_by coefficient [] = big_number [] >>= λ e. ok (coefficient * 10 ^ e)
  scale_by coefficient (c ∷ s) =
      if c == b'-'
      then (big_number s >>= λ e. ok (coefficient / 10 ^ e))
      else if c == b'+'
      then (big_number s >>= λ e. ok (coefficient * 10 ^ e))
      else (big_number (c ∷ s) >>= λ e. ok (coefficient * 10 ^ e))

  -- `_fromString`
  unfoldable pub from_string : Text → Result Decimal
  unfolding from_plain scale_by match_format includes split
  from_string s = do
    require (not (is_empty s) && match_format s) bad_decimal_format
    if includes b'e' s
        then (from_plain (split b'e' s).0 >>= λ n. scale_by n (split b'e' s).1)
        else from_plain s

  -- `_toStringWithAutomaticPrecision`
  unfoldable pub to_string_automatic : Decimal → Text
  unfolding pad_start trim_zeros
  to_string_automatic n =
      if n % digits == 0
      then print (n / digits)
      else print (n / digits) ++ b'.' ∷ trim_zeros (pad_start 18 (print (n % digits)))

  -- `_roundUp`, where precision < 18
  abbrev pub round_up : Decimal → ℕ → ℕ
  round_up n precision = n + 5 * 10 ^ (17 - precision)

  -- `_toStringWithPrecision`, for a precision that is not negative
  unfoldable pub to_string_precise : Decimal → ℕ → Text
  unfolding pad_start prefix
  to_string_precise n precision =
      let v = if ltb precision 18 then round_up n precision else n in
      if precision == 0
      then print (v / digits)
      else print (v / digits) ++ b'.' ∷ prefix precision (pad_start 18 (print (v % digits)))

  -- `toString`; 8734 is "∞"
  unfoldable pub to_string : Decimal → Option ℕ → Text
  unfolding to_string_automatic to_string_precise
  to_string n precision =
      if is_infinite n
      then 8734 ∷ []
      else elim precision [ none ↦ to_string_automatic n | some p ↦ to_string_precise n p ]
