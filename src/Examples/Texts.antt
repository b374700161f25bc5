-- ===== src/Examples/Texts.antt =====
-- `BigNumber`'s conversions given by a concrete function, and the texts of decimals read and printed with it.
use native.Mathlib.Nat.{pow-suc, le_refl, div-lt_iff_lt-mul}
use liquity.Common.{
  ℕ, zero, suc, ◌+◌, ◌-◌, ◌*◌, ◌/◌, ◌%◌, ◌^◌, ◌≤◌, ◌<◌, ◌≡◌, ◌≢◌, refl, ap, true, false, Option,
  some, none, [], ◌∷◌, ◌++◌, ltb, if◌then◌else◌, arith, inl, inr, Bool-cases, ok, err,
  bad_decimal_format,
}
use liquity.Decimal.Text.{
  Text, length, is_digit, AllDigits, value, BigNumberText, some_digits, match_format,
  match_fraction, match_exponent, includes, split, fit, pad_start, trim_zeros, prefix, big_number,
  from_fraction, from_plain, scale_by, from_string, to_string, to_string_automatic,
  to_string_precise,
}
use liquity.Decimal.Text.RoundTrip.{from_string-to_string}
use liquity.Decimal.Text.Rounded.{from_string-to_string_precise}

length-snoc : (s : Text) (c : ℕ) → length (s ++ c ∷ []) ≡ suc (length s)
length-snoc [] c = refl
length-snoc (d ∷ s) c = ap (λ n. suc n) (length-snoc s c)

value-snoc : (a : ℕ) (s : Text) (c : ℕ) → value a (s ++ c ∷ []) ≡ value a s * 10 + (c - b'0')
value-snoc a [] c = refl
value-snoc a (d ∷ s) c = value-snoc (a * 10 + (d - b'0')) s c

AllDigits-snoc : (s : Text) (c : ℕ) → AllDigits s → is_digit c ≡ true → AllDigits (s ++ c ∷ [])
AllDigits-snoc [] c h hc = (hc, tt)
AllDigits-snoc (d ∷ s) c (hd, hs) hc = (hd, AllDigits-snoc s c hs hc)

digit : ℕ → ℕ
digit n = b'0' + n % 10

-- The decimal digits of n, on as much fuel as n is.
unfoldable digits_of : ℕ → ℕ → Text
digits_of zero n = digit n ∷ []
digits_of (suc f) n =
    let rest = digits_of f (n / 10) in if ltb n 10 then digit n ∷ [] else rest ++ digit n ∷ []

digits_of-zero : (n : ℕ) → digits_of zero n ≡ digit n ∷ []
unfolding digits_of
digits_of-zero n = refl

digits_of-small : (f n : ℕ) → n < 10 → digits_of f n ≡ digit n ∷ []
unfolding digits_of
digits_of-small zero n h = refl
digits_of-small (suc f) n h = ground arith

digits_of-large :
    (f n : ℕ) → ltb n 10 ≡ false → digits_of (suc f) n ≡ digits_of f (n / 10) ++ digit n ∷ []
unfolding digits_of
digits_of-large f n h = ground arith

value-digits_of : (f n : ℕ) → n ≤ f → value 0 (digits_of f n) ≡ n
unfolding digit
value-digits_of zero n h = rw (digits_of-small zero n (omega (arith, h))) (omega (arith, h))
value-digits_of (suc f) n h = elim (Bool-cases (ltb n 10)) [
  | inl small ↦ rw (digits_of-small (suc f) n (ground arith)) (ground arith)
  | inr large ↦
      let rest = value-digits_of f (n / 10) (ground arith) in
      rw (digits_of-large f n large, value-snoc 0 (digits_of f (n / 10)) (digit n), rest)
        (omega arith)
]

digit-is_digit : (n : ℕ) → is_digit (digit n) ≡ true
unfolding digit
digit-is_digit n = ground arith

digits_of-AllDigits : (f n : ℕ) → AllDigits (digits_of f n)
digits_of-AllDigits zero n = rw (digits_of-zero n) (digit-is_digit n, tt)
digits_of-AllDigits (suc f) n = elim (Bool-cases (ltb n 10)) [
  | inl small ↦ rw (digits_of-small (suc f) n (ground arith)) (digit-is_digit n, tt)
  | inr large ↦ rw (digits_of-large f n large) (
      AllDigits-snoc (digits_of f (n / 10)) (digit n) (digits_of-AllDigits f (n / 10))
        (digit-is_digit n))
]

snoc-not-empty : (s : Text) (c : ℕ) → s ++ c ∷ [] ≢ []
snoc-not-empty [] c e = cc
snoc-not-empty (d ∷ s) c e = cc

digits_of-not-empty : (f n : ℕ) → digits_of f n ≢ []
digits_of-not-empty zero n = rw (digits_of-zero n) (snoc-not-empty [] (digit n))
digits_of-not-empty (suc f) n = elim (Bool-cases (ltb n 10)) [
  | inl small ↦ rw (digits_of-small (suc f) n (ground arith)) (snoc-not-empty [] (digit n))
  | inr large ↦ rw (digits_of-large f n large) (snoc-not-empty (digits_of f (n / 10)) (digit n))
]

tenth_lt : (n k : ℕ) → n < 10 ^ suc k → n / 10 < 10 ^ k
tenth_lt n k h =
    (div-lt_iff_lt-mul {k = 10} {x = n} {y = 10 ^ k} (omega arith)).1 (rw (← pow-suc 10 k) h)

length-digits_of : (f n k : ℕ) → n ≤ f → n < 10 ^ suc k → length (digits_of f n) ≤ suc k
length-digits_of zero n k h b = rw (digits_of-small zero n (omega (arith, h))) (omega arith)
length-digits_of (suc f) n zero h b =
    rw (digits_of-small (suc f) n (omega (arith, b))) (omega arith)
length-digits_of (suc f) n (suc k) h b = elim (Bool-cases (ltb n 10)) [
  | inl small ↦ rw (digits_of-small (suc f) n (ground arith)) (omega arith)
  | inr large ↦
      let rest = length-digits_of f (n / 10) k (ground arith) (tenth_lt n (suc k) b) in
      rw (digits_of-large f n large, length-snoc (digits_of f (n / 10)) (digit n))
        (omega (arith, rest))
]

read_digits : Text → Option ℕ
read_digits [] = none
read_digits (c ∷ s) = if some_digits (c ∷ s) then some (value 0 (c ∷ s)) else none

some_digits-AllDigits : (s : Text) → AllDigits s → some_digits s ≡ true
unfolding some_digits
some_digits-AllDigits [] h = refl
some_digits-AllDigits (c ∷ s) (hc, hs) = let p = some_digits-AllDigits s hs in ground arith

read_digits-digits : (s : Text) → s ≢ [] → AllDigits s → read_digits s ≡ some (value 0 s)
unfolding read_digits
read_digits-digits [] n h = absurd (n refl)
read_digits-digits (c ∷ s) n h = rw (some_digits-AllDigits (c ∷ s) h) refl

abbrev decimal_numbers : BigNumberText
decimal_numbers = record {
  parse = read_digits;
  print = λ n. digits_of n n;
  parse-digits = read_digits-digits;
  print-AllDigits = λ n. digits_of-AllDigits n n;
  value-print = λ n. value-digits_of n n (le_refl n);
  print-not-empty = λ n. digits_of-not-empty n n;
  length-print = λ n k h. length-digits_of n n k (le_refl n) h;
}

-- 0.1 is printed as "0.1" and read back.
from_string-to_string_example :
    from_string decimal_numbers (to_string decimal_numbers 100000000000000000 none)
    ≡ ok 100000000000000000
from_string-to_string_example =
    from_string-to_string decimal_numbers 100000000000000000 (λ e. absurd (ground arith))

printed : to_string decimal_numbers 100000000000000000 none ≡ b'0' ∷ b'.' ∷ b'1' ∷ []
unfolding to_string to_string_automatic pad_start trim_zeros digits_of digit
printed = refl

-- 2.995 with two digits is printed as "3.00".
from_string-to_string_precise_example :
    from_string decimal_numbers (to_string decimal_numbers 2995000000000000000 (some 2))
    ≡ ok 3000000000000000000
from_string-to_string_precise_example =
    from_string-to_string_precise decimal_numbers 2995000000000000000 2 (λ e. absurd (ground arith))
      (omega arith)

printed_rounded :
    to_string decimal_numbers 2995000000000000000 (some 2) ≡ b'3' ∷ b'.' ∷ b'0' ∷ b'0' ∷ []
unfolding to_string to_string_precise pad_start prefix digits_of digit
printed_rounded = refl

-- An exponent moves the point, and a text without digits is refused.
scaled :
    from_string decimal_numbers (b'1' ∷ b'.' ∷ b'5' ∷ b'e' ∷ b'2' ∷ []) ≡ ok 150000000000000000000
unfolding read_digits from_string from_plain from_fraction big_number scale_by match_format
    match_fraction match_exponent some_digits includes split fit
scaled = refl

refused : from_string decimal_numbers (b'-' ∷ b'1' ∷ []) ≡ err bad_decimal_format
unfolding from_string match_format
refused = refl
