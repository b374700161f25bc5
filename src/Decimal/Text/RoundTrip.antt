-- ===== src/Decimal/Text/RoundTrip.antt =====
-- `_fromString` reads back what `toString` prints.
use liquity.Common.{
  ℕ, zero, suc, ◌+◌, ◌*◌, ◌/◌, ◌%◌, ◌<◌, ◌≡◌, ◌≢◌, ◌∙◌, refl, ap, sym, false, none, [], ◌∷◌, ◌++◌,
  ◌==◌, arith, Bool-cases, inl, inr, ok,
}
use liquity.Decimal.{Decimal, digits, infinity}
use liquity.Decimal.Text.{
  Text, length, AllDigits, value, BigNumberText, is_empty, includes, fit, pad_start, trim_zeros,
  or_throw, big_number, characteristic_of, from_fraction, from_whole, from_string,
  to_string_automatic, to_string,
}
use liquity.Decimal.Text.Digits.{
  includes-digits, includes-middle, split-middle, match_format-digits, match_format-point,
  fit-trim_zeros, trim_zeros-AllDigits, pad_start-AllDigits, length-pad_start, value-pad_start,
}

is_empty-false : (s : Text) → s ≢ [] → is_empty s ≡ false
is_empty-false [] n = absurd (n refl)
is_empty-false (c ∷ s) n = refl

fit-AllDigits : (n : ℕ) (s : Text) → AllDigits s → AllDigits (fit n s)
unfolding fit
fit-AllDigits zero s h = tt
fit-AllDigits (suc n) [] h = (refl, fit-AllDigits n [] tt)
fit-AllDigits (suc n) (c ∷ s) (hc, hs) = (hc, fit-AllDigits n s hs)

fit-not-empty : (n : ℕ) (s : Text) → fit (suc n) s ≢ []
unfolding fit
fit-not-empty n [] e = cc
fit-not-empty n (c ∷ s) e = cc

includes-point : (s t : Text) → AllDigits s → AllDigits t → includes b'e' (s ++ b'.' ∷ t) ≡ false
unfolding includes
includes-point [] t hs ht = includes-digits b'e' t refl ht
includes-point (c ∷ s) t (hc, hs) ht = let p = includes-point s t hs ht in ground arith

point-not-empty : (s t : Text) → is_empty (s ++ b'.' ∷ t) ≡ false
point-not-empty [] t = refl
point-not-empty (c ∷ s) t = refl

module _ (big : BigNumberText) where
  open big use {print, parse-digits, print-AllDigits, value-print, print-not-empty, length-print}

  big_number-digits : (s : Text) → s ≢ [] → AllDigits s → big_number big s ≡ ok (value 0 s)
  unfolding big_number
  big_number-digits s n h = ap or_throw (parse-digits s n h)

  characteristic_of-digits :
      (s : Text) → s ≢ [] → AllDigits s → characteristic_of big s ≡ ok (value 0 s)
  characteristic_of-digits [] n h = absurd (n refl)
  characteristic_of-digits (c ∷ s) n h = big_number-digits (c ∷ s) n h

  -- A text of digits is read as their number.
  pub from_string-digits :
      (s : Text) → s ≢ [] → AllDigits s → from_string big s ≡ ok (value 0 s * digits)
  unfolding from_string
  from_string-digits s n h =
      rw
        (
          is_empty-false s n,
          match_format-digits s h,
          includes-digits b'e' s refl h,
          includes-digits b'.' s refl h,
          from_whole,
          big_number-digits s n h,
        )
        refl

  -- So is one with a point and digits behind it, of which the first 18 count.
  pub from_string-point :
      (s t : Text)
      → s ≢ []
      → AllDigits s
      → AllDigits t
      → from_string big (s ++ b'.' ∷ t) ≡ ok (value 0 s * digits + value 0 (fit 18 t))
  unfolding from_string from_fraction
  from_string-point s t n hs ht =
      rw
        (
          point-not-empty s t,
          match_format-point s t hs ht,
          includes-point s t hs ht,
          includes-middle b'.' s t,
          split-middle b'.' s t refl hs,
          characteristic_of-digits s n hs,
          big_number-digits (fit 18 t) (fit-not-empty 17 t) (fit-AllDigits 18 t ht),
        )
        refl

  -- The 18 digits of the fraction.
  unfoldable pub padded : ℕ → Text
  unfolding pad_start
  padded m = pad_start 18 (print m)

  pub padded-AllDigits : (m : ℕ) → AllDigits (padded m)
  unfolding padded
  padded-AllDigits m = pad_start-AllDigits 18 (print m) (print-AllDigits m)

  pub length-padded : (m : ℕ) → m < digits → length (padded m) ≡ 18
  unfolding padded
  length-padded m h = length-pad_start 18 (print m) (length-print m 17 h)

  pub value-padded : (m : ℕ) → value 0 (padded m) ≡ m
  unfolding padded
  value-padded m = value-pad_start 18 (print m) ∙ value-print m

  fit-trimmed : (m : ℕ) → m < digits → fit 18 (trim_zeros (padded m)) ≡ padded m
  fit-trimmed m h =
      ap (λ n. fit n (trim_zeros (padded m))) (sym (length-padded m h)) ∙ fit-trim_zeros (padded m)

  from_string-automatic : (n : Decimal) → from_string big (to_string_automatic big n) ≡ ok n
  unfolding to_string_automatic padded
  from_string-automatic n = elim (Bool-cases (n % digits == 0)) [
    | inl whole ↦
        rw
          (
            whole,
            from_string-digits (print (n / digits)) (print-not-empty (n / digits))
                (print-AllDigits (n / digits)),
            value-print (n / digits),
          )
          (ap (λ k. ok k) (ground arith))
    | inr fraction ↦
        let m = n % digits in
        rw
          (
            fraction,
            from_string-point (print (n / digits)) (trim_zeros (padded m))
                (print-not-empty (n / digits)) (print-AllDigits (n / digits))
                (trim_zeros-AllDigits (padded m) (padded-AllDigits m)),
            value-print (n / digits),
            fit-trimmed m (omega arith),
            value-padded m,
          )
          (ap (λ k. ok k) (omega arith))
  ]

  -- Every finite decimal is read back from the text that `toString` prints for it without a
  -- precision.
  pub from_string-to_string :
      (n : Decimal) → n ≢ infinity → from_string big (to_string big n none) ≡ ok n
  unfolding to_string
  from_string-to_string n finite = ground (arith, from_string-automatic n)
