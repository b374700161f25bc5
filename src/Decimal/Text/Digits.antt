-- ===== src/Decimal/Text/Digits.antt =====
-- Texts of digits: their value, padded, trimmed and cut, and how they are matched and split.
use liquity.Common.{
  ℕ, zero, suc, ◌+◌, ◌-◌, ◌*◌, ◌≤◌, ◌≡◌, ◌∙◌, refl, ap, sym, true, false, ◌&&◌, [], ◌∷◌, ◌++◌, ◌==◌,
  arith, Bool-cases, inl, inr,
}
use liquity.Decimal.Text.{
  Text, length, zeros, is_digit, AllDigits, value, is_empty, includes, split, match_fraction,
  match_format, fit, pad_start, trim_zeros,
}

pub AllDigits-++ : (s t : Text) → AllDigits s → AllDigits t → AllDigits (s ++ t)
AllDigits-++ [] t hs ht = ht
AllDigits-++ (c ∷ s) t (hc, hs) ht = (hc, AllDigits-++ s t hs ht)

pub zeros-AllDigits : (n : ℕ) → AllDigits (zeros n)
zeros-AllDigits zero = tt
zeros-AllDigits (suc n) = (refl, zeros-AllDigits n)

pub pad_start-AllDigits : (n : ℕ) (s : Text) → AllDigits s → AllDigits (pad_start n s)
unfolding pad_start
pad_start-AllDigits n s h = AllDigits-++ (zeros (n - length s)) s (zeros-AllDigits (n - length s)) h

pub length-++ : (s t : Text) → length (s ++ t) ≡ length s + length t
length-++ [] t = omega arith
length-++ (c ∷ s) t = omega (arith, length-++ s t)

pub length-zeros : (n : ℕ) → length (zeros n) ≡ n
length-zeros zero = refl
length-zeros (suc n) = ap (λ k. suc k) (length-zeros n)

-- A text that is not longer than n has length n when it is padded.
pub length-pad_start : (n : ℕ) (s : Text) → length s ≤ n → length (pad_start n s) ≡ n
unfolding pad_start
length-pad_start n s h =
    omega (arith, length-++ (zeros (n - length s)) s, length-zeros (n - length s))

pub value-++ : (n : ℕ) (s t : Text) → value n (s ++ t) ≡ value (value n s) t
value-++ n [] t = refl
value-++ n (c ∷ s) t = value-++ (n * 10 + (c - b'0')) s t

value-zeros_zero : (k : ℕ) → value 0 (zeros k) ≡ 0
value-zeros_zero zero = refl
value-zeros_zero (suc k) = value-zeros_zero k

pub value-pad_start : (n : ℕ) (s : Text) → value 0 (pad_start n s) ≡ value 0 s
unfolding pad_start
value-pad_start n s =
    value-++ 0 (zeros (n - length s)) s ∙ ap (λ k. value k s) (value-zeros_zero (n - length s))

is_empty-nil : (s : Text) → is_empty s ≡ true → s ≡ []
is_empty-nil [] e = refl
is_empty-nil (c ∷ s) e = cc

zero-and-empty : (c : ℕ) (s : Text) → (c == b'0' && is_empty s) ≡ true → (c ≡ b'0') × (s ≡ [])
zero-and-empty c s e = ground (arith, is_empty-nil s)

-- What has been trimmed is restored by fitting.
pub fit-trim_zeros : (s : Text) → fit (length s) (trim_zeros s) ≡ s
unfolding trim_zeros fit
fit-trim_zeros [] = refl
fit-trim_zeros (c ∷ s) =
    let ih = fit-trim_zeros s in
    elim (Bool-cases (c == b'0' && is_empty (trim_zeros s))) [
      | inl e ↦
          let (zero_char, empty) = zero-and-empty c (trim_zeros s) e in
          rw e (
            ap (λ t. b'0' ∷ fit (length s) t) (sym empty)
            ∙ ap (λ t. b'0' ∷ t) ih
            ∙ ap (λ d. d ∷ s) (sym zero_char))
      | inr e ↦ rw e (ap (λ t. c ∷ t) ih)
    ]

pub trim_zeros-AllDigits : (s : Text) → AllDigits s → AllDigits (trim_zeros s)
unfolding trim_zeros
trim_zeros-AllDigits [] h = tt
trim_zeros-AllDigits (c ∷ s) (hc, hs) = let p = trim_zeros-AllDigits s hs in ground arith

-- Digits are no other characters.
pub includes-digits : (c : ℕ) (s : Text) → is_digit c ≡ false → AllDigits s → includes c s ≡ false
unfolding includes
includes-digits c [] n h = refl
includes-digits c (d ∷ s) n (hd, hs) = let p = includes-digits c s n hs in ground arith

pub includes-middle : (c : ℕ) (s t : Text) → includes c (s ++ c ∷ t) ≡ true
unfolding includes
includes-middle c [] t = ground arith
includes-middle c (d ∷ s) t = let p = includes-middle c s t in ground arith

pub split-middle :
    (c : ℕ) (s t : Text) → is_digit c ≡ false → AllDigits s → split c (s ++ c ∷ t) ≡ (s, t)
unfolding split
split-middle c [] t n h = ground arith
split-middle c (d ∷ s) t n (hd, hs) =
    let p = split-middle c s t n hs in let q : (d == c) ≡ false = ground arith in rw (q, p) refl

pub match_fraction-digits : (s : Text) → AllDigits s → match_fraction s ≡ true
unfolding match_fraction
match_fraction-digits [] h = refl
match_fraction-digits (c ∷ s) (hc, hs) = let p = match_fraction-digits s hs in ground arith

pub match_format-digits : (s : Text) → AllDigits s → match_format s ≡ true
unfolding match_format
match_format-digits [] h = refl
match_format-digits (c ∷ s) (hc, hs) = let p = match_format-digits s hs in ground arith

pub match_format-point :
    (s t : Text) → AllDigits s → AllDigits t → match_format (s ++ b'.' ∷ t) ≡ true
unfolding match_format
match_format-point [] t hs ht = ground (arith, match_fraction-digits t ht)
match_format-point (c ∷ s) t (hc, hs) ht = let p = match_format-point s t hs ht in ground arith
