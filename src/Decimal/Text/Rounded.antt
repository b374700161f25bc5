-- ===== src/Decimal/Text/Rounded.antt =====
-- `toString` with a precision: it prints the nearest number of so many digits.
use native.Mathlib.Nat.{
  pow-suc, pow-zero, mul-le-mul, le_refl, div-lt_iff_lt-mul, le-div_iff_mul-le, mul-add-div_right,
}
use mathlib.Core.Path.{subst}
use liquity.Common.{
  ℕ, zero, suc, ◌+◌, ◌-◌, ◌*◌, ◌/◌, ◌%◌, ◌^◌, ◌≤◌, ◌<◌, ◌≡◌, ◌≢◌, ◌∙◌, refl, ap, sym, true, some,
  [], ◌∷◌, ◌++◌, arith, ok,
}
use liquity.Decimal.{Decimal, digits, infinity}
use liquity.Decimal.Text.{
  Text, length, zeros, is_digit, AllDigits, value, BigNumberText, fit, prefix, from_string,
  to_string_precise, to_string,
}
use liquity.Decimal.Text.RoundTrip.{
  from_string-digits, from_string-point, padded, padded-AllDigits, length-padded, value-padded,
}

digit_le : (c : ℕ) → is_digit c ≡ true → c - b'0' ≤ 9
digit_le c h = ground arith

sub_both : (n p : ℕ) → suc n - suc p ≡ n - p
sub_both n p = omega arith

-- The value of digits behind a number a keeps a in front.
value-front :
    (a : ℕ) (s : Text)
    → AllDigits s
    → (a * 10 ^ length s ≤ value a s) × (value a s < (a + 1) * 10 ^ length s)
value-front a [] h = rw (pow-zero 10) (omega arith)
value-front a (c ∷ s) (hc, hs) =
    let d : c - b'0' ≤ 9 = digit_le c hc in
    let up : a * 10 + (c - b'0') + 1 ≤ (a + 1) * 10 = omega arith in
    let p = value-front (a * 10 + (c - b'0')) s hs in
    rw (pow-suc 10 (length s))
      (omega (arith, p.0), omega (arith, p.1, mul-le-mul up (le_refl (10 ^ length s))))

value-zeros : (a n : ℕ) → value a (zeros n) ≡ a * 10 ^ n
value-zeros a zero = rw (pow-zero 10) (omega arith)
value-zeros a (suc n) = rw (pow-suc 10 n) (omega (arith, value-zeros (a * 10 + 0) n))

fit-nil : (n : ℕ) → fit n [] ≡ zeros n
unfolding fit
fit-nil zero = refl
fit-nil (suc n) = ap (λ t. b'0' ∷ t) (fit-nil n)

pow10-pos : (k : ℕ) → 0 < 10 ^ k
pow10-pos zero = rw (pow-zero 10) (omega arith)
pow10-pos (suc k) = rw (pow-suc 10 k) (omega (arith, pow10-pos k))

quotient_of : (a v u : ℕ) → 0 < u → a * u ≤ v → v < (a + 1) * u → v / u ≡ a
quotient_of a v u h low high =
    let q = (div-lt_iff_lt-mul {k = u} {x = v} {y = a + 1} h).1 high in
    let r = (le-div_iff_mul-le {k = u} {x = a} {y = v} h).1 low in omega (arith, q, r)

sub_zero : (n : ℕ) → n - 0 ≡ n
sub_zero n = omega arith

prefix-zero : (s : Text) → prefix 0 s ≡ []
unfolding prefix
prefix-zero [] = refl
prefix-zero (c ∷ s) = refl

value-zeros_front :
    (a : ℕ) (s : Text)
    → AllDigits s
    → value a (zeros (length s)) ≡ value a s / 10 ^ length s * 10 ^ length s
value-zeros_front a s h =
    let p = value-front a s h in
    rw (quotient_of a (value a s) (10 ^ length s) (pow10-pos (length s)) p.0 p.1)
      (value-zeros a (length s))

-- Cutting digits off and fitting what is left keeps the value, rounded down.
value-fit-prefix :
    (a p : ℕ) (s : Text)
    → AllDigits s
    → p ≤ length s
    → value a (fit (length s) (prefix p s)) ≡ value a s / 10 ^ (length s - p) * 10 ^ (length s - p)
unfolding fit prefix
value-fit-prefix a zero s h le =
    rw (prefix-zero s, fit-nil (length s), sub_zero (length s)) (value-zeros_front a s h)
value-fit-prefix a (suc p) [] h le = absurd (omega (arith, le))
value-fit-prefix a (suc p) (c ∷ s) (hc, hs) le =
    rw (sub_both (length s) p) (value-fit-prefix (a * 10 + (c - b'0')) p s hs (omega (arith, le)))

prefix-AllDigits : (p : ℕ) (s : Text) → AllDigits s → AllDigits (prefix p s)
unfolding prefix
prefix-AllDigits zero [] h = tt
prefix-AllDigits zero (c ∷ s) h = tt
prefix-AllDigits (suc p) [] h = tt
prefix-AllDigits (suc p) (c ∷ s) (hc, hs) = (hc, prefix-AllDigits p s hs)

zero_plus : (n : ℕ) → 0 + n ≡ n
zero_plus n = omega arith

suc_plus : (p k : ℕ) → suc p + k ≡ suc (p + k)
suc_plus p k = omega arith

swap_out : (a b c : ℕ) → b * c * a ≡ b * a * c
swap_out a b c = grind arith

pow-split : (p k : ℕ) → 10 ^ (p + k) ≡ 10 ^ p * 10 ^ k
pow-split zero k = rw (pow-zero 10, zero_plus k) (omega arith)
pow-split (suc p) k =
    rw (suc_plus p k, pow-suc 10 (p + k), pow-suc 10 p, pow-split p k)
      (swap_out 10 (10 ^ p) (10 ^ k))

split_whole : (p : ℕ) → p ≤ 18 → digits ≡ 10 ^ p * 10 ^ (18 - p)
split_whole p h =
    let e : 18 ≡ p + (18 - p) = omega (arith, h) in ap (λ k. 10 ^ k) e ∙ pow-split p (18 - p)

-- Rounding down to a multiple of the unit keeps the whole part and rounds the fraction.
regroup : (a b c : ℕ) → a * (b * c) ≡ a * b * c
regroup a b c = grind arith

spread : (a b t u : ℕ) → (a * t + b) * u ≡ a * (t * u) + b * u
spread a b t u = grind arith

round_down_of : (q t u m : ℕ) → 0 < u → (q * (t * u) + m) / u * u ≡ q * (t * u) + m / u * u
round_down_of q t u m pos =
    let e : (q * t * u + m) / u ≡ q * t + m / u = mul-add-div_right pos (q * t) m in
    ap (λ k. (k + m) / u * u) (regroup q t u) ∙ ap (λ k. k * u) e ∙ spread q (m / u) t u

whole_rest : (v : ℕ) → v ≡ v / digits * digits + v % digits
whole_rest v = omega arith

round_down :
    (v t u : ℕ) → 0 < u → digits ≡ t * u → v / u * u ≡ v / digits * digits + v % digits / u * u
round_down v t u pos e =
    let whole : v ≡ v / digits * (t * u) + v % digits =
      whole_rest v ∙ ap (λ k. v / digits * k + v % digits) e in
    ap (λ k. k / u * u) whole
    ∙ round_down_of (v / digits) t u (v % digits) pos
    ∙ ap (λ d. v / digits * d + v % digits / u * u) (sym e)

cut_to :
    (k p : ℕ) (s : Text)
    → AllDigits s
    → length s ≡ k
    → p ≤ k
    → value 0 (fit k (prefix p s)) ≡ value 0 s / 10 ^ (k - p) * 10 ^ (k - p)
cut_to k p s h e le =
    subst (λ k. p ≤ k → value 0 (fit k (prefix p s)) ≡ value 0 s / 10 ^ (k - p) * 10 ^ (k - p)) e
      (value-fit-prefix 0 p s h) le

module _ (big : BigNumberText) where
  open big use {print, parse-digits, print-AllDigits, value-print, print-not-empty, length-print}

  fit-cut :
      (p m : ℕ)
      → p ≤ 18
      → m < digits
      → value 0 (fit 18 (prefix p (padded big m))) ≡ m / 10 ^ (18 - p) * 10 ^ (18 - p)
  fit-cut p m h small =
      cut_to 18 p (padded big m) (padded-AllDigits big m) (length-padded big m small) h
      ∙ ap (λ v. v / 10 ^ (18 - p) * 10 ^ (18 - p)) (value-padded big m)

  read_point :
      (v p : ℕ)
      → p ≤ 18
      → from_string big (print (v / digits) ++ b'.' ∷ prefix p (padded big (v % digits)))
        ≡ ok (v / 10 ^ (18 - p) * 10 ^ (18 - p))
  read_point v p h =
      rw
        (
          from_string-point big (print (v / digits)) (prefix p (padded big (v % digits)))
              (print-not-empty (v / digits)) (print-AllDigits (v / digits))
              (prefix-AllDigits p (padded big (v % digits)) (padded-AllDigits big (v % digits))),
          value-print (v / digits),
          fit-cut p (v % digits) h (omega arith),
        )
        (ap (λ k. ok k)
          (sym (round_down v (10 ^ p) (10 ^ (18 - p)) (pow10-pos (18 - p)) (split_whole p h))))

  read_whole : (v : ℕ) → from_string big (print (v / digits)) ≡ ok (v / digits * digits)
  read_whole v =
      from_string-digits big (print (v / digits)) (print-not-empty (v / digits))
        (print-AllDigits (v / digits))
      ∙ ap (λ k. ok (k * digits)) (value-print (v / digits))

  -- For a precision below 18, a finite decimal that is printed with that precision is read back as
  -- the nearest multiple of the last digit that is printed: a half of it is added, and the sum is
  -- rounded down.
  pub from_string-to_string_precise :
      (n : Decimal) (p : ℕ)
      → n ≢ infinity
      → p < 18
      → from_string big (to_string big n (some p))
        ≡ ok ((n + 5 * 10 ^ (17 - p)) / 10 ^ (18 - p) * 10 ^ (18 - p))
  unfolding to_string to_string_precise padded
  from_string-to_string_precise n zero finite h = ground (arith, read_whole (n + 5 * 10 ^ 17))
  from_string-to_string_precise n (suc p) finite h =
      ground (arith, read_point (n + 5 * 10 ^ (17 - suc p)) (suc p) (omega (arith, h)))
