-- ===== src/Decimal/Power.antt =====
-- `Decimal.pow`: what the loop of binary exponentiation computes.
use mathlib.Core.Logic.{dite, ite, if_pos, if_neg}
use mathlib.Core.WellFounded
use mathlib.Core.WellFounded.{Acc, Acc-prop}
use native.Mathlib.Decide.{dec_lt}
use native.Mathlib.Nat.{mul-le-mul, pow-zero}
use liquity.Common.{
  ℕ, zero, suc, ◌*◌, ◌/◌, ◌%◌, ◌^◌, ◌≤◌, ◌<◌, ◌≡◌, ◌∙◌, inl, inr, refl, arith, ◌==◌, if◌then◌else◌,
  ok, err, assertion_failed, Bool-cases,
}
use liquity.Common.Arith.{lt_wf, pow-halves, pow-one}
use liquity.Decimal.{Decimal, digits, one, rounded_mul, half-lt, pow_rounds, pow_loop, pow}

rounded_mul-le : (x y : ℕ) → x ≤ digits → rounded_mul x y ≤ y
unfolding rounded_mul
rounded_mul-le x y h = let p : x * y ≤ digits * y = grind arith in omega arith

rounded_mul_comm : (x y : ℕ) → rounded_mul x y ≡ rounded_mul y x
unfolding rounded_mul
rounded_mul_comm x y = omega arith

rounded_mul_mono : (x x' y y' : ℕ) → x ≤ x' → y ≤ y' → rounded_mul x y ≤ rounded_mul x' y'
unfolding rounded_mul
rounded_mul_mono x x' y y' h k = omega (arith, mul-le-mul h k)

rounded_mul_whole : (a b : ℕ) → rounded_mul (a * digits) (b * digits) ≡ a * b * digits
unfolding rounded_mul
rounded_mul_whole a b = omega arith

pow_rounds_step :
    (e : ℕ) (w : Acc ◌<◌ e) (w' : Acc ◌<◌ (e / 2)) (x y : ℕ)
    → pow_rounds e w x y
      ≡ ite
          (dec_lt 1 e)
          (pow_rounds (e / 2) w' (rounded_mul x x) (if e % 2 == 1 then rounded_mul x y else y))
          (rounded_mul x y)
unfolding pow_rounds
pow_rounds_step e (Acc.intro _ smaller) w' x y = λ i.
    dite (dec_lt 1 e)
      (λ h.
        pow_rounds (e / 2) (Acc-prop (smaller (e / 2) (half-lt e h)) w' i) (rounded_mul x x)
          (if e % 2 == 1 then rounded_mul x y else y))
      (λ _. rounded_mul x y)

-- The loop makes a round as long as the exponent is above 1.
pub pow_loop_step :
    (e x y : ℕ)
    → pow_loop e x y
      ≡ ite
          (dec_lt 1 e)
          (pow_loop (e / 2) (rounded_mul x x) (if e % 2 == 1 then rounded_mul x y else y))
          (rounded_mul x y)
unfolding pow_loop
pow_loop_step e x y = pow_rounds_step e (lt_wf.apply e) (lt_wf.apply (e / 2)) x y

pow_loop_more :
    (e x y : ℕ)
    → 1 < e
    → pow_loop e x y
      ≡ pow_loop (e / 2) (rounded_mul x x) (if e % 2 == 1 then rounded_mul x y else y)
pow_loop_more e x y more = rw (pow_loop_step e x y, if_pos _ more)

pow_loop_last : (e x y : ℕ) → ¬ (1 < e) → pow_loop e x y ≡ rounded_mul x y
pow_loop_last e x y last = rw (pow_loop_step e x y, if_neg _ last)

pow_loop-le : (e x y : ℕ) → x ≤ digits → y ≤ digits → (pow_loop e x y ≤ x) × (pow_loop e x y ≤ y)
pow_loop-le e =
    WellFounded.induction lt_wf
      {C = λ e. (x y : ℕ) → x ≤ digits → y ≤ digits → (pow_loop e x y ≤ x) × (pow_loop e x y ≤ y)} e
      λ e ih x y hx hy. elim (dec_lt 1 e) [
        | yes more ↦ rw (pow_loop_more e _ _ more) (
            ground (
              arith,
              rounded_mul-le x y hx,
              rounded_mul-le x x hx,
              rounded_mul_comm x y,
              rounded_mul-le y x hy,
              ih (e / 2) (half-lt e more) (rounded_mul x x)
                  (if e % 2 == 1 then rounded_mul x y else y),
            ))
        | no last ↦
            rw (pow_loop_last e _ _ last)
              (ground (arith, rounded_mul-le x y, rounded_mul-le y x, rounded_mul_comm x y))
      ]

pow_loop_mono : (e x x' y y' : ℕ) → x ≤ x' → y ≤ y' → pow_loop e x y ≤ pow_loop e x' y'
pow_loop_mono e =
    WellFounded.induction lt_wf
      {C = λ e. (x x' y y' : ℕ) → x ≤ x' → y ≤ y' → pow_loop e x y ≤ pow_loop e x' y'} e
      λ e ih x x' y y' hx hy. elim (dec_lt 1 e) [
        | yes more ↦
            rw (pow_loop_more e x y more, pow_loop_more e x' y' more)
              (ih (e / 2) (half-lt e more) (rounded_mul x x) (rounded_mul x' x')
                (if e % 2 == 1 then rounded_mul x y else y)
                (if e % 2 == 1 then rounded_mul x' y' else y') (rounded_mul_mono x x' x x' hx hx)
                (ground (arith, rounded_mul_mono x x' y y')))
        | no last ↦
            rw (pow_loop_last e x y last, pow_loop_last e x' y' last)
              (rounded_mul_mono x x' y y' hx hy)
      ]

odd_whole :
    (e a b : ℕ)
    → (if e % 2 == 1 then rounded_mul (a * digits) (b * digits) else b * digits)
      ≡ (if e % 2 == 1 then a * b else b) * digits
odd_whole e a b = ground (arith, rounded_mul_whole a b)

regroup :
    (e a b : ℕ)
    → (a * a) ^ (e / 2) * (if e % 2 == 1 then a * b else b) * digits ≡ a ^ e * b * digits
regroup e a b = elim (Bool-cases (e % 2 == 1)) [
  | inl odd ↦ let p = rw odd at (pow-halves a e) in rw (odd, p) (omega arith)
  | inr even ↦ let p = rw even at (pow-halves a e) in rw (even, p) (omega arith)
]

-- On whole numbers the loop is exact.
pow_loop_whole : (e a b : ℕ) → 0 < e → pow_loop e (a * digits) (b * digits) ≡ a ^ e * b * digits
pow_loop_whole e =
    WellFounded.induction lt_wf
      {C = λ e. (a b : ℕ) → 0 < e → pow_loop e (a * digits) (b * digits) ≡ a ^ e * b * digits} e
      λ e ih a b h. elim (dec_lt 1 e) [
        | yes more ↦
            rw (pow_loop_more e _ _ more, rounded_mul_whole a a, odd_whole e a b)
              (ih (e / 2) (half-lt e more) (a * a) (if e % 2 == 1 then a * b else b) (omega arith)
                ∙ regroup e a b)
        | no last ↦
            let e1 : e ≡ 1 = omega arith in
            rw (pow_loop_last e _ _ last, rounded_mul_whole a b, e1, pow-one a) refl
      ]

abbrev pub max_exponent : ℕ
max_exponent = 0xffffffff

-- On a whole number, `pow` is the exact power, for every exponent up to 2 ^ 32 - 1.
pub pow_whole : (k e : ℕ) → e ≤ max_exponent → pow (k * digits) e ≡ ok (k ^ e * digits)
unfolding pow
pow_whole k zero h = rw (pow-zero k) refl
pow_whole k (suc zero) h = rw (pow-one k) refl
pow_whole k (suc (suc e)) h = ground (arith, pow_loop_whole (suc (suc e)) k 1)

-- For a base of at most 1 and an exponent up to 2 ^ 32 - 1, `pow` returns a result that is at most
-- 1, and at most the base if the exponent is not 0.
pub pow-le :
    (a : Decimal) (e : ℕ)
    → a ≤ one
    → e ≤ max_exponent
    → (r : Decimal) × (pow a e ≡ ok r) × (r ≤ one) × (0 < e → r ≤ a)
unfolding pow
pow-le a zero ha he = (one, refl, omega arith, omega arith)
pow-le a (suc zero) ha he = (a, refl, ha, omega arith)
pow-le a (suc (suc e)) ha he =
    let small = pow_loop-le (suc (suc e)) a digits ha (omega arith) in
    (pow_loop (suc (suc e)) a digits, ground arith, small.1, λ _. small.0)

-- `pow` keeps the order of the bases, rounding included: if both powers exist, that of the smaller
-- base is at most that of the larger.
pub pow_mono :
    (a b : Decimal) (e : ℕ) {r s : Decimal} → a ≤ b → pow a e ≡ ok r → pow b e ≡ ok s → r ≤ s
unfolding pow
pow_mono a b e h p q = ground (arith, pow_loop_mono e a b digits digits)

pub pow_zero : (a : Decimal) (e : ℕ) → e ≡ 0 → pow a e ≡ ok one
unfolding pow
pow_zero a e h = ground arith

-- Beyond that range an assertion fails.
pub pow_out_of_range : (a : Decimal) (e : ℕ) → max_exponent < e → pow a e ≡ err assertion_failed
unfolding pow
pow_out_of_range a e h = ground arith
