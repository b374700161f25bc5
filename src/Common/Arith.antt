-- ===== src/Common/Arith.antt =====
-- Powers and halving of the native numbers, for the loops of the other modules.
use Prim.Native.Nat.{ℕ, zero, suc, ◌+◌, ◌*◌, ◌/◌, ◌%◌, ◌^◌, ◌≤◌, ◌<◌}
use mathlib.Core.Path.{◌≡◌, sym, ap, ◌∙◌}
use mathlib.Core.Logic.{inl, inr}
use mathlib.Core.WellFounded.{Acc, WellFounded}
use native.Mathlib.Nat.{pow-suc, pow-zero, le-div_iff_mul-le, div-mul-le_self}
use native.Mathlib.Omega.{arith}
use liquity.Common.Tests.{◌==◌, if◌then◌else◌, Bool-cases}

Acc-below : (k n : ℕ) → n < k → Acc ◌<◌ n
Acc-below zero n h = elim h [ ]
Acc-below (suc k) n h = Acc.intro n (λ m hm. Acc-below k m (omega arith))

unfoldable pub lt_wf : WellFounded ◌<◌
unfolding Acc-below
lt_wf = record { apply = λ n. Acc-below (suc n) n (omega arith) }

-- A quotient keeps the order of the dividends.
pub div_mono : (a b c : ℕ) → 0 < c → a ≤ b → a / c ≤ b / c
div_mono a b c h k = (le-div_iff_mul-le h).1 (omega (arith, div-mul-le_self a c))

-- A power at an even exponent is a power of the square.
pub pow-double : (a k : ℕ) → a ^ (k + k) ≡ (a * a) ^ k
pow-double a zero = pow-zero a ∙ sym (pow-zero (a * a))
pow-double a (suc k) =
    let e : suc k + suc k ≡ suc (suc (k + k)) = omega arith in
    rw (e, pow-suc a (suc (k + k)), pow-suc a (k + k), pow-suc (a * a) k, pow-double a k)
      (omega arith)

-- One round of binary exponentiation.
pub pow-halves : (a e : ℕ) → a ^ e ≡ (a * a) ^ (e / 2) * (if e % 2 == 1 then a else 1)
pow-halves a e =
    let h = e / 2 in
    elim (Bool-cases (e % 2 == 1)) [
      | inl odd ↦
          let shape : e ≡ suc (h + h) = ground arith in
          rw odd (ap (λ k. a ^ k) shape ∙ pow-suc a (h + h) ∙ ap (λ k. k * a) (pow-double a h))
      | inr even ↦
          let shape : e ≡ h + h = ground arith in
          rw even (ap (λ k. a ^ k) shape ∙ pow-double a h ∙ omega arith)
    ]

pub pow-one : (a : ℕ) → a ^ 1 ≡ a
pow-one a = pow-suc a 0 ∙ ap (λ k. k * a) (pow-zero a) ∙ omega arith
