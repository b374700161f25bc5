-- ===== src/Transactions/Trials.antt =====
-- `generateTrials` and the number of trials.
use mathlib.Core.Path.{subst}
use liquity.Common.{
  ℕ, zero, suc, ◌+◌, ◌-◌, ◌*◌, ◌≤◌, ◌<◌, ◌≡◌, refl, arith, true, false, Bool-cases, inl, inr, ◌⊎◌,
  leb, List, [], ◌∷◌, ◌==◌, ok,
}
use liquity.Transactions.{
  max_number_of_trials_at_once, trials_now, trials, generate_trials, root_up,
  total_number_of_trials,
}

abbrev pub sum : List ℕ → ℕ
sum [] = 0
sum (n ∷ ns) = n + sum ns

-- Each call makes some trials, and not too many.
abbrev pub AreModest : List ℕ → Type 0
AreModest [] = Unit
AreModest (n ∷ ns) = (0 < n) × (n ≤ max_number_of_trials_at_once) × AreModest ns

trials_now_bounds :
    (total : ℕ)
    → total == 0 ≡ false
    → (0 < trials_now total)
      × (trials_now total ≤ max_number_of_trials_at_once)
      × (trials_now total ≤ total)
trials_now_bounds total h = ground arith

trials-zero : (total : ℕ) → trials zero total ≡ []
unfolding trials
trials-zero total = refl

trials-stop : (fuel total : ℕ) → total == 0 ≡ true → trials (suc fuel) total ≡ []
unfolding trials
trials-stop fuel total h = ground arith

trials-step :
    (fuel total : ℕ)
    → total == 0 ≡ false
    → trials (suc fuel) total ≡ trials_now total ∷ trials fuel (total - trials_now total)
unfolding trials
trials-step fuel total h = ground arith

trials-sum :
    (fuel total : ℕ)
    → total ≤ fuel
    → (sum (trials fuel total) ≡ total) × AreModest (trials fuel total)
trials-sum zero total h = rw (trials-zero total) (omega (arith, h), tt)
trials-sum (suc fuel) total h = elim (Bool-cases (total == 0)) [
  | inl done ↦ rw (trials-stop fuel total done) (ground arith, tt)
  | inr more ↦
      let (pos, most, within) = trials_now_bounds total more in
      let ih = trials-sum fuel (total - trials_now total) (omega (arith, h, pos, within)) in
      rw (trials-step fuel total more) (omega (arith, ih.0, within), (pos, most, ih.1))
]

-- The batches of trials, for a number of trials that is not 0, are all made: each has at least one
-- and at most 2500 trials, and together they have that number.
pub generate_trials-AreModest :
    (total : ℕ)
    → 0 < total
    → (ts : List ℕ) × (generate_trials total ≡ ok ts) × (sum ts ≡ total) × AreModest ts
unfolding generate_trials
generate_trials-AreModest total h =
    let p = trials-sum total total (omega arith) in (trials total total, ground arith, p.0, p.1)

grows : (m : ℕ) → m ≤ (0 + m) * (0 + m)
grows zero = omega arith
grows (suc m) = grind arith

root_up-first :
    (fuel k m : ℕ)
    → m ≤ (k + fuel) * (k + fuel)
    → (k ≡ 0) ⊎ ((k - 1) * (k - 1) < m)
    → (m ≤ root_up fuel k m * root_up fuel k m)
      × ((root_up fuel k m ≡ 0) ⊎ ((root_up fuel k m - 1) * (root_up fuel k m - 1) < m))
unfolding root_up
root_up-first zero k m h low = let e : k + 0 ≡ k = omega arith in (subst (λ n. m ≤ n * n) e h, low)
root_up-first (suc fuel) k m h low = elim (Bool-cases (leb m (k * k))) [
  | inl reached ↦ rw reached (ground arith, low)
  | inr below ↦
      let e : k + suc fuel ≡ suc k + fuel = omega arith in
      let f : suc k - 1 ≡ k = omega arith in
      rw below
        (root_up-first fuel (suc k) m (subst (λ n. m ≤ n * n) e h) (inr (rw f (ground arith))))
]

-- The number of trials is the least whole number that is no less than ten times the square root of
-- the number of Troves.
pub total_number_of_trials-IsRoot :
    (n : ℕ)
    → (100 * n ≤ total_number_of_trials n * total_number_of_trials n)
      × ((total_number_of_trials n ≡ 0)
          ⊎ ((total_number_of_trials n - 1) * (total_number_of_trials n - 1) < 100 * n))
total_number_of_trials-IsRoot n = root_up-first (100 * n) 0 (100 * n) (grows (100 * n)) (inl refl)
