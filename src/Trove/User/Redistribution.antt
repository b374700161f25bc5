-- ===== src/Trove/User/Redistribution.antt =====
-- `applyRedistribution`: what a Trove receives, and what all Troves receive together.
use liquity.Common.{ℕ, suc, ◌+◌, ◌-◌, ◌≤◌, ◌≡◌, refl, arith, ap, List, [], ◌∷◌, Result, ok, ◌>>=◌}
use liquity.Decimal.{Decimal, mul, add}
use liquity.Trove.{Trove, trove, plus}
use liquity.Trove.Laws.{subtract_lem}
use liquity.Trove.User.{UserTrove, PendingTrove, apply_redistribution}

-- What was redistributed per stake since the snapshot, times the stake.
abbrev pub share : PendingTrove → Trove → Trove
share t total =
    trove (mul (total.collateral - t.snapshot_of_total_redistributed.collateral) t.stake)
      (mul (total.debt - t.snapshot_of_total_redistributed.debt) t.stake)

-- Applying a redistribution never throws. It adds the share to the Trove, and keeps its owner and
-- status.
pub apply_redistribution_lem :
    (t : PendingTrove) (total : Trove)
    → apply_redistribution t total ≡ ok (record t.user { base = plus t.user.base (share t total) })
unfolding apply_redistribution
apply_redistribution_lem t total =
    ground (arith, subtract_lem total t.snapshot_of_total_redistributed)

-- A redistribution over all Troves.
pub apply_all : List PendingTrove → Trove → Result (List UserTrove)
apply_all [] total = ok []
apply_all (t ∷ ts) total = do u ← apply_redistribution t total; us ← apply_all ts total; ok (u ∷ us)

abbrev pub length {ℓ} : {A : Type ℓ} → List A → ℕ
length [] = 0
length (x ∷ xs) = suc (length xs)

abbrev pub sum_by {ℓ} : {A : Type ℓ} → (A → ℕ) → List A → ℕ
sum_by f [] = 0
sum_by f (x ∷ xs) = f x + sum_by f xs

abbrev pub Since : Trove → List PendingTrove → Type 0
Since s [] = Unit
Since s (t ∷ ts) = (t.snapshot_of_total_redistributed ≡ s) × Since s ts

mul_split :
    (g a b : Decimal)
    → (mul g a + mul g b ≤ mul g (a + b)) × (mul g (a + b) ≤ mul g a + mul g b + 1)
unfolding mul
mul_split g a b = omega arith

-- after is before and the share, but for a shortfall of at most n.
abbrev pub IsNear : ℕ → ℕ → ℕ → ℕ → Type 0
IsNear before gained after n = (after ≤ before + gained) × (before + gained ≤ after + n)

-- The totals after a redistribution against the totals before it.
abbrev pub Conserves : Trove → Trove → List PendingTrove → List UserTrove → Type 0
Conserves s total ts us =
    let stakes = sum_by (λ t. t.stake) ts in
    IsNear (sum_by (λ t. t.user.base.collateral) ts) (mul (total.collateral - s.collateral) stakes)
      (sum_by (λ u. u.base.collateral) us) (length ts)
    × IsNear (sum_by (λ t. t.user.base.debt) ts) (mul (total.debt - s.debt) stakes)
        (sum_by (λ u. u.base.debt) us) (length ts)

IsNear-cons :
    (g g' b x before stakes after n : ℕ)
    → g' ≡ g
    → IsNear before (mul g stakes) after n
    → IsNear (b + before) (mul g (x + stakes)) (add b (mul g' x) + after) (suc n)
unfolding add
IsNear-cons g g' b x before stakes after n e h = rw e (omega (arith, mul_split g x stakes))

Conserves-cons :
    (t : PendingTrove) (ts : List PendingTrove) (s total : Trove) (us : List UserTrove)
    → t.snapshot_of_total_redistributed ≡ s
    → Conserves s total ts us
    → Conserves s total (t ∷ ts) (record t.user { base = plus t.user.base (share t total) } ∷ us)
unfolding plus
Conserves-cons t ts s total us e h = (
  IsNear-cons _ _ _ _ _ _ _ _ (ap (λ (u : Trove). total.collateral - u.collateral) e) h.0,
  IsNear-cons _ _ _ _ _ _ _ _ (ap (λ (u : Trove). total.debt - u.debt) e) h.1,
)

mul-zero : (g : Decimal) → mul g 0 ≡ 0
unfolding mul
mul-zero g = omega arith

-- For Troves with one snapshot, the collateral and the debt that they receive in all is at most
-- what was redistributed over the sum of their stakes, and falls short of it by at most one unit of
-- the last digit for each Trove. None of the redistributions throws.
pub apply_all-Conserves :
    (ts : List PendingTrove) (s total : Trove)
    → Since s ts
    → (us : List UserTrove) × (apply_all ts total ≡ ok us) × Conserves s total ts us
unfolding apply_all
apply_all-Conserves [] s total h = (
  [],
  refl,
  omega (arith, mul-zero (total.collateral - s.collateral), mul-zero (total.debt - s.debt)),
)
apply_all-Conserves (t ∷ ts) s total (e, h) =
    let (us, done, near) = apply_all-Conserves ts s total h in
    let stakes = sum_by (λ t. t.stake) ts in
    (
      record t.user { base = plus t.user.base (share t total) } ∷ us,
      rw (apply_redistribution_lem t total, done) refl,
      Conserves-cons t ts s total us e near,
    )
