-- ===== src/Subgraph/Troves/Sums.antt =====
-- Sums over the Troves, in exact decimals.
use liquity.Common.{
  ℕ, ◌≡◌, ◌∙◌, sym, ap, refl, arith, none, some, [], ◌∷◌, ◌==◌, if◌then◌else◌, Bool-cases, inl, inr,
}
use liquity.Subgraph.Decimals.{BigDecimals, IsExact, decimal_zero}
use liquity.Subgraph.Tables.{Table, load, save}

module _ (b : BigDecimals) {V : Type 0} (amount : V → b.D) where
  open b use {D, plus, minus}

  abbrev pub sum : Table V → D
  sum [] = decimal_zero b
  sum ((_, v) ∷ t) = plus (amount v) (sum t)

  -- The sum without one entity.
  abbrev pub rest : ℕ → Table V → D
  rest k [] = decimal_zero b
  rest k ((j, v) ∷ t) = if j == k then sum t else plus (amount v) (rest k t)

  plus_swap : (exact : IsExact b) (x y z : D) → plus x (plus y z) ≡ plus y (plus x z)
  plus_swap exact x y z =
      sym (exact.plus_assoc x y z)
      ∙ ap (λ w. plus w z) (exact.plus_comm x y)
      ∙ exact.plus_assoc y x z

  pub sum-rest :
      (exact : IsExact b) (k : ℕ) (v : V) (t : Table V)
      → load k t ≡ some v
      → sum t ≡ plus (amount v) (rest k t)
  sum-rest exact k v [] e = cc
  sum-rest exact k v ((j, w) ∷ t) e = elim (Bool-cases (j == k)) [
    | inl s ↦ ground (arith)
    | inr d ↦
        let ih = sum-rest exact k v t (ground arith) in
        rw d (ap (plus (amount w)) ih ∙ plus_swap exact (amount w) (amount v) (rest k t))
  ]

  pub sum-save :
      (exact : IsExact b) (k : ℕ) (v new : V) (t : Table V)
      → load k t ≡ some v
      → sum (save k new t) ≡ plus (amount new) (rest k t)
  sum-save exact k v new [] e = cc
  sum-save exact k v new ((j, w) ∷ t) e = elim (Bool-cases (j == k)) [
    | inl s ↦ rw s refl
    | inr d ↦
        let ih = sum-save exact k v new t (ground arith) in
        rw d (ap (plus (amount w)) ih ∙ plus_swap exact (amount w) (amount new) (rest k t))
  ]

  pub sum-save_new :
      (exact : IsExact b) (k : ℕ) (new : V) (t : Table V)
      → load k t ≡ none
      → sum (save k new t) ≡ plus (amount new) (sum t)
  sum-save_new exact k new [] e = refl
  sum-save_new exact k new ((j, w) ∷ t) e = elim (Bool-cases (j == k)) [
    | inl s ↦ ground arith
    | inr d ↦
        let ih = sum-save_new exact k new t (ground arith) in
        rw d (ap (plus (amount w)) ih ∙ plus_swap exact (amount w) (amount new) (sum t))
  ]

-- Laws of exact decimals that follow.
module _ (b : BigDecimals) (exact : IsExact b) where
  open b use {D, plus, minus}

  -- What is added to x + r to make it y + r.
  pub plus_change : (x y r : D) → plus (plus x r) (minus y x) ≡ plus y r
  plus_change x y r =
      ap (λ w. plus w (minus y x)) (exact.plus_comm x r)
      ∙ exact.plus_assoc r x (minus y x)
      ∙ ap (plus r) (exact.plus_comm x (minus y x) ∙ exact.minus_plus y x)
      ∙ exact.plus_comm r y

  -- A difference is what makes up the sum.
  minus_unique : (x y z : D) → plus z y ≡ x → z ≡ minus x y
  minus_unique x y z e = sym (exact.plus_minus z y) ∙ ap (λ w. minus w y) e

  -- Taking g, and then the rest of c, is taking c.
  pub minus_parts : (x g c : D) → minus (minus x g) (minus c g) ≡ minus x c
  minus_parts x g c =
      let y = minus (minus x g) (minus c g) in
      minus_unique x c y (
        ap (plus y) (sym (exact.minus_plus c g))
        ∙ sym (exact.plus_assoc y (minus c g) g)
        ∙ ap (λ w. plus w g) (exact.minus_plus (minus x g) (minus c g))
        ∙ exact.minus_plus x g)

  pub minus_first : (x r : D) → minus (plus x r) x ≡ r
  minus_first x r = ap (λ w. minus w x) (exact.plus_comm x r) ∙ exact.plus_minus r x
