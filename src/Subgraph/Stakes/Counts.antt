-- ===== src/Subgraph/Stakes/Counts.antt =====
-- The stakes that are active, and what an operation does to their number.
use native.Mathlib.Decide.{ℕ_discrete}
use mathlib.Core.Path.{subst}
use liquity.Common.{
  ℕ, suc, ◌+◌, ◌≡◌, ◌≢◌, ◌≤◌, ◌∙◌, sym, ap, refl, arith, true, false, none, some, [], ◌∷◌,
  if◌then◌else◌, inl, inr, Bool-cases,
}
use liquity.Subgraph.Decimals.{BigDecimals, IsComparable, decimalize, decimal_zero}
use liquity.Subgraph.Entities.{Stake, Stakes}
use liquity.Subgraph.Stakes.{get_operation_type, count_stakes}
use liquity.Subgraph.Tables.{Table, load, save}

module _ (b : BigDecimals) where
  open b use {D}

  -- A stake with something staked.
  abbrev active : Stake D → ℕ
  active s = if b.equals s.amount (decimal_zero b) then 0 else 1

  abbrev pub count_active : Table (Stake D) → ℕ
  count_active [] = 0
  count_active ((_, s) ∷ t) = active s + count_active t

  abbrev pub length : Table (Stake D) → ℕ
  length [] = 0
  length (_ ∷ t) = suc (length t)

  pub count-save :
      (k : ℕ) (old new : Stake D) (t : Table (Stake D))
      → load k t ≡ some old
      → count_active (save k new t) + active old ≡ count_active t + active new
  count-save k old new [] e = cc
  count-save k old new (x ∷ t) e = ground (arith, count-save k old new t)

  pub count-save_new :
      (k : ℕ) (new : Stake D) (t : Table (Stake D))
      → load k t ≡ none
      → count_active (save k new t) ≡ count_active t + active new
  count-save_new k new [] e = omega arith
  count-save_new k new (x ∷ t) e = ground (arith, count-save_new k new t)

  pub length-save :
      (k : ℕ) (old new : Stake D) (t : Table (Stake D))
      → load k t ≡ some old
      → length (save k new t) ≡ length t
  length-save k old new [] e = cc
  length-save k old new (x ∷ t) e = ground (arith, length-save k old new t)

  pub length-save_new :
      (k : ℕ) (new : Stake D) (t : Table (Stake D))
      → load k t ≡ none
      → length (save k new t) ≡ suc (length t)
  length-save_new k new [] e = refl
  length-save_new k new (x ∷ t) e = ground (arith, length-save_new k new t)

  -- An amount is 0 just when the number that it stands for is.
  is_zero :
      (comparable : IsComparable b) (n : ℕ)
      → n ≡ 0
      → b.equals (decimalize b n) (decimal_zero b) ≡ true
  is_zero comparable n e =
      (comparable.equals_iff _ _).1 (ap (λ k. decimalize b k) e ∙ comparable.zero_decimal)

  not_zero :
      (comparable : IsComparable b) (n : ℕ)
      → n ≢ 0
      → b.equals (decimalize b n) (decimal_zero b) ≡ false
  not_zero comparable n ne = elim (Bool-cases (b.equals (decimalize b n) (decimal_zero b))) [
    | inl e ↦ absurd (ne (comparable.decimal_injective n ((comparable.equals_iff _ _).0 e)))
    | inr e ↦ e
  ]

  is_positive :
      (comparable : IsComparable b) (n : ℕ)
      → n ≢ 0
      → b.greater (decimalize b n) (decimal_zero b) ≡ true
  is_positive comparable n ne = elim (Bool-cases (b.greater (decimalize b n) (decimal_zero b))) [
    | inl e ↦ e
    | inr e ↦ absurd (ne ((comparable.positive n).0 e))
  ]

  not_above :
      (comparable : IsComparable b) (m n : ℕ)
      → n ≡ 0
      → b.greater (decimalize b n) (decimalize b m) ≡ false
  not_above comparable m n e =
      ap (λ k. b.greater k (decimalize b m)) (ap (λ k. decimalize b k) e ∙ comparable.zero_decimal)
      ∙ comparable.zero_least m

  -- 1 for an amount that is not 0
  abbrev pub weight : D → ℕ
  weight x = if b.equals x (decimal_zero b) then 0 else 1

  -- An operation counts the stakes that come and go, if something changes.
  count_stakes-weight :
      (comparable : IsComparable b) (m n : ℕ) (s : Stakes D)
      → m ≢ n
      → weight (decimalize b m) ≤ s.number_of_active_lqty_stakes
      → let op = get_operation_type b (decimalize b m) (decimalize b n) in
        (count_stakes b false op s).number_of_active_lqty_stakes + weight (decimalize b m)
        ≡ s.number_of_active_lqty_stakes + weight (decimalize b n)
  unfolding get_operation_type count_stakes
  count_stakes-weight comparable m n s ne le = elim (ℕ_discrete m 0) [
    | yes zm ↦
        let nz : n ≢ 0 = λ e. ne (zm ∙ sym e) in
        rw (is_zero comparable m zm, not_zero comparable n nz, is_positive comparable n nz)
          (omega arith)
    | no nm ↦ elim (ℕ_discrete n 0) [
      | yes zn ↦ ground (
        arith,
        not_zero comparable m nm,
        is_zero comparable n zn,
        not_above comparable m n zn,
        le,
      )
      | no nn ↦ ground (arith, not_zero comparable m nm, not_zero comparable n nn)
    ]
  ]

  pub count_stakes-amount :
      (comparable : IsComparable b) (m n : ℕ) (x : D) (s : Stakes D)
      → x ≡ decimalize b m
      → x ≢ decimalize b n
      → weight x ≤ s.number_of_active_lqty_stakes
      → (count_stakes b false
            (get_operation_type b x (decimalize b n))
            s).number_of_active_lqty_stakes
          + weight x
        ≡ s.number_of_active_lqty_stakes + weight (decimalize b n)
  count_stakes-amount comparable m n x s is ne le =
      let ne' : m ≢ n = λ e. ne (is ∙ ap (λ k. decimalize b k) e) in
      let le' = subst (λ y. weight y ≤ s.number_of_active_lqty_stakes) is le in
      subst
        (λ y.
          (count_stakes b false (get_operation_type b y (decimalize b n))
              s).number_of_active_lqty_stakes
            + weight y
          ≡ s.number_of_active_lqty_stakes + weight (decimalize b n))
        (sym is) (count_stakes-weight comparable m n s ne' le')

  pub count_stakes-first :
      (comparable : IsComparable b) (n : ℕ) (s : Stakes D)
      → n ≢ 0
      → let op = get_operation_type b (decimal_zero b) (decimalize b n) in
        ((count_stakes b true op s).total_number_of_lqty_stakes ≡ suc s.total_number_of_lqty_stakes)
        × ((count_stakes b true op s).number_of_active_lqty_stakes
            ≡ s.number_of_active_lqty_stakes + weight (decimalize b n))
  unfolding get_operation_type count_stakes
  count_stakes-first comparable n s nz =
      let zz = (comparable.equals_iff (decimal_zero b) (decimal_zero b)).1 refl in
      ground (arith, zz, is_positive comparable n nz, not_zero comparable n nz)

  -- The number of active stakes is not less than the weight of one of them.
  pub weight-le :
      (k : ℕ) (x : Stake D) (t : Table (Stake D))
      → load k t ≡ some x
      → weight x.amount ≤ count_active t
  weight-le k x [] e = absurd cc
  weight-le k x (y ∷ t) e = ground (arith, weight-le k x t)
