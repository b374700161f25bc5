-- ===== src/Transactions/Hints.antt =====
-- `_findHintsForNominalCollateralRatio`: what the hints are, and what they are not.
use mathlib.Core.Path.{subst}
use Prim.Native.String.{String}
use text.Mathlib.Text.{◌==◌ as str_eq}
use text.Mathlib.TextEquality.{eq_iff}
use liquity.Common.{
  ℕ, ◌≤◌, ◌≡◌, ◌≢◌, ◌↔◌, ◌⊎◌, inl, inr, refl, sym, ap, ◌∙◌, arith, Bool, true, false, Bool-cases,
  Option, some, List, [], ◌∷◌, ltb, if◌then◌else◌, Result, ok, bind-ok, ok-injective, ◌>>=◌,
}
use liquity.Readers.Fetch.{address_zero}
use liquity.Decimal.{Decimal, infinity}
use liquity.Transactions.{
  ApproxHint, SortedTroves, best, collect, jump_over, avoid_zero, hints_from, generate_trials,
  find_hints, total_number_of_trials,
}

abbrev pub AtMostAll : ℕ → List ApproxHint → Type 0
AtMostAll d [] = Unit
AtMostAll d (a ∷ rest) = (d ≤ a.diff) × AtMostAll d rest

AtMostAll-trans : (d e : ℕ) (s : List ApproxHint) → d ≤ e → AtMostAll e s → AtMostAll d s
AtMostAll-trans d e [] le h = tt
AtMostAll-trans d e (a ∷ s) le (h, k) = (omega arith, AtMostAll-trans d e s le k)

first_kept :
    (a b : ApproxHint) → ltb a.diff b.diff ≡ true → (if ltb a.diff b.diff then a else b) ≡ a
first_kept a b h = rw h refl

second_kept :
    (a b : ApproxHint) → ltb a.diff b.diff ≡ false → (if ltb a.diff b.diff then a else b) ≡ b
second_kept a b h = rw h refl

-- Of the results of all the trials, the one that is kept is nearest.
pub best-AtMostAll :
    (a : ApproxHint) (rest : List ApproxHint) → AtMostAll (best a rest).diff (a ∷ rest)
unfolding best
best-AtMostAll a [] = (omega arith, tt)
best-AtMostAll a (b ∷ rest) = elim (Bool-cases (ltb a.diff b.diff)) [
  | inl less ↦
      let (d, p) = best-AtMostAll a rest in
      subst (λ x. AtMostAll (best x rest).diff (a ∷ b ∷ rest)) (sym (first_kept a b less))
        (d, (ground arith, p))
  | inr more ↦
      let (d, p) = best-AtMostAll b rest in
      subst (λ x. AtMostAll (best x rest).diff (a ∷ b ∷ rest)) (sym (second_kept a b more))
        (ground arith, (d, p))
]

-- Neighbours in the list: an owner's Trove is not its own neighbour (the zero address, which owns
-- none, is answered where there is no neighbour), and two neighbours differ unless there is none.
pub record IsLinked (troves : SortedTroves) : Type 0 where
  pub prev_other : (a p : String) → a ≢ address_zero → troves.get_prev a ≡ ok p → p ≢ a
  pub next_other : (a n : String) → a ≢ address_zero → troves.get_next a ≡ ok n → n ≢ a
  pub position_differs :
      (ratio : Decimal) (h p n : String)
      → troves.find_insert_position ratio h h ≡ ok (p, n)
      → (p ≢ n) ⊎ (p ≡ address_zero)

avoid_zero-both :
    (p n : String) → ((avoid_zero p n).0 ≡ address_zero) ↔ ((avoid_zero p n).1 ≡ address_zero)
unfolding avoid_zero
avoid_zero-both p n = ground (arith, eq_iff p address_zero, eq_iff n address_zero)

avoid_zero-other :
    (p n a : String) → p ≢ a → n ≢ a → ((avoid_zero p n).0 ≢ a) × ((avoid_zero p n).1 ≢ a)
unfolding avoid_zero
avoid_zero-other p n a hp hn = ground arith

abbrev both : String → String → Result (String × String)
both p n = ok (p, n)

impossible : false ≡ true → ⊥
impossible h = cc

find_hints-search :
    (troves : SortedTroves) (number_of_troves seed : ℕ) (ratio : Decimal) (own : Option String)
    → number_of_troves ≢ 0
    → ratio ≢ infinity
    → find_hints troves number_of_troves seed ratio own ≡ (
        generate_trials (total_number_of_trials number_of_troves) >>= λ batches.
        collect troves ratio seed batches >>= λ results. hints_from troves ratio own results)
unfolding find_hints
find_hints-search troves number_of_troves seed ratio own some_troves finite = ground arith

module _ (troves : SortedTroves) (linked : IsLinked troves) where
  differs : (a p n : String) → (p ≢ n) ⊎ (p ≡ address_zero) → a ≢ address_zero → p ≡ a → n ≢ a
  differs a p n (inl other) real e = λ f. other (e ∙ sym f)
  differs a p n (inr none_left) real e = absurd (real (sym e ∙ none_left))

  jump_by :
      (own next_own : Bool) (a p n q m : String)
      → ((own ≡ true) ↔ (p ≡ a))
      → ((next_own ≡ true) ↔ (n ≡ a))
      → (p ≢ n) ⊎ (p ≡ address_zero)
      → a ≢ address_zero
      → (if own
          then (troves.get_prev p >>= λ p. both p n)
          else if next_own
          then (troves.get_next n >>= λ n. both p n)
          else both p n)
        ≡ ok (q, m)
      → (q ≢ a) × (m ≢ a)
  jump_by true c a p n q m ip inx apart real h =
      let (p', e, k) = bind-ok (troves.get_prev p) h in
      let same = ok-injective k in
      let own = ip.0 refl in
      (
        λ f. linked.prev_other p p' (λ z. real (sym own ∙ z)) e (ap (λ x. x.0) same ∙ f ∙ sym own),
        λ f. differs a p n apart real own (ap (λ x. x.1) same ∙ f),
      )
  jump_by false true a p n q m ip inx apart real h =
      let (n', e, k) = bind-ok (troves.get_next n) h in
      let same = ok-injective k in
      let own = inx.0 refl in
      (
        λ f. impossible (ip.1 (ap (λ x. x.0) same ∙ f)),
        λ f. linked.next_other n n' (λ z. real (sym own ∙ z)) e (ap (λ x. x.1) same ∙ f ∙ sym own),
      )
  jump_by false false a p n q m ip inx apart real h =
      let same = ok-injective h in
      (
        λ f. impossible (ip.1 (ap (λ x. x.0) same ∙ f)),
        λ f. impossible (inx.1 (ap (λ x. x.1) same ∙ f)),
      )

  jump_over-other :
      (a p n q m : String)
      → (p ≢ n) ⊎ (p ≡ address_zero)
      → a ≢ address_zero
      → jump_over troves (some a) p n ≡ ok (q, m)
      → (q ≢ a) × (m ≢ a)
  unfolding jump_over
  jump_over-other a p n q m apart real h =
      jump_by (str_eq p a) (str_eq n a) a p n q m (eq_iff p a) (eq_iff n a) apart real h

  hints_from-other :
      (ratio : Decimal) (a p n : String) (results : List ApproxHint)
      → a ≢ address_zero
      → hints_from troves ratio (some a) results ≡ ok (p, n)
      → ((p ≡ address_zero) ↔ (n ≡ address_zero)) × (p ≢ a) × (n ≢ a)
  unfolding hints_from
  hints_from-other ratio a p n [] real h = absurd cc
  hints_from-other ratio a p n (r ∷ rest) real h =
      let hint = (best r rest).hint_address in
      let (place, e, k) = bind-ok (troves.find_insert_position ratio hint hint) h in
      let (hints, f, l) = bind-ok (jump_over troves (some a) place.0 place.1) k in
      let others =
        jump_over-other a place.0 place.1 hints.0 hints.1
          (linked.position_differs ratio hint place.0 place.1 e) real f in
      let avoided = avoid_zero-other hints.0 hints.1 a others.0 others.1 in
      subst (λ x. ((x.0 ≡ address_zero) ↔ (x.1 ≡ address_zero)) × (x.0 ≢ a) × (x.1 ≢ a))
        (ok-injective l) (avoid_zero-both hints.0 hints.1, avoided.0, avoided.1)

  -- When the neighbours of an owner's Trove are other addresses than the owner's, and the two of a
  -- position differ unless there is no previous one, then the hints for a Trove that is reinserted at
  -- a finite ratio into a list that is not empty, if they are found, are never the Trove itself, and
  -- neither is the zero address unless both are.
  pub find_hints-other :
      (number_of_troves seed : ℕ) (ratio : Decimal) (a p n : String)
      → number_of_troves ≢ 0
      → ratio ≢ infinity
      → a ≢ address_zero
      → find_hints troves number_of_troves seed ratio (some a) ≡ ok (p, n)
      → ((p ≡ address_zero) ↔ (n ≡ address_zero)) × (p ≢ a) × (n ≢ a)
  find_hints-other number_of_troves seed ratio a p n some_troves finite real h =
      let total = total_number_of_trials number_of_troves in
      let h' =
        sym (find_hints-search troves number_of_troves seed ratio (some a) some_troves finite)
        ∙ h in
      let (batches, _, k) = bind-ok (generate_trials total) h' in
      let (results, _, l) = bind-ok (collect troves ratio seed batches) k in
      hints_from-other ratio a p n results real l
