-- ===== src/Subgraph/Troves/Counted.antt =====
-- The counters of `Global` under `updateTrove`.
use mathlib.Core.Path.{subst}
use liquity.Common.{
  ℕ, ◌≡◌, ◌≢◌, ◌∙◌, sym, ap, refl, arith, Bool, true, false, ◌&&◌, none, some, if◌then◌else◌, ◌⊎◌,
  inl, inr, Option-cases, Result, ok, ok-injective, bind-ok,
}
use liquity.Subgraph.{increase_number_of_open_troves}
use liquity.Subgraph.Closings.{get_current_liquidation, get_current_redemption}
use liquity.Subgraph.Decimals.{BigDecimals, IsComparable, decimalize}
use liquity.Subgraph.Entities.{Event, TroveOperation, TroveChange, Trove, Store}
use liquity.Subgraph.History.{init_change, get_current_price}
use liquity.Subgraph.SystemState.{update_system_state_by_trove_change}
use liquity.Subgraph.Tables.{load}
use liquity.Subgraph.Troves.{
  new_trove, get_trove, change_of, link, link_liquidation, link_redemption, save_trove,
  record_trove_change, change_trove, update_found, update_trove,
}
use liquity.Subgraph.Troves.Indexed.{both_left, IsIndexed, orderly, save_known, save_new}

module _ (b : BigDecimals) where
  open b use {D}

  link-population :
      (e : Event) (c : TroveChange D) (s : Store D) → (link b e c s).1.population ≡ s.population
  unfolding link link_liquidation link_redemption get_current_liquidation get_current_redemption
  link-population e c s = ground arith

  record_trove_change-population :
      (e : Event) (n : ℕ × ℕ) (op : TroveOperation) (a coll debt stake : ℕ) (t : Trove D)
      (c : TroveChange D) (s s' : Store D)
      → record_trove_change b e n op a coll debt stake t c s ≡ ok s'
      → s'.population ≡ save_trove b op a coll debt stake t s.population
  unfolding record_trove_change
  record_trove_change-population e n op a coll debt stake t c s s' r =
      let (h, _, q) = bind-ok (update_system_state_by_trove_change b c s.history) r in
      ap (λ (x : Store D). x.population) (sym (ok-injective q))

  -- The update of a Trove changes the Troves by saving it.
  pub change_trove-population :
      (e : Event) (op : TroveOperation) (a coll debt stake : ℕ) (t : Trove D) (s s' : Store D)
      → change_trove b e op a coll debt stake t s ≡ ok s'
      → s'.population ≡ save_trove b op a coll debt stake t s.population
  unfolding change_trove init_change
  change_trove-population e op a coll debt stake t s s' r =
      let s1 = (init_change b e s).1 in
      let (ph, _, r') = bind-ok (get_current_price b s1.history) r in
      let c = change_of b op a t (decimalize b coll) (decimalize b debt) ph.0 in
      let s2 = record s1 { history = ph.1 } in
      record_trove_change-population e _ op a coll debt stake t (link b e c s2).0 (link b e c s2).1
        s' r'
      ∙ ap (save_trove b op a coll debt stake t) (link-population e c s2)

  -- The two ends of `updateTrove`, by the test.
  pub either_end :
      (x : Bool) (s : Store D) (r : Result (Store D)) (s' : Store D)
      → (if x then ok s else r) ≡ ok s'
      → ((x ≡ true) × (s' ≡ s)) ⊎ ((x ≡ false) × (r ≡ ok s'))
  either_end true s r s' e = inl (refl, sym (ok-injective e))
  either_end false s r s' e = inr (refl, e)

  pub get_trove-known :
      (a : ℕ) (t : Trove D) (s : Store D)
      → load a s.population.troves ≡ some t
      → get_trove b a s ≡ (t, s)
  unfolding get_trove
  get_trove-known a t s e = ground arith

  update_known :
      (comparable : IsComparable b) (e : Event) (op : TroveOperation) (a coll debt stake : ℕ)
      (t : Trove D) (s s' : Store D)
      → load a s.population.troves ≡ some t
      → (coll ≡ 0 → debt ≡ 0)
      → IsIndexed b s.population
      → update_found b e op a coll debt stake t s ≡ ok s'
      → IsIndexed b s'.population
  unfolding update_found
  update_known comparable e op a coll debt stake t s s' found h i r =
      let unchanged =
        b.equals (decimalize b coll) t.collateral && b.equals (decimalize b debt) t.debt in
      elim (either_end unchanged s (change_trove b e op a coll debt stake t s) s' r) [
        | inl (_, q) ↦ subst (λ (x : Store D). IsIndexed b x.population) (sym q) i
        | inr (p, q) ↦
            subst (IsIndexed b) (sym (change_trove-population e op a coll debt stake t s s' q)) (
              save_known b op a coll debt stake t s.population found
                (orderly b comparable op coll debt t h (i.settled a t found) p) h i)
      ]

  pub get_trove-new :
      (a : ℕ) (s : Store D)
      → load a s.population.troves ≡ none
      → ((get_trove b a s).0 ≡ new_trove b a)
        × ((get_trove b a s).1.population ≡ record s.population {
          counters = increase_number_of_open_troves s.population.counters;
        })
  unfolding get_trove
  get_trove-new a s e = ground arith

  update_new :
      (comparable : IsComparable b) (e : Event) (op : TroveOperation) (a coll debt stake : ℕ)
      (t : Trove D) (s s1 s' : Store D)
      → load a s.population.troves ≡ none
      → t ≡ new_trove b a
      → s1.population
        ≡ record s.population { counters = increase_number_of_open_troves s.population.counters }
      → coll ≢ 0
      → IsIndexed b s.population
      → update_found b e op a coll debt stake t s1 ≡ ok s'
      → IsIndexed b s'.population
  unfolding update_found
  update_new comparable e op a coll debt stake t s s1 s' found is_new counted nz i r =
      let unchanged =
        b.equals (decimalize b coll) t.collateral && b.equals (decimalize b debt) t.debt in
      elim (either_end unchanged s1 (change_trove b e op a coll debt stake t s1) s' r) [
        | inl (p, _) ↦
            let nothing =
              (comparable.equals_iff (decimalize b coll) t.collateral).0
                (both_left _ (b.equals (decimalize b debt) t.debt) p) in
            absurd (
              nz (
                comparable.decimal_injective coll
                  (nothing ∙ ap (λ (x : Trove D). x.collateral) is_new)))
        | inr (_, q) ↦
            subst (IsIndexed b)
              (sym (
                change_trove-population e op a coll debt stake t s1 s' q
                ∙ ap (save_trove b op a coll debt stake t) counted
                ∙ ap
                    (λ x. save_trove b op a coll debt stake x (record s.population {
                      counters = increase_number_of_open_troves s.population.counters;
                    }))
                    is_new))
              (save_new b op a coll debt stake s.population found nz i)
      ]

  -- If every counter is the number of the Troves of its status, and the Troves that are not open are
  -- empty, that stays so with an update of a Trove, provided that an update without collateral is one
  -- without debt and that no unknown Trove is updated to nothing. Of the decimals it is asked how they
  -- compare, and that an unsigned number is 0 as a decimal only if it is 0.
  pub update_trove-IsIndexed :
      (comparable : IsComparable b) (e : Event) (op : TroveOperation) (a coll debt stake : ℕ)
      (s s' : Store D)
      → (coll ≡ 0 → debt ≡ 0)
      → (load a s.population.troves ≡ none → coll ≢ 0)
      → IsIndexed b s.population
      → update_trove b e op a coll debt stake s ≡ ok s'
      → IsIndexed b s'.population
  unfolding update_trove
  update_trove-IsIndexed comparable e op a coll debt stake s s' h fresh i r =
      elim (Option-cases (load a s.population.troves)) [
        | inl f ↦
            let (is_new, counted) = get_trove-new a s f in
            update_new comparable e op a coll debt stake _ s _ s' f is_new counted (fresh f) i r
        | inr (t, f) ↦ update_known comparable e op a coll debt stake t s s' f h i (
            subst (λ (x : Trove D × Store D). update_found b e op a coll debt stake x.0 x.1 ≡ ok s')
              (get_trove-known a t s f) r)
      ]
