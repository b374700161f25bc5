-- ===== src/Subgraph/Troves/Totals.antt =====
-- The totals of the system's state against the Troves.
use mathlib.Core.Path.{subst}
use liquity.Common.{
  some-injective, ℕ, ◌≡◌, ◌∙◌, sym, ap, ◌&&◌, none, some, inl, inr, Option-cases, ok,
}
use liquity.Subgraph.Decimals.{BigDecimals, IsExact, decimalize, decimal_zero}
use liquity.Subgraph.Entities.{Event, TroveOperation, SystemState, Trove, Store}
use liquity.Subgraph.History.Links.{HasCurrent}
use liquity.Subgraph.SystemState.{apply_trove_change}
use liquity.Subgraph.Tables.{load, save}
use liquity.Subgraph.Troves.{
  new_trove, updated_trove, save_trove, change_trove, update_found, update_trove,
}
use liquity.Subgraph.Troves.Applied.{change_at, change-HasTotals}
use liquity.Subgraph.Troves.Chained.{get_trove-history}
use liquity.Subgraph.Troves.Counted.{
  change_trove-population, get_trove-known, get_trove-new, either_end,
}
use liquity.Subgraph.Troves.Sums.{sum, rest, sum-rest, sum-save, sum-save_new}
use liquity.Subgraph.Troves.Moves.{IsCovered, AreTotals, moves_of}

none-ne-some {ℓ} : {A : Type ℓ} {x : A} → ¬ (none ≡ some x)
none-ne-some e = cc

module _ (b : BigDecimals) where
  open b use {D, plus}

  abbrev pub collateral_of : Trove D → D
  collateral_of t = t.collateral

  abbrev pub debt_of : Trove D → D
  debt_of t = t.debt

  -- The current state's totals are the sums over the Troves.
  pub record IsBalanced (st : SystemState D) (s : Store D) : Type 0 where
    pub is_current : HasCurrent st s.history
    pub collateral : st.total_collateral ≡ sum b collateral_of s.population.troves
    pub debt : st.total_debt ≡ sum b debt_of s.population.troves

  -- `t` is the Trove before, whether it is known or new: `s1` has the Troves of `s`.
  found-IsBalanced :
      (exact : IsExact b) (e : Event) (op : TroveOperation) (a coll debt stake : ℕ) (t : Trove D)
      (st : SystemState D) (s1 s' : Store D) (rc rd : D)
      → HasCurrent st s1.history
      → ((price : D) (st1 : SystemState D)
          → apply_trove_change b (change_at b op a t coll debt price) st ≡ ok st1
          → AreTotals b st1 (decimalize b coll) (decimalize b debt) rc rd)
      → ((new : Trove D)
          → (sum b collateral_of (save a new s1.population.troves) ≡ plus new.collateral rc)
            × (sum b debt_of (save a new s1.population.troves) ≡ plus new.debt rd))
      → IsBalanced st s1
      → update_found b e op a coll debt stake t s1 ≡ ok s'
      → (st' : SystemState D) × IsBalanced st' s'
  unfolding update_found save_trove updated_trove
  found-IsBalanced exact e op a coll debt stake t st s1 s' rc rd k moves saves bal r =
      let unchanged =
        b.equals (decimalize b coll) t.collateral && b.equals (decimalize b debt) t.debt in
      elim (either_end b unchanged s1 (change_trove b e op a coll debt stake t s1) s' r) [
        | inl (_, q) ↦ (st, subst (IsBalanced st) (sym q) bal)
        | inr (_, q) ↦
            let (price, st1, applied, after) =
              change-HasTotals b e op a coll debt stake t st s1 s' k q in
            let m = moves price st1 applied in
            let kept = change_trove-population b e op a coll debt stake t s1 s' q in
            let (sc, sd) = saves (updated_trove b op coll debt stake s1.population t) in
            (
              after.state,
              record {
                is_current = after.is_current;
                collateral =
                    after.collateral
                    ∙ m.collateral
                    ∙ sym sc
                    ∙ ap (λ x. sum b collateral_of x.troves) (sym kept);
                debt = after.debt ∙ m.debt ∙ sym sd ∙ ap (λ x. sum b debt_of x.troves) (sym kept);
              },
            )
      ]

  known-IsBalanced :
      (exact : IsExact b) (e : Event) (op : TroveOperation) (a coll debt stake : ℕ) (t : Trove D)
      (st : SystemState D) (s s' : Store D)
      → load a s.population.troves ≡ some t
      → IsCovered b st s op a coll debt
      → IsBalanced st s
      → update_found b e op a coll debt stake t s ≡ ok s'
      → (st' : SystemState D) × IsBalanced st' s'
  known-IsBalanced exact e op a coll debt stake t st s s' f c bal r =
      let ts = s.population.troves in
      let rc = rest b collateral_of a ts in
      let rd = rest b debt_of a ts in
      let w : AreTotals b st t.collateral t.debt rc rd = record {
        collateral = bal.collateral ∙ sum-rest b collateral_of exact a t ts f;
        debt = bal.debt ∙ sum-rest b debt_of exact a t ts f;
      } in
      found-IsBalanced exact e op a coll debt stake t st s s' rc rd bal.is_current
        (moves_of b exact op a coll debt t st s rc rd (λ x g. some-injective (sym g ∙ f)) c w)
        (λ new.
          (sum-save b collateral_of exact a t new ts f, sum-save b debt_of exact a t new ts f))
        bal r

  new-IsBalanced :
      (exact : IsExact b) (e : Event) (op : TroveOperation) (a coll debt stake : ℕ) (t : Trove D)
      (st : SystemState D) (s s1 s' : Store D)
      → load a s.population.troves ≡ none
      → t ≡ new_trove b a
      → s1.population.troves ≡ s.population.troves
      → s1.history ≡ s.history
      → IsCovered b st s op a coll debt
      → IsBalanced st s
      → update_found b e op a coll debt stake t s1 ≡ ok s'
      → (st' : SystemState D) × IsBalanced st' s'
  new-IsBalanced exact e op a coll debt stake t st s s1 s' f is_new q h c bal r =
      let ts = s1.population.troves in
      let bal1 : IsBalanced st s1 = record {
        is_current = subst (HasCurrent st) (sym h) bal.is_current;
        collateral = bal.collateral ∙ ap (sum b collateral_of) (sym q);
        debt = bal.debt ∙ ap (sum b debt_of) (sym q);
      } in
      let zero_first : (x : D) → x ≡ plus (decimal_zero b) x =
        λ x. sym (exact.plus_zero x) ∙ exact.plus_comm x (decimal_zero b) in
      let w : AreTotals b st t.collateral t.debt (sum b collateral_of ts) (sum b debt_of ts) =
        record {
          collateral =
              bal1.collateral
              ∙ zero_first (sum b collateral_of ts)
              ∙ ap (λ (y : Trove D). plus y.collateral (sum b collateral_of ts)) (sym is_new);
          debt =
              bal1.debt
              ∙ zero_first (sum b debt_of ts)
              ∙ ap (λ (y : Trove D). plus y.debt (sum b debt_of ts)) (sym is_new);
        } in
      let f1 : load a ts ≡ none = ap (load a) q ∙ f in
      found-IsBalanced exact e op a coll debt stake t st s1 s' (sum b collateral_of ts)
        (sum b debt_of ts) bal1.is_current
        (moves_of b exact op a coll debt t st s (sum b collateral_of ts) (sum b debt_of ts)
          (λ x g. absurd (none-ne-some (sym f ∙ g))) c w)
        (λ new. (
          sum-save_new b collateral_of exact a new ts f1,
          sum-save_new b debt_of exact a new ts f1,
        ))
        bal1 r

  -- In exact decimals, when the current state has the sums of the Troves' collaterals and debts as its
  -- totals, so has the state after an update of a Trove: by its owner, by a redemption, or by a
  -- liquidation in normal mode that closes it and is covered by the stability pool.
  pub update_trove-IsBalanced :
      (exact : IsExact b) (e : Event) (op : TroveOperation) (a coll debt stake : ℕ)
      (st : SystemState D) (s s' : Store D)
      → IsCovered b st s op a coll debt
      → IsBalanced st s
      → update_trove b e op a coll debt stake s ≡ ok s'
      → (st' : SystemState D) × IsBalanced st' s'
  unfolding update_trove
  update_trove-IsBalanced exact e op a coll debt stake st s s' c bal r =
      elim (Option-cases (load a s.population.troves)) [
        | inl f ↦
            let (is_new, counted) = get_trove-new b a s f in
            new-IsBalanced exact e op a coll debt stake _ st s _ s' f is_new
              (ap (λ x. x.troves) counted) (get_trove-history b a s) c bal r
        | inr (t, f) ↦ known-IsBalanced exact e op a coll debt stake t st s s' f c bal (
            subst (λ (x : Trove D × Store D). update_found b e op a coll debt stake x.0 x.1 ≡ ok s')
              (get_trove-known b a t s f) r)
      ]
