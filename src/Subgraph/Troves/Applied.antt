-- ===== src/Subgraph/Troves/Applied.antt =====
-- What the update of a Trove does to the totals of the system's state.
use mathlib.Core.Path.{subst}
use liquity.Common.{
  ℕ, ◌≡◌, ◌∙◌, sym, refl, arith, true, false, ◌||◌, Option, none, some, ok, ok-injective, bind-ok,
  ◌>>=◌,
}
use liquity.Subgraph.Decimals.{
  BigDecimals, decimalize, decimal_precision, collateral_gas_compensation_divisor,
}
use liquity.Subgraph.Entities.{
  Event, TroveOperation, liquidate_in_normal_mode, SystemState, TroveChange, trove_change, Trove,
  History, Store,
}
use liquity.Subgraph.History.{init_change, finish_change, get_current_price}
use liquity.Subgraph.History.Chained.{
  get_current-HasCurrent, bump-HasCurrent, start_change-HasCurrent, finish_change-HasCurrent,
}
use liquity.Subgraph.History.Links.{HasCurrent}
use liquity.Subgraph.History.Prices.{get_current_price-history}
use liquity.Subgraph.SystemState.{
  is_borrower_operation, is_redemption, with_ratio, save_totals, apply_trove_change, liquidate,
  try_to_offset_with_tokens_from_stability_pool, update_system_state_by_trove_change,
}
use liquity.Subgraph.Troves.{
  change_of, link, link_liquidation, link_redemption, record_trove_change, change_trove,
}
use liquity.Subgraph.Troves.Chained.{link-history}

module _ (b : BigDecimals) where
  open b use {D, plus, minus, greater}

  -- After a change: a current state with the totals of a given one.
  pub record HasTotals (of : SystemState D) (h : History D) : Type 0 where
    pub state : SystemState D
    pub is_current : HasCurrent state h
    pub collateral : state.total_collateral ≡ of.total_collateral
    pub debt : state.total_debt ≡ of.total_debt

  save_totals-HasTotals :
      (price : Option D) (st : SystemState D) (h h' : History D)
      → save_totals b price st h ≡ ok h'
      → HasTotals st h'
  unfolding save_totals
  save_totals-HasTotals none st h h' e = absurd cc
  save_totals-HasTotals (some price) st h h' e = subst (HasTotals st) (ok-injective e) (record {
    state = record st { sequence_number = h.system_state_count; total_collateral_ratio = _ };
    is_current = bump-HasCurrent b (with_ratio b st price) h;
    collateral = refl;
    debt = refl;
  })

  update-HasTotals :
      (c : TroveChange D) (st : SystemState D) (h h' : History D)
      → HasCurrent st h
      → update_system_state_by_trove_change b c h ≡ ok h'
      → (st1 : SystemState D) × (apply_trove_change b c st ≡ ok st1) × HasTotals st1 h'
  unfolding update_system_state_by_trove_change
  update-HasTotals c st h h' k e =
      let read =
        subst
          (λ (r : SystemState D × History D).
            (apply_trove_change b c r.0 >>= λ x. save_totals b x.price x r.1) ≡ ok h')
          (get_current-HasCurrent b st h k) e in
      let (x, p, q) = bind-ok (apply_trove_change b c st) read in
      (x, p, save_totals-HasTotals x.price x h h' q)

  finish-HasTotals :
      (n : ℕ × ℕ) (transaction : ℕ) (c : TroveChange D) (st : SystemState D) (h : History D)
      → HasTotals st h
      → HasTotals st (finish_change b n transaction (trove_change c) h)
  finish-HasTotals n transaction c st h t = record {
    state = t.state;
    is_current = finish_change-HasCurrent b n transaction (trove_change c) t.state h t.is_current;
    collateral = t.collateral;
    debt = t.debt;
  }

  record-HasTotals :
      (e : Event) (n : ℕ × ℕ) (op : TroveOperation) (a coll debt stake : ℕ) (t : Trove D)
      (c : TroveChange D) (st : SystemState D) (s s' : Store D)
      → HasCurrent st s.history
      → record_trove_change b e n op a coll debt stake t c s ≡ ok s'
      → (st1 : SystemState D) × (apply_trove_change b c st ≡ ok st1) × HasTotals st1 s'.history
  unfolding record_trove_change
  record-HasTotals e n op a coll debt stake t c st s s' k r =
      let (h, p, q) = bind-ok (update_system_state_by_trove_change b c s.history) r in
      let (st1, applied, totals) = update-HasTotals c st s.history h k p in
      (
        st1,
        applied,
        subst (λ (x : Store D). HasTotals st1 x.history) (ok-injective q)
            (finish-HasTotals n e.hash c st1 h totals),
      )

  -- What a change is part of does not matter to the totals.
  link-apply :
      (e : Event) (c : TroveChange D) (s : Store D) (st : SystemState D)
      → apply_trove_change b (link b e c s).0 st ≡ apply_trove_change b c st
  unfolding link link_liquidation link_redemption apply_trove_change liquidate
  link-apply e c s st = ground arith

  -- The change that `updateTrove` makes of a Trove, at some price
  abbrev pub change_at : TroveOperation → ℕ → Trove D → ℕ → ℕ → D → TroveChange D
  change_at op a t coll debt price =
      change_of b op a t (decimalize b coll) (decimalize b debt) price

  pub change-HasTotals :
      (e : Event) (op : TroveOperation) (a coll debt stake : ℕ) (t : Trove D) (st : SystemState D)
      (s s' : Store D)
      → HasCurrent st s.history
      → change_trove b e op a coll debt stake t s ≡ ok s'
      → (price : D) × (st1 : SystemState D) × (apply_trove_change b
            (change_at op a t coll debt price)
            st
          ≡ ok st1)
        × HasTotals st1 s'.history
  unfolding change_trove init_change
  change-HasTotals e op a coll debt stake t st s s' k r =
      let s1 = (init_change b e s).1 in
      let begun : HasCurrent st s1.history = start_change-HasCurrent b st s.history k in
      let (ph, p, r') = bind-ok (get_current_price b s1.history) r in
      let c = change_at op a t coll debt ph.0 in
      let s2 = record s1 { history = ph.1 } in
      let same : (link b e c s2).1.history ≡ s1.history =
        link-history b e c s2 ∙ get_current_price-history b s1.history ph.1 ph.0 st begun p in
      let (st1, applied, totals) =
        record-HasTotals e _ op a coll debt stake t (link b e c s2).0 st (link b e c s2).1 s'
          (subst (HasCurrent st) (sym same) begun) r' in
      (ph.0, st1, sym (link-apply e c s2 st) ∙ applied, totals)

  pub apply_paid :
      (op : TroveOperation) (a coll debt : ℕ) (t : Trove D) (price : D) (st st1 : SystemState D)
      → is_borrower_operation op || is_redemption op ≡ true
      → apply_trove_change b (change_at op a t coll debt price) st ≡ ok st1
      → (st1.total_collateral ≡ plus st.total_collateral (minus (decimalize b coll) t.collateral))
        × (st1.total_debt ≡ plus st.total_debt (minus (decimalize b debt) t.debt))
  unfolding apply_trove_change change_of
  apply_paid op a coll debt t price st st1 p e = ground (arith, p)

  -- A liquidation in normal mode that the stability pool covers
  pub apply_covered :
      (a coll debt : ℕ) (t : Trove D) (price : D) (st st1 : SystemState D)
      → greater t.debt st.tokens_in_stability_pool ≡ false
      → apply_trove_change b (change_at liquidate_in_normal_mode a t coll debt price) st ≡ ok st1
      → (g : D) × (st1.total_collateral
          ≡ minus (minus st.total_collateral g) (minus t.collateral g))
        × (st1.total_debt ≡ minus st.total_debt t.debt)
  unfolding apply_trove_change change_of liquidate try_to_offset_with_tokens_from_stability_pool
  apply_covered a coll debt t price st st1 covered e = (
    b.truncate (b.div t.collateral (b.from_numeral collateral_gas_compensation_divisor))
        decimal_precision,
    ground (arith, covered),
    ground (arith, covered),
  )
