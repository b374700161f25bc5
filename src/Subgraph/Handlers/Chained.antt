-- ===== src/Subgraph/Handlers/Chained.antt =====
-- Every handler keeps the chain of changes.
use mathlib.Core.Path.{subst}
use liquity.Common.{ℕ, ◌≡◌, sym, refl, arith, ◌-◌, List, [], ◌∷◌, inr, ok, ok-injective, bind-ok}
use liquity.Subgraph.Accrual.{
  note_fee, set_borrowing_fee_of_last_trove_change,
  apply_redistribution_to_trove_before_liquidation,
}
use liquity.Subgraph.Closings.{
  get_current_liquidation, get_current_redemption, finish_current_liquidation,
  finish_current_redemption,
}
use liquity.Subgraph.Decimals.{BigDecimals, decimalize, decimal_zero}
use liquity.Subgraph.Deposits.{
  handle_user_deposit_changed, handle_eth_gain_withdrawn, amount_of, register_frontend,
}
use liquity.Subgraph.Deposits.Chained.{
  update_user_claim_coll-IsChained, withdraw_gain-IsChained, update_if_waiting-IsChained,
  assign_frontend-history,
}
use liquity.Subgraph.Entities.{Event, Store, new_store}
use liquity.Subgraph.Handlers.{
  Emitted, last_good_price_updated, trove_updated_by_borrower, trove_updated_by_manager,
  borrowing_fee_paid, trove_liquidated, liquidation_finished, redemption_finished, l_terms_updated,
  user_deposit_changed, eth_gain_withdrawn, frontend_registered, frontend_tag_set,
  coll_balance_updated, stake_changed, staking_gains_withdrawn, handle_borrowing_fee_paid, handle,
  handle_all,
}
use liquity.Subgraph.History.Links.{IsChained}
use liquity.Subgraph.History.Prices.{update_price-IsChained}
use liquity.Subgraph.Stakes.Chained.{update_stake-IsChained, withdraw_stake_gains-IsChained}
use liquity.Subgraph.Tables.{load}
use liquity.Subgraph.Troves.{update_total_redistributed}
use liquity.Subgraph.Troves.Chained.{update_trove-IsChained, accrue-IsChained, note_fee-IsChained}

module _ (b : BigDecimals) where
  open b use {D}

  handle_borrowing_fee_paid-IsChained :
      (fee : ℕ) (s s' : Store D)
      → IsChained s.history
      → handle_borrowing_fee_paid b fee s ≡ ok s'
      → IsChained s'.history
  unfolding handle_borrowing_fee_paid set_borrowing_fee_of_last_trove_change
  handle_borrowing_fee_paid-IsChained fee s s' k r =
      let n = s.history.change_count - 1 in
      let found = load n s.history.changes in
      let (h, p, q) = bind-ok (note_fee b (decimalize b fee) n found s.history) r in
      subst (λ (x : Store D). IsChained x.history) (ok-injective q)
        (note_fee-IsChained b (decimalize b fee) n found s.history h refl k p)

  get_liquidation-history :
      (e : Event) (s : Store D) → (get_current_liquidation b e s).1.history ≡ s.history
  unfolding get_current_liquidation
  get_liquidation-history e s = ground arith

  get_redemption-history :
      (e : Event) (s : Store D) → (get_current_redemption b e s).1.history ≡ s.history
  unfolding get_current_redemption
  get_redemption-history e s = ground arith

  at_end : {x : Store D} (s' : Store D) → IsChained x.history → ok x ≡ ok s' → IsChained s'.history
  at_end s' k e = subst (λ (z : Store D). IsChained z.history) (ok-injective e) k

  handle-IsChained :
      (e : Event) (x : Emitted) (s s' : Store D)
      → IsChained s.history
      → handle b e x s ≡ ok s'
      → IsChained s'.history
  unfolding handle apply_redistribution_to_trove_before_liquidation finish_current_liquidation
      finish_current_redemption update_total_redistributed handle_user_deposit_changed
      handle_eth_gain_withdrawn register_frontend
  handle-IsChained e (last_good_price_updated n) s s' k r =
      at_end s' (update_price-IsChained b e n s k) r
  handle-IsChained e (trove_updated_by_borrower a c d t op) s s' k r =
      update_trove-IsChained b e _ a c d t s s' k r
  handle-IsChained e (trove_updated_by_manager a c d t op) s s' k r =
      update_trove-IsChained b e _ a c d t s s' k r
  handle-IsChained e (borrowing_fee_paid fee) s s' k r =
      handle_borrowing_fee_paid-IsChained fee s s' k r
  handle-IsChained e (trove_liquidated a) s s' k r =
      accrue-IsChained b e a (load a s.population.troves) s s' k r
  handle-IsChained e (liquidation_finished c d p q) s s' k r =
      at_end s' (subst IsChained (sym (get_liquidation-history e s)) k) r
  handle-IsChained e (redemption_finished c d p q) s s' k r =
      at_end s' (subst IsChained (sym (get_redemption-history e s)) k) r
  handle-IsChained e (l_terms_updated p q) s s' k r = at_end s' k r
  handle-IsChained e (user_deposit_changed a n) s s' k r =
      at_end s' (update_if_waiting-IsChained b e a n s.tmp_deposit_update _ k) r
  handle-IsChained e (eth_gain_withdrawn a eth loss) s s' k r =
      at_end s'
        (update_if_waiting-IsChained b e a (amount_of b s.tmp_deposit_update) s.tmp_deposit_update _
          (withdraw_gain-IsChained b e a eth loss _ k))
        r
  handle-IsChained e (frontend_registered f rate) s s' k r = at_end s' k r
  handle-IsChained e (frontend_tag_set a f) s s' k r =
      at_end s' (subst IsChained (sym (assign_frontend-history b a f s)) k) r
  handle-IsChained e (coll_balance_updated a n) s s' k r =
      at_end s' (update_user_claim_coll-IsChained b e a n s k) r
  handle-IsChained e (stake_changed a n) s s' k r = at_end s' (update_stake-IsChained b e a n s k) r
  handle-IsChained e (staking_gains_withdrawn a p q) s s' k r =
      at_end s' (withdraw_stake_gains-IsChained b e a p q s k) r

  handle_all-IsChained :
      (xs : List (Event × Emitted)) (s s' : Store D)
      → IsChained s.history
      → handle_all b xs s ≡ ok s'
      → IsChained s'.history
  unfolding handle_all
  handle_all-IsChained [] s s' k r = at_end s' k r
  handle_all-IsChained ((e, x) ∷ xs) s s' k r =
      let (s1, p, q) = bind-ok (handle b e x s) r in
      handle_all-IsChained xs s1 s' (handle-IsChained e x s s1 k p) q

  -- Whatever events are handled from the start on, as long as no handler fails: every change is kept
  -- under its number, and leads from a state to a later one, at which the next change begins; the
  -- last one leads to the current state, which is kept under its number as well.
  pub indexed-IsChained :
      (xs : List (Event × Emitted)) (s : Store D)
      → handle_all b xs (new_store (decimal_zero b)) ≡ ok s
      → IsChained s.history
  indexed-IsChained xs s =
      handle_all-IsChained xs (new_store (decimal_zero b)) s
        (record { links = λ k lt. absurd (omega arith); current = inr (refl, refl) })
