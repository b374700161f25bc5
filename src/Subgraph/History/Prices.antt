-- ===== src/Subgraph/History/Prices.antt =====
-- The chain of changes under new prices, and under updates of the totals.
use mathlib.Core.Path.{subst}
use liquity.Common.{
  in_either, ℕ, ◌≡◌, sym, refl, arith, not, Option, none, some, ok, ok-injective, bind-ok, ◌>>=◌,
}
use liquity.Subgraph.Decimals.{BigDecimals, decimalize}
use liquity.Subgraph.Entities.{Event, SystemState, TroveChange, History, Store}
use liquity.Subgraph.History.{
  bump_system_state, get_current_system_state, get_current_price, init_change, change_price,
  update_price_from, update_price,
}
use liquity.Subgraph.History.Chained.{
  get_current-HasCurrent, start_change-HasBegun, finish_change-IsChained, get_current-IsChained,
  overwrite-IsChained,
}
use liquity.Subgraph.History.Links.{HasCurrent, IsChained}
use liquity.Subgraph.SystemState.{
  apply_trove_change, save_totals, with_ratio, update_system_state_by_trove_change,
}

module _ (b : BigDecimals) where
  open b use {D}

  change_price-IsChained :
      (e : Event) (old new : D) (st : SystemState D) (s : Store D)
      → IsChained s.history
      → IsChained (change_price b e old new st s).history
  unfolding change_price init_change
  change_price-IsChained e old new st s c =
      finish_change-IsChained b _ e.hash _ _ _ (start_change-HasBegun b s.history c)

  update_price_from-IsChained :
      (e : Event) (new : D) (st : SystemState D) (old : Option D) (s : Store D)
      → HasCurrent st s.history
      → IsChained s.history
      → IsChained (update_price_from b e new st old s).history
  unfolding update_price_from
  update_price_from-IsChained e new st none s c k =
      overwrite-IsChained b st (record st { price = some new }) s.history refl c k
  update_price_from-IsChained e new st (some old) s c k =
      in_either (λ (t : Store D). IsChained t.history) (not (b.equals new old))
        (change_price b e old new st s) s (change_price-IsChained e old new st s k) k

  pub update_price-IsChained :
      (e : Event) (n : ℕ) (s : Store D)
      → IsChained s.history
      → IsChained (update_price b e n s).history
  unfolding update_price
  update_price-IsChained e n s k =
      let (st, h) = get_current_system_state b s.history in
      let (c, k') = get_current-IsChained b s.history k in
      update_price_from-IsChained e (decimalize b n) st st.price (record s { history = h }) c k'

  -- A price is read of the state that is current.
  pub get_current_price-history :
      (h h' : History D) (price : D) (st : SystemState D)
      → HasCurrent st h
      → get_current_price b h ≡ ok (price, h')
      → h' ≡ h
  unfolding get_current_price
  get_current_price-history h h' price st c e = ground (arith, get_current-HasCurrent b st h c)

  -- Where the price of the new state is known, the totals are saved in a bump.
  save_totals-bumps :
      (price : Option D) (st : SystemState D) (h h' : History D)
      → save_totals b price st h ≡ ok h'
      → (st' : SystemState D) × (h' ≡ bump_system_state b st' h)
  unfolding save_totals
  save_totals-bumps none st h h' e = absurd cc
  save_totals-bumps (some price) st h h' e = (with_ratio b st price, sym (ok-injective e))

  pub update_by_trove_change-bumps :
      (c : TroveChange D) (h h' : History D) (st : SystemState D)
      → HasCurrent st h
      → update_system_state_by_trove_change b c h ≡ ok h'
      → (st' : SystemState D) × (h' ≡ bump_system_state b st' h)
  unfolding update_system_state_by_trove_change
  update_by_trove_change-bumps c h h' st k e =
      let read =
        subst
          (λ (r : SystemState D × History D).
            (apply_trove_change b c r.0 >>= λ x. save_totals b x.price x r.1) ≡ ok h')
          (get_current-HasCurrent b st h k) e in
      let (x, _, q) = bind-ok (apply_trove_change b c st) read in save_totals-bumps x.price x h h' q
