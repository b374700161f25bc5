-- ===== src/Subgraph/Troves/Chained.antt =====
-- The chain of changes under updates of Troves.
use mathlib.Core.Path.{subst}
use liquity.Common.{
  ℕ, ◌≡◌, ◌∙◌, sym, arith, Bool, true, false, ◌&&◌, Option, none, some, if◌then◌else◌, Result, ok,
  ok-injective, bind-ok,
}
use liquity.Subgraph.Accrual.{accrue, note_fee, with_fee}
use liquity.Subgraph.Closings.{get_current_liquidation, get_current_redemption}
use liquity.Subgraph.Decimals.{BigDecimals, decimalize}
use liquity.Subgraph.Entities.{
  Event, TroveOperation, accrue_rewards, trove_change, TroveChange, Trove, Change, History, Store,
}
use liquity.Subgraph.History.{get_current_price, init_change, finish_change}
use liquity.Subgraph.History.Chained.{HasBegun, start_change-HasBegun, finish_change-IsChained}
use liquity.Subgraph.History.Links.{IsChained, rewrite-IsChained}
use liquity.Subgraph.History.Prices.{get_current_price-history, update_by_trove_change-bumps}
use liquity.Subgraph.SystemState.{update_system_state_by_trove_change}
use liquity.Subgraph.Tables.{load}
use liquity.Subgraph.Troves.{
  link, link_liquidation, link_redemption, change_of, record_trove_change, change_trove, get_trove,
  update_found, update_trove,
}

module _ (b : BigDecimals) where
  open b use {D}

  pub link-history :
      (e : Event) (c : TroveChange D) (s : Store D) → (link b e c s).1.history ≡ s.history
  unfolding link link_liquidation link_redemption get_current_liquidation get_current_redemption
  link-history e c s = ground arith

  record_trove_change-IsChained :
      (e : Event) (started : ℕ × ℕ) (op : TroveOperation) (a coll debt stake : ℕ) (t : Trove D)
      (c : TroveChange D) (s s' : Store D)
      → HasBegun b started s.history
      → record_trove_change b e started op a coll debt stake t c s ≡ ok s'
      → IsChained s'.history
  unfolding record_trove_change
  record_trove_change-IsChained e started op a coll debt stake t c s s' o r =
      let (h, p, q) = bind-ok (update_system_state_by_trove_change b c s.history) r in
      let (st, bump) = update_by_trove_change-bumps b c s.history h o.state o.is_current p in
      subst (λ (x : Store D). IsChained x.history) (ok-injective q)
        (subst (λ x. IsChained (finish_change b started e.hash (trove_change c) x)) (sym bump)
          (finish_change-IsChained b started e.hash (trove_change c) st s.history o))

  change_trove-IsChained :
      (e : Event) (op : TroveOperation) (a coll debt stake : ℕ) (t : Trove D) (s s' : Store D)
      → IsChained s.history
      → change_trove b e op a coll debt stake t s ≡ ok s'
      → IsChained s'.history
  unfolding change_trove init_change
  change_trove-IsChained e op a coll debt stake t s s' k r =
      let s1 = (init_change b e s).1 in
      let started = (init_change b e s).0 in
      let begun : HasBegun b started s1.history = start_change-HasBegun b s.history k in
      let (ph, p, r') = bind-ok (get_current_price b s1.history) r in
      let c = change_of b op a t (decimalize b coll) (decimalize b debt) ph.0 in
      let s2 = record s1 { history = ph.1 } in
      let same : (link b e c s2).1.history ≡ s1.history =
        link-history e c s2
        ∙ get_current_price-history b s1.history ph.1 ph.0 begun.state begun.is_current p in
      record_trove_change-IsChained e started op a coll debt stake t (link b e c s2).0
        (link b e c s2).1 s' (subst (HasBegun b started) (sym same) begun) r'

  -- A new Trove is no change.
  pub get_trove-history : (a : ℕ) (s : Store D) → (get_trove b a s).1.history ≡ s.history
  unfolding get_trove
  get_trove-history a s = ground arith

  either_ok :
      (c : Bool) (x : Store D) (y : Result (Store D)) (s' : Store D)
      → IsChained x.history
      → (y ≡ ok s' → IsChained s'.history)
      → (if c then ok x else y) ≡ ok s'
      → IsChained s'.history
  either_ok true x y s' k f e = subst (λ (z : Store D). IsChained z.history) (ok-injective e) k
  either_ok false x y s' k f e = f e

  pub update_trove-IsChained :
      (e : Event) (op : TroveOperation) (a coll debt stake : ℕ) (s s' : Store D)
      → IsChained s.history
      → update_trove b e op a coll debt stake s ≡ ok s'
      → IsChained s'.history
  unfolding update_trove update_found
  update_trove-IsChained e op a coll debt stake s s' k r =
      let (t, s1) = get_trove b a s in
      let k1 : IsChained s1.history = subst IsChained (sym (get_trove-history a s)) k in
      either_ok (b.equals (decimalize b coll) t.collateral && b.equals (decimalize b debt) t.debt)
        s1 (change_trove b e op a coll debt stake t s1) s' k1
        (change_trove-IsChained e op a coll debt stake t s1 s' k1) r

  pub accrue-IsChained :
      (e : Event) (a : ℕ) (t : Option (Trove D)) (s s' : Store D)
      → IsChained s.history
      → accrue b e a t s ≡ ok s'
      → IsChained s'.history
  unfolding accrue
  accrue-IsChained e a none s s' k r = absurd cc
  accrue-IsChained e a (some t) s s' k r = update_trove-IsChained e accrue_rewards a _ _ 0 s s' k r

  pub note_fee-IsChained :
      (fee : D) (n : ℕ) (found : Option (Change D)) (h h' : History D)
      → load n h.changes ≡ found
      → IsChained h
      → note_fee b fee n found h ≡ ok h'
      → IsChained h'
  unfolding note_fee
  note_fee-IsChained fee n none h h' f k r = absurd cc
  note_fee-IsChained fee n (some c) h h' f k r =
      let (d, _, q) = bind-ok (with_fee b fee c.details) r in
      subst IsChained (ok-injective q) (rewrite-IsChained n c d h f k)
