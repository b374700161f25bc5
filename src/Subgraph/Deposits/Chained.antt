-- ===== src/Subgraph/Deposits/Chained.antt =====
-- The chain of changes under updates of deposits and surpluses.
use mathlib.Core.Path.{subst}
use liquity.Common.{in_either, ℕ, ◌≡◌, sym, arith, ◌&&◌, ◌==◌, Option, none, some}
use liquity.Subgraph.Closings.{get_user}
use liquity.Subgraph.Decimals.{BigDecimals, decimalize}
use liquity.Subgraph.Deposits.{
  update_stability_deposit_by_operation, update_stability_deposit,
  withdraw_collateral_gain_from_stability_deposit, change_of_deposit, get_stability_deposit,
  update_if_waiting, assign_frontend_to_depositor, change_of_surplus, change_surplus,
  update_user_claim_coll,
}
use liquity.Subgraph.Entities.{Event, DepositOperation, Deposit, User, Store}
use liquity.Subgraph.History.{init_change}
use liquity.Subgraph.History.Chained.{start_change-HasBegun, finish-bumped}
use liquity.Subgraph.History.Links.{IsChained}
use liquity.Subgraph.SystemState.{move_tokens, move_surplus}

module _ (b : BigDecimals) where
  open b use {D}

  change_deposit-IsChained :
      (e : Event) (u : ℕ) (d : Deposit D) (op : DepositOperation) (amount : D) (gain : Option D)
      (s : Store D)
      → IsChained s.history
      → IsChained (update_stability_deposit_by_operation b e u d op amount gain s).history
  unfolding update_stability_deposit_by_operation init_change
  change_deposit-IsChained e u d op amount gain s k =
      finish-bumped b _ e.hash _ (move_tokens b (change_of_deposit b u d op amount gain)) _
        (start_change-HasBegun b s.history k)

  change_surplus-IsChained :
      (e : Event) (a : ℕ) (u : User D) (x : D) (s : Store D)
      → IsChained s.history
      → IsChained (change_surplus b e a u x s).history
  unfolding change_surplus init_change
  change_surplus-IsChained e a u x s k =
      finish-bumped b _ e.hash _ (move_surplus b (change_of_surplus b a u x)) _
        (start_change-HasBegun b s.history k)

  pub update_user_claim_coll-IsChained :
      (e : Event) (a n : ℕ) (s : Store D)
      → IsChained s.history
      → IsChained (update_user_claim_coll b e a n s).history
  unfolding update_user_claim_coll
  update_user_claim_coll-IsChained e a n s k =
      let (u, users) = get_user b a s.users in
      let s' = record s { users = users } in
      in_either (λ (t : Store D). IsChained t.history) (b.equals (decimalize b n) u.coll_surplus) s'
        (change_surplus b e a u (decimalize b n) s') k
        (change_surplus-IsChained e a u (decimalize b n) s' k)

  get_deposit-history : (a : ℕ) (s : Store D) → (get_stability_deposit b a s).1.history ≡ s.history
  unfolding get_stability_deposit
  get_deposit-history a s = ground arith

  update_deposit-IsChained :
      (e : Event) (a n : ℕ) (s : Store D)
      → IsChained s.history
      → IsChained (update_stability_deposit b e a n s).history
  unfolding update_stability_deposit
  update_deposit-IsChained e a n s k =
      let (d, s1) = get_stability_deposit b a s in
      let k1 : IsChained s1.history = subst IsChained (sym (get_deposit-history a s)) k in
      in_either (λ (x : Store D). IsChained x.history)
        (b.equals (decimalize b n) d.deposited_amount) _ _ k1
        (change_deposit-IsChained e a _ _ _ none _ k1)

  pub withdraw_gain-IsChained :
      (e : Event) (a eth loss : ℕ) (s : Store D)
      → IsChained s.history
      → IsChained (withdraw_collateral_gain_from_stability_deposit b e a eth loss s).history
  unfolding withdraw_collateral_gain_from_stability_deposit
  withdraw_gain-IsChained e a eth loss s k =
      let k1 = subst IsChained (sym (get_deposit-history a s)) k in
      in_either (λ (x : Store D). IsChained x.history) (eth == 0 && loss == 0) s _ k
        (change_deposit-IsChained e a _ _ _ _ _ k1)

  pub update_if_waiting-IsChained :
      (e : Event) (a n : ℕ) (o : Option ℕ) (s : Store D)
      → IsChained s.history
      → IsChained (update_if_waiting b e a n o s).history
  unfolding update_if_waiting
  update_if_waiting-IsChained e a n none s k = k
  update_if_waiting-IsChained e a n (some _) s k = update_deposit-IsChained e a n s k

  pub assign_frontend-history :
      (a f : ℕ) (s : Store D) → (assign_frontend_to_depositor b a f s).history ≡ s.history
  unfolding assign_frontend_to_depositor
  assign_frontend-history a f s = ground arith
