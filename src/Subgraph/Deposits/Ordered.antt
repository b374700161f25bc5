-- ===== src/Subgraph/Deposits/Ordered.antt =====
-- The two events that say what has become of a deposit, in either order.
use mathlib.Core.Path.{subst}
use liquity.Common.{ℕ, ap, sym, ◌≡◌, ◌∙◌, refl, arith, Option, none, some}
use liquity.Subgraph.Decimals.{BigDecimals}
use liquity.Subgraph.Deposits.{
  get_stability_deposit, update_stability_deposit_by_operation, swap_tmp_deposit_update,
  withdraw_collateral_gain_from_stability_deposit, update_stability_deposit, update_if_waiting,
  handle_user_deposit_changed, handle_eth_gain_withdrawn,
}
use liquity.Subgraph.Entities.{Event, Store}
use liquity.Subgraph.History.{init_change}

module _ (b : BigDecimals) where
  open b use {D}

  -- What is set aside between the two events does not matter to a withdrawal of gains.
  withdraw-tmp :
      (e : Event) (a eth loss : ℕ) (x : Option ℕ) (s : Store D)
      → withdraw_collateral_gain_from_stability_deposit b e a eth loss
          (record s { tmp_deposit_update = x })
        ≡ record (withdraw_collateral_gain_from_stability_deposit b e a eth loss s) {
          tmp_deposit_update = x;
        }
  unfolding withdraw_collateral_gain_from_stability_deposit get_stability_deposit
      update_stability_deposit_by_operation init_change
  withdraw-tmp e a eth loss x s = ground arith

  -- What the two events lead to: the gains are withdrawn, and then the deposit is updated.
  abbrev pub settled : Event → ℕ → ℕ → ℕ → ℕ → Store D → Store D
  settled e a new eth loss s =
      update_stability_deposit b e a new
        (withdraw_collateral_gain_from_stability_deposit b e a eth loss s)

  abbrev idle : Store D → Store D
  idle s = record s { tmp_deposit_update = none }

  gain_first :
      (e : Event) (a new eth loss : ℕ) (s : Store D)
      → handle_user_deposit_changed b e a new (handle_eth_gain_withdrawn b e a eth loss (idle s))
        ≡ settled e a new eth loss (idle s)
  unfolding handle_user_deposit_changed handle_eth_gain_withdrawn swap_tmp_deposit_update
      update_if_waiting
  gain_first e a new eth loss s =
      ap (handle_user_deposit_changed b e a new) (withdraw-tmp e a eth loss (some 0) s)
      ∙ ap (update_stability_deposit b e a new) (sym (withdraw-tmp e a eth loss none s))

  deposit_first :
      (e : Event) (a new eth loss : ℕ) (s : Store D)
      → handle_eth_gain_withdrawn b e a eth loss (handle_user_deposit_changed b e a new (idle s))
        ≡ settled e a new eth loss (idle s)
  unfolding handle_user_deposit_changed handle_eth_gain_withdrawn swap_tmp_deposit_update
      update_if_waiting
  deposit_first e a new eth loss s = refl

  -- When nothing is set aside, an event that gains were withdrawn and one that the deposit changed,
  -- of the same transaction, lead to the same store in either order: the gains are withdrawn first,
  -- and then the deposit is updated.
  pub deposit_events_commute :
      (e : Event) (a new eth loss : ℕ) (s : Store D)
      → s.tmp_deposit_update ≡ none
      → (handle_user_deposit_changed b e a new (handle_eth_gain_withdrawn b e a eth loss s)
          ≡ settled e a new eth loss s)
        × (handle_eth_gain_withdrawn b e a eth loss (handle_user_deposit_changed b e a new s)
            ≡ settled e a new eth loss s)
  deposit_events_commute e a new eth loss s h =
      let is_idle : s ≡ idle s = ground arith in
      subst
        (λ x.
          (handle_user_deposit_changed b e a new (handle_eth_gain_withdrawn b e a eth loss x)
            ≡ settled e a new eth loss x)
          × (handle_eth_gain_withdrawn b e a eth loss (handle_user_deposit_changed b e a new x)
              ≡ settled e a new eth loss x))
        (sym is_idle) (gain_first e a new eth loss s, deposit_first e a new eth loss s)
