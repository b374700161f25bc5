-- ===== src/Subgraph/Stakes/Chained.antt =====
-- The chain of changes under updates of stakes.
use liquity.Common.{in_either, ℕ, Bool, ◌&&◌, ◌==◌}
use liquity.Subgraph.Decimals.{BigDecimals}
use liquity.Subgraph.Entities.{Event, StakeChange, Stake, Store}
use liquity.Subgraph.History.{init_change}
use liquity.Subgraph.History.Chained.{start_change-HasBegun, finish-bumped}
use liquity.Subgraph.History.Links.{IsChained}
use liquity.Subgraph.Stakes.{change_stake, restake, update_stake, withdraw_stake_gains}
use liquity.Subgraph.SystemState.{move_stake}

module _ (b : BigDecimals) where
  open b use {D}

  change_stake-IsChained :
      (e : Event) (a : ℕ) (stake : Stake D) (c : StakeChange D) (first : Bool) (users : _)
      (s : Store D)
      → IsChained s.history
      → IsChained (change_stake b e a stake c first users s).history
  unfolding change_stake init_change
  change_stake-IsChained e a stake c first users s k =
      finish-bumped b _ e.hash _ (move_stake b c) _ (start_change-HasBegun b s.history k)

  pub update_stake-IsChained :
      (e : Event) (a n : ℕ) (s : Store D)
      → IsChained s.history
      → IsChained (update_stake b e a n s).history
  unfolding update_stake restake
  update_stake-IsChained e a n s k = change_stake-IsChained e a _ _ _ _ s k

  pub withdraw_stake_gains-IsChained :
      (e : Event) (a lusd eth : ℕ) (s : Store D)
      → IsChained s.history
      → IsChained (withdraw_stake_gains b e a lusd eth s).history
  unfolding withdraw_stake_gains
  withdraw_stake_gains-IsChained e a lusd eth s k =
      in_either (λ (x : Store D). IsChained x.history) (lusd == 0 && eth == 0) s _ k
        (change_stake-IsChained e a _ _ _ _ s k)
