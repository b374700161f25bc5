-- ===== src/Subgraph/Stakes.antt =====
-- packages/subgraph/src/entities/LqtyStake.ts: the stakes, and their counters in Global.ts. A counter
-- that is 0 when it is decremented stays at 0 here.
pub mod Counts
pub mod Counted
pub mod Chained
use liquity.Common.{ℕ, suc, ◌-◌, ◌==◌, ◌&&◌, Bool, true, false, Option, none, some, if◌then◌else◌}
use liquity.Subgraph.Closings.{get_user}
use liquity.Subgraph.Decimals.{BigDecimals, decimal_zero, decimalize}
use liquity.Subgraph.Entities.{
  Event, StakeOperation, stake_created, stake_increased, stake_decreased, stake_removed,
  gains_withdrawn, StakeChange, stake_change, User, Stake, Stakes, Store,
}
use liquity.Subgraph.History.{init_change, finish_change}
use liquity.Subgraph.SystemState.{update_system_state_by_lqty_stake_change}
use liquity.Subgraph.Tables.{Table, load, save}

module _ (b : BigDecimals) where
  open b use {D, minus, equals, greater}

  -- `getUserStake`, with the users that it leaves
  unfoldable pub get_user_stake : ℕ → Store D → Option (Stake D) × Table (User D)
  get_user_stake address s =
      let (user, users) = get_user b address s.users in
      (elim user.stake [ none ↦ none | some id ↦ load id s.stakes.stakes ], users)

  -- `createStake`: the new stake is saved by the caller.
  unfoldable pub create_stake : ℕ → Table (User D) → Stake D × Table (User D)
  create_stake address users =
      let (user, users') = get_user b address users in
      (
        record { owner = address; amount = decimal_zero b },
        save address (record user { stake = some address }) users',
      )

  -- The stake of a user, which is created if there is none
  unfoldable pub stake_of : ℕ → Store D → Stake D × Table (User D)
  stake_of address s =
      let (found, users) = get_user_stake address s in
      elim found [ some stake ↦ (stake, users) | none ↦ create_stake address users ]

  unfoldable pub get_operation_type : D → D → StakeOperation
  get_operation_type amount next_amount =
      if equals amount (decimal_zero b) && greater next_amount (decimal_zero b)
      then stake_created
      else if greater next_amount amount
      then stake_increased
      else if equals next_amount (decimal_zero b)
      then stake_removed
      else stake_decreased

  -- `increaseTotalNumberOfLQTYStakes` and its two siblings, by the operation
  unfoldable pub count_stakes : Bool → StakeOperation → Stakes D → Stakes D
  count_stakes true stake_created s = record s {
    total_number_of_lqty_stakes = suc s.total_number_of_lqty_stakes;
    number_of_active_lqty_stakes = suc s.number_of_active_lqty_stakes;
  }
  count_stakes false stake_created s = record s {
    number_of_active_lqty_stakes = suc s.number_of_active_lqty_stakes;
  }
  count_stakes _ stake_removed s = record s {
    number_of_active_lqty_stakes = s.number_of_active_lqty_stakes - 1;
  }
  count_stakes _ _ s = s

  -- From `startLQTYStakeChange` to the `save` of the stake
  unfoldable pub change_stake :
      Event → ℕ → Stake D → StakeChange D → Bool → Table (User D) → Store D → Store D
  unfolding count_stakes
  change_stake e address stake c is_first users s =
      let (started, s') = init_change b e (record s { users = users }) in
      let counted = count_stakes is_first c.stake_operation s'.stakes in
      record s' {
        stakes = record counted {
          stakes = save address (record stake { amount = c.staked_amount_after }) counted.stakes;
        };
        history =
            finish_change b started e.hash (stake_change c)
              (update_system_state_by_lqty_stake_change b c s'.history);
      }

  -- `updateStake` of a stake that has been found or created
  unfoldable pub restake : Event → ℕ → D → Bool → Stake D × Table (User D) → Store D → Store D
  restake e address next is_first (stake, users) s =
      change_stake e address stake
        (record {
          stake = address;
          stake_operation = get_operation_type stake.amount next;
          staked_amount_before = stake.amount;
          staked_amount_change = minus next stake.amount;
          staked_amount_after = next;
          issuance_gain = decimal_zero b;
          redemption_gain = decimal_zero b;
        })
        is_first users s

  abbrev pub is_none : Option (Stake D) → Bool
  is_none none = true
  is_none (some _) = false

  unfoldable pub update_stake : Event → ℕ → ℕ → Store D → Store D
  update_stake e address new_stake s =
      restake e address (decimalize b new_stake) (is_none (get_user_stake address s).0)
        (stake_of address s) s

  unfoldable pub withdraw_stake_gains : Event → ℕ → ℕ → ℕ → Store D → Store D
  withdraw_stake_gains e address lusd_gain eth_gain s =
      let (stake, users) = stake_of address s in
      if lusd_gain == 0 && eth_gain == 0
      then s
      else change_stake e address stake
          (record {
            stake = address;
            stake_operation = gains_withdrawn;
            staked_amount_before = stake.amount;
            staked_amount_change = decimal_zero b;
            staked_amount_after = stake.amount;
            issuance_gain = decimalize b lusd_gain;
            redemption_gain = decimalize b eth_gain;
          })
          false users s
