-- ===== src/Subgraph/Deposits.antt =====
-- packages/subgraph/src: entities/StabilityDeposit.ts, Frontend.ts, `updateUserClaimColl` of User.ts,
-- and mappings/StabilityPool.ts, which puts together what two events say of a deposit.
pub mod Ordered
pub mod Chained
use liquity.Common.{ℕ, ◌==◌, ◌&&◌, Bool, Option, none, some, if◌then◌else◌}
use liquity.Subgraph.Closings.{get_user}
use liquity.Subgraph.Decimals.{BigDecimals, decimal_zero, decimalize}
use liquity.Subgraph.Entities.{
  Event, DepositOperation, deposit_tokens, withdraw_tokens, withdraw_collateral_gain, DepositChange,
  deposit_change, SurplusChange, surplus_change, User, Deposit, Store,
}
use liquity.Subgraph.History.{init_change, finish_change}
use liquity.Subgraph.SystemState.{
  update_system_state_by_stability_deposit_change, update_system_state_by_coll_surplus_change,
}
use liquity.Subgraph.Tables.{load, save}

module _ (b : BigDecimals) where
  open b use {D, minus, equals, greater}

  abbrev new_deposit : ℕ → Deposit D
  new_deposit owner = record { owner = owner; deposited_amount = decimal_zero b; frontend = none }

  -- `getStabilityDeposit`: a new deposit is saved by the caller.
  unfoldable pub get_stability_deposit : ℕ → Store D → Deposit D × Store D
  get_stability_deposit user s = elim (load user s.deposits) [
    | some d ↦ (d, s)
    | none ↦
        let (owner, users) = get_user b user s.users in
        (
          new_deposit user,
          record s { users = save user (record owner { stability_deposit = some user }) users },
        )
  ]

  abbrev pub change_of_deposit : ℕ → Deposit D → DepositOperation → D → Option D → DepositChange D
  change_of_deposit user d op amount gain = record {
    stability_deposit = user;
    operation = op;
    deposited_amount_before = d.deposited_amount;
    deposited_amount_change = minus amount d.deposited_amount;
    deposited_amount_after = amount;
    collateral_gain = gain;
  }

  -- `updateStabilityDepositByOperation`, and the deposit's `save` that follows every call of it
  unfoldable pub update_stability_deposit_by_operation :
      Event → ℕ → Deposit D → DepositOperation → D → Option D → Store D → Store D
  update_stability_deposit_by_operation e user d op amount gain s =
      let (started, s') = init_change b e s in
      let c = change_of_deposit user d op amount gain in
      record s' {
        history =
            finish_change b started e.hash (deposit_change c)
              (update_system_state_by_stability_deposit_change b c s'.history);
        deposits = save user (record d { deposited_amount = amount }) s'.deposits;
      }

  unfoldable pub update_stability_deposit : Event → ℕ → ℕ → Store D → Store D
  update_stability_deposit e user amount s =
      let (d, s1) = get_stability_deposit user s in
      let new_amount = decimalize b amount in
      let (owner, users) = get_user b user s1.users in
      let s2 = record s1 { users = users } in
      if equals new_amount d.deposited_amount
      then s2
      else update_stability_deposit_by_operation e user (record d { frontend = owner.frontend })
          (if greater new_amount d.deposited_amount then deposit_tokens else withdraw_tokens)
          new_amount none s2

  unfoldable pub withdraw_collateral_gain_from_stability_deposit :
      Event → ℕ → ℕ → ℕ → Store D → Store D
  withdraw_collateral_gain_from_stability_deposit e user eth lusd_loss s =
      let (d, s') = get_stability_deposit user s in
      if eth == 0 && lusd_loss == 0
      then s
      else update_stability_deposit_by_operation e user d withdraw_collateral_gain
          (minus d.deposited_amount (decimalize b lusd_loss)) (some (decimalize b eth)) s'

  -- `swapTmpDepositUpdate`, with the value before
  unfoldable pub swap_tmp_deposit_update : ℕ → Store D → Option ℕ × Store D
  swap_tmp_deposit_update value s = (
    s.tmp_deposit_update,
    record s {
      tmp_deposit_update = elim s.tmp_deposit_update [ none ↦ some value | some _ ↦ none ];
    },
  )

  -- An update that waits, when both events have come
  unfoldable pub update_if_waiting : Event → ℕ → ℕ → Option ℕ → Store D → Store D
  update_if_waiting e depositor amount none s = s
  update_if_waiting e depositor amount (some _) s = update_stability_deposit e depositor amount s

  unfoldable pub handle_user_deposit_changed : Event → ℕ → ℕ → Store D → Store D
  unfolding swap_tmp_deposit_update update_if_waiting
  handle_user_deposit_changed e depositor new_deposit s =
      let (gain_withdrawn, s') = swap_tmp_deposit_update new_deposit s in
      update_if_waiting e depositor new_deposit gain_withdrawn s'

  -- The amount that waits, or none
  abbrev pub amount_of : Option ℕ → ℕ
  amount_of none = 0
  amount_of (some amount) = amount

  unfoldable pub handle_eth_gain_withdrawn : Event → ℕ → ℕ → ℕ → Store D → Store D
  unfolding swap_tmp_deposit_update update_if_waiting
  handle_eth_gain_withdrawn e depositor eth lusd_loss s =
      let (deposit_update, s1) = swap_tmp_deposit_update 0 s in
      let s2 = withdraw_collateral_gain_from_stability_deposit e depositor eth lusd_loss s1 in
      update_if_waiting e depositor (amount_of deposit_update) deposit_update s2

  abbrev pub change_of_surplus : ℕ → User D → D → SurplusChange D
  change_of_surplus borrower u new_surplus = record {
    user = borrower;
    coll_surplus_before = u.coll_surplus;
    coll_surplus_change = minus new_surplus u.coll_surplus;
    coll_surplus_after = new_surplus;
  }

  -- `updateUserClaimColl` of a user whose surplus changes
  unfoldable pub change_surplus : Event → ℕ → User D → D → Store D → Store D
  change_surplus e borrower u new_surplus s =
      let (started, s') = init_change b e s in
      let c = change_of_surplus borrower u new_surplus in
      record s' {
        history =
            finish_change b started e.hash (surplus_change c)
              (update_system_state_by_coll_surplus_change b c s'.history);
        users = save borrower (record u { coll_surplus = new_surplus }) s'.users;
      }

  unfoldable pub update_user_claim_coll : Event → ℕ → ℕ → Store D → Store D
  update_user_claim_coll e borrower surplus s =
      let (u, users) = get_user b borrower s.users in
      let new_surplus = decimalize b surplus in
      let s' = record s { users = users } in
      if equals new_surplus u.coll_surplus then s' else change_surplus e borrower u new_surplus s'

  -- `registerFrontend`, for the kickback rate of a frontend that is its owner's address
  unfoldable pub register_frontend : ℕ → ℕ → Store D → Store D
  register_frontend owner kickback_rate s = record s {
    users = (get_user b owner s.users).1;
    frontends = save owner (decimalize b kickback_rate) s.frontends;
  }

  unfoldable pub assign_frontend_to_depositor : ℕ → ℕ → Store D → Store D
  assign_frontend_to_depositor depositor frontend s = elim (load frontend s.frontends) [
    | none ↦ s
    | some _ ↦
        let (u, users) = get_user b depositor s.users in
        record s { users = save depositor (record u { frontend = some frontend }) users }
  ]
