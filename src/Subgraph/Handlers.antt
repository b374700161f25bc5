-- ===== src/Subgraph/Handlers.antt =====
-- packages/subgraph/src/mappings, and types/TroveOperation.ts: what each event of the contracts does
-- to the store. The handlers of tokens are in Tokens.
pub mod Chained
use liquity.Common.{ℕ, List, [], ◌∷◌, Result, ok, err, ◌>>=◌}
use liquity.Subgraph.Accrual.{
  set_borrowing_fee_of_last_trove_change, apply_redistribution_to_trove_before_liquidation,
}
use liquity.Subgraph.Closings.{finish_current_liquidation, finish_current_redemption}
use liquity.Subgraph.Decimals.{BigDecimals, decimalize}
use liquity.Subgraph.Deposits.{
  handle_user_deposit_changed, handle_eth_gain_withdrawn, update_user_claim_coll, register_frontend,
  assign_frontend_to_depositor,
}
use liquity.Subgraph.Entities.{
  Event, TroveOperation, open_trove_op, close_trove_op, adjust_trove_op, accrue_rewards,
  liquidate_in_normal_mode, liquidate_in_recovery_mode, redeem_collateral, Store,
}
use liquity.Subgraph.History.{update_price}
use liquity.Subgraph.Stakes.{update_stake, withdraw_stake_gains}
use liquity.Subgraph.Troves.{update_total_redistributed, update_trove}

pub data BorrowerOperation : Type 0 where
  open_trove close_trove adjust_trove : BorrowerOperation

abbrev pub get_trove_operation_from_borrower_operation : BorrowerOperation → TroveOperation
get_trove_operation_from_borrower_operation open_trove = open_trove_op
get_trove_operation_from_borrower_operation close_trove = close_trove_op
get_trove_operation_from_borrower_operation adjust_trove = adjust_trove_op

pub data TroveManagerOperation : Type 0 where
  apply_pending_rewards normal_liquidation recovery_liquidation redemption : TroveManagerOperation

abbrev pub get_trove_operation_from_trove_manager_operation : TroveManagerOperation → TroveOperation
get_trove_operation_from_trove_manager_operation apply_pending_rewards = accrue_rewards
get_trove_operation_from_trove_manager_operation normal_liquidation = liquidate_in_normal_mode
get_trove_operation_from_trove_manager_operation recovery_liquidation = liquidate_in_recovery_mode
get_trove_operation_from_trove_manager_operation redemption = redeem_collateral

-- The events that are handled, with their parameters
pub data Emitted : Type 0 where
  last_good_price_updated : (price : ℕ) → Emitted
  trove_updated_by_borrower :
      (borrower coll debt stake : ℕ) (operation : BorrowerOperation) → Emitted
  trove_updated_by_manager :
      (borrower coll debt stake : ℕ) (operation : TroveManagerOperation) → Emitted
  borrowing_fee_paid : (fee : ℕ) → Emitted
  trove_liquidated : (borrower : ℕ) → Emitted
  liquidation_finished : (coll debt coll_compensation lusd_compensation : ℕ) → Emitted
  redemption_finished : (attempted actual eth_sent eth_fee : ℕ) → Emitted
  l_terms_updated : (l_eth l_lusd_debt : ℕ) → Emitted
  user_deposit_changed : (depositor new_deposit : ℕ) → Emitted
  eth_gain_withdrawn : (depositor eth lusd_loss : ℕ) → Emitted
  frontend_registered : (frontend kickback_rate : ℕ) → Emitted
  frontend_tag_set : (depositor frontend : ℕ) → Emitted
  coll_balance_updated : (account new_balance : ℕ) → Emitted
  stake_changed : (staker new_stake : ℕ) → Emitted
  staking_gains_withdrawn : (staker lusd_gain eth_gain : ℕ) → Emitted

module _ (b : BigDecimals) where
  open b use {D, plus}

  -- `handleLUSDBorrowingFeePaid`, with `increaseTotalBorrowingFeesPaid`
  unfoldable pub handle_borrowing_fee_paid : ℕ → Store D → Result (Store D)
  handle_borrowing_fee_paid fee s = do
    h ← set_borrowing_fee_of_last_trove_change b fee s.history
    ok (record s {
      history = h;
      total_borrowing_fees_paid = plus s.total_borrowing_fees_paid (decimalize b fee);
    })

  unfoldable pub handle : Event → Emitted → Store D → Result (Store D)
  handle e (last_good_price_updated price) s = ok (update_price b e price s)
  handle e (trove_updated_by_borrower borrower coll debt stake op) s =
      update_trove b e (get_trove_operation_from_borrower_operation op) borrower coll debt stake s
  handle e (trove_updated_by_manager borrower coll debt stake op) s =
      update_trove b e (get_trove_operation_from_trove_manager_operation op) borrower coll debt
        stake s
  handle e (borrowing_fee_paid fee) s = handle_borrowing_fee_paid fee s
  handle e (trove_liquidated borrower) s =
      apply_redistribution_to_trove_before_liquidation b e borrower s
  handle e (liquidation_finished coll debt cc lc) s =
      ok (finish_current_liquidation b e coll debt cc lc s)
  handle e (redemption_finished attempted actual sent fee) s =
      ok (finish_current_redemption b e attempted actual sent fee s)
  handle e (l_terms_updated l_eth l_lusd_debt) s =
      ok (update_total_redistributed l_eth l_lusd_debt s)
  handle e (user_deposit_changed depositor deposit) s =
      ok (handle_user_deposit_changed b e depositor deposit s)
  handle e (eth_gain_withdrawn depositor eth loss) s =
      ok (handle_eth_gain_withdrawn b e depositor eth loss s)
  handle e (frontend_registered frontend rate) s = ok (register_frontend b frontend rate s)
  handle e (frontend_tag_set depositor frontend) s =
      ok (assign_frontend_to_depositor b depositor frontend s)
  handle e (coll_balance_updated account balance) s =
      ok (update_user_claim_coll b e account balance s)
  handle e (stake_changed staker new_stake) s = ok (update_stake b e staker new_stake s)
  handle e (staking_gains_withdrawn staker lusd_gain eth_gain) s =
      ok (withdraw_stake_gains b e staker lusd_gain eth_gain s)

  -- The events in their order; a handler that fails ends the indexing.
  unfoldable pub handle_all : List (Event × Emitted) → Store D → Result (Store D)
  unfolding handle
  handle_all [] s = ok s
  handle_all ((e, x) ∷ xs) s = handle e x s >>= handle_all xs
