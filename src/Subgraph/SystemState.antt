-- ===== src/Subgraph/SystemState.antt =====
-- packages/subgraph/src/entities/SystemState.ts: what the changes do to the system's totals.
use liquity.Common.{
  Bool, true, false, not, ◌||◌, Option, none, some, if◌then◌else◌, Result, ok, err, ◌>>=◌,
  null_value,
}
use liquity.Subgraph.Decimals.{
  BigDecimals, decimal_zero, decimal_one, decimal_precision, collateral_gas_compensation_divisor,
  calculate_collateral_ratio,
}
use liquity.Subgraph.Entities.{
  TroveOperation, open_trove_op, close_trove_op, adjust_trove_op, liquidate_in_normal_mode,
  liquidate_in_recovery_mode, redeem_collateral, withdraw_collateral_gain, SystemState, TroveChange,
  DepositChange, StakeChange, SurplusChange, History,
}
use liquity.Subgraph.History.{bump_system_state, get_current_system_state}

abbrev pub is_borrower_operation : TroveOperation → Bool
is_borrower_operation open_trove_op = true
is_borrower_operation close_trove_op = true
is_borrower_operation adjust_trove_op = true
is_borrower_operation _ = false

abbrev pub is_liquidation : TroveOperation → Bool
is_liquidation liquidate_in_normal_mode = true
is_liquidation liquidate_in_recovery_mode = true
is_liquidation _ = false

abbrev pub is_recovery_mode_liquidation : TroveOperation → Bool
is_recovery_mode_liquidation liquidate_in_recovery_mode = true
is_recovery_mode_liquidation _ = false

abbrev pub is_redemption : TroveOperation → Bool
is_redemption redeem_collateral = true
is_redemption _ = false

module _ (b : BigDecimals) where
  open b use {D, from_numeral, plus, minus, times, div, truncate, equals, greater}

  unfoldable pub try_to_offset_with_tokens_from_stability_pool :
      SystemState D → D → D → SystemState D
  try_to_offset_with_tokens_from_stability_pool st collateral_to_liquidate debt_to_liquidate =
      if not (greater debt_to_liquidate st.tokens_in_stability_pool)
      then record st {
        total_collateral = minus st.total_collateral collateral_to_liquidate;
        total_debt = minus st.total_debt debt_to_liquidate;
        tokens_in_stability_pool = minus st.tokens_in_stability_pool debt_to_liquidate;
      }
      else if greater st.tokens_in_stability_pool (decimal_zero b)
      then record st {
        total_collateral = minus st.total_collateral (
            truncate
              (div (times collateral_to_liquidate st.tokens_in_stability_pool) debt_to_liquidate)
              decimal_precision);
        total_debt = minus st.total_debt st.tokens_in_stability_pool;
        tokens_in_stability_pool = decimal_zero b;
      }
      else st

  -- The branch for a liquidation. A ratio that is null cannot be compared.
  unfoldable pub liquidate : TroveChange D → SystemState D → Result (SystemState D)
  unfolding try_to_offset_with_tokens_from_stability_pool
  liquidate c st =
      let compensation =
        truncate (div c.collateral_before (from_numeral collateral_gas_compensation_divisor))
          decimal_precision in
      let compensated = record st { total_collateral = minus st.total_collateral compensation } in
      let offset =
        try_to_offset_with_tokens_from_stability_pool compensated
          (minus c.collateral_before compensation) c.debt_before in
      if not (is_recovery_mode_liquidation c.trove_operation)
      then ok offset
      else elim c.collateral_ratio_before [
        | none ↦ err null_value
        | some ratio ↦ ok (if greater ratio (decimal_one b) then offset else compensated)
      ]

  -- What a change of a Trove does to the totals
  unfoldable pub apply_trove_change : TroveChange D → SystemState D → Result (SystemState D)
  apply_trove_change c st =
      if is_borrower_operation c.trove_operation || is_redemption c.trove_operation
      then ok (record st {
        total_collateral = plus st.total_collateral c.collateral_change;
        total_debt = plus st.total_debt c.debt_change;
      })
      else if is_liquidation c.trove_operation
      then liquidate c st
      else ok st

  -- The state with its collateral ratio at a price
  abbrev pub with_ratio : SystemState D → D → SystemState D
  with_ratio st price = record st {
    total_collateral_ratio = calculate_collateral_ratio b st.total_collateral st.total_debt price;
  }

  -- The ratio is taken at the state's price, which must be known.
  unfoldable pub save_totals : Option D → SystemState D → History D → Result (History D)
  save_totals none st h = err null_value
  save_totals (some price) st h = ok (bump_system_state b (with_ratio st price) h)

  unfoldable pub update_system_state_by_trove_change :
      TroveChange D → History D → Result (History D)
  update_system_state_by_trove_change c h =
      let (st, h') = get_current_system_state b h in
      apply_trove_change c st >>= λ st'. save_totals st'.price st' h'

  -- The other three change one total each, and cannot fail.
  abbrev pub bumped : (SystemState D → SystemState D) → History D → History D
  bumped f h = let (st, h') = get_current_system_state b h in bump_system_state b (f st) h'

  abbrev pub move_tokens : DepositChange D → SystemState D → SystemState D
  move_tokens c st = record st {
    tokens_in_stability_pool = elim c.operation [
      | withdraw_collateral_gain ↦ st.tokens_in_stability_pool
      | _ ↦ plus st.tokens_in_stability_pool c.deposited_amount_change
    ];
  }

  abbrev pub move_surplus : SurplusChange D → SystemState D → SystemState D
  move_surplus c st = record st {
    coll_surplus_pool_balance = plus st.coll_surplus_pool_balance c.coll_surplus_change;
  }

  abbrev pub move_stake : StakeChange D → SystemState D → SystemState D
  move_stake c st = record st {
    total_lqty_tokens_staked = plus st.total_lqty_tokens_staked c.staked_amount_change;
  }

  abbrev pub update_system_state_by_stability_deposit_change :
      DepositChange D → History D → History D
  update_system_state_by_stability_deposit_change c = bumped (move_tokens c)

  abbrev pub update_system_state_by_coll_surplus_change : SurplusChange D → History D → History D
  update_system_state_by_coll_surplus_change c = bumped (move_surplus c)

  abbrev pub update_system_state_by_lqty_stake_change : StakeChange D → History D → History D
  update_system_state_by_lqty_stake_change c = bumped (move_stake c)
