-- ===== src/Subgraph/Entities.antt =====
-- packages/subgraph/schema.graphql: the entities of the indexer, over the type of its decimals. An
-- address, a transaction's hash and a sequence number are numbers; an entity's identifier is the text
-- of one of them, and is that number here.
use liquity.Common.{ℕ, Bool, Option, none, []}
use liquity.Common.Int.{ℤ}
use liquity.Subgraph.{Global, new_global, Status}
use liquity.Subgraph.Tables.{Table}

-- `ethereum.Event`: the transaction, its block, and the contract that emitted the event
pub record Event : Type 0 where
  pub hash : ℕ
  pub from : ℕ
  pub block_number : ℕ
  pub timestamp : ℕ
  pub address : ℕ

pub data TroveOperation : Type 0 where
  open_trove_op close_trove_op adjust_trove_op accrue_rewards : TroveOperation
  liquidate_in_normal_mode liquidate_in_recovery_mode redeem_collateral : TroveOperation

pub data DepositOperation : Type 0 where
  deposit_tokens withdraw_tokens withdraw_collateral_gain : DepositOperation

pub data StakeOperation : Type 0 where
  stake_created stake_increased stake_decreased stake_removed gains_withdrawn : StakeOperation

pub record Transaction : Type 0 where
  pub sequence_number : ℕ
  pub block_number : ℕ
  pub timestamp : ℕ

pub record SystemState (D : Type 0) : Type 0 where
  pub sequence_number : ℕ
  pub price : Option D
  pub total_collateral : D
  pub total_debt : D
  pub total_collateral_ratio : Option D
  pub tokens_in_stability_pool : D
  pub coll_surplus_pool_balance : D
  pub total_lqty_tokens_staked : D

pub record TroveChange (D : Type 0) : Type 0 where
  pub trove : ℕ
  pub trove_operation : TroveOperation
  pub collateral_before : D
  pub collateral_change : D
  pub collateral_after : D
  pub debt_before : D
  pub debt_change : D
  pub debt_after : D
  pub borrowing_fee : Option D
  pub collateral_ratio_before : Option D
  pub collateral_ratio_after : Option D
  pub liquidation : Option ℕ
  pub redemption : Option ℕ

pub record DepositChange (D : Type 0) : Type 0 where
  pub stability_deposit : ℕ
  pub operation : DepositOperation
  pub deposited_amount_before : D
  pub deposited_amount_change : D
  pub deposited_amount_after : D
  pub collateral_gain : Option D

pub record StakeChange (D : Type 0) : Type 0 where
  pub stake : ℕ
  pub stake_operation : StakeOperation
  pub staked_amount_before : D
  pub staked_amount_change : D
  pub staked_amount_after : D
  pub issuance_gain : D
  pub redemption_gain : D

pub record SurplusChange (D : Type 0) : Type 0 where
  pub user : ℕ
  pub coll_surplus_before : D
  pub coll_surplus_change : D
  pub coll_surplus_after : D

-- The types that implement the interface `Change`, by the fields of their own
pub data Details (D : Type 0) : Type 0 where
  trove_change : TroveChange D → Details D
  price_change : D → Details D
  deposit_change : DepositChange D → Details D
  stake_change : StakeChange D → Details D
  surplus_change : SurplusChange D → Details D

pub record Change (D : Type 0) : Type 0 where
  pub sequence_number : ℕ
  pub transaction : ℕ
  pub system_state_before : ℕ
  pub system_state_after : ℕ
  pub details : Details D

pub record Trove (D : Type 0) : Type 0 where
  pub owner : ℕ
  pub status : Status
  pub collateral : D
  pub debt : D
  pub raw_collateral : ℕ
  pub raw_debt : ℕ
  pub raw_stake : ℕ
  pub raw_snapshot_of_total_redistributed_collateral : ℕ
  pub raw_snapshot_of_total_redistributed_debt : ℕ
  pub collateral_ratio_sort_key : Option ℤ

pub record User (D : Type 0) : Type 0 where
  pub trove : Option ℕ
  pub stability_deposit : Option ℕ
  pub stake : Option ℕ
  pub frontend : Option ℕ
  pub coll_surplus : D

pub record Deposit (D : Type 0) : Type 0 where
  pub owner : ℕ
  pub deposited_amount : D
  pub frontend : Option ℕ

pub record Stake (D : Type 0) : Type 0 where
  pub owner : ℕ
  pub amount : D

pub record Liquidation (D : Type 0) : Type 0 where
  pub sequence_number : ℕ
  pub transaction : ℕ
  pub liquidator : ℕ
  pub liquidated_collateral : D
  pub liquidated_debt : D
  pub coll_gas_compensation : D
  pub token_gas_compensation : D

pub record Redemption (D : Type 0) : Type 0 where
  pub sequence_number : ℕ
  pub transaction : ℕ
  pub redeemer : ℕ
  pub tokens_attempted_to_redeem : D
  pub tokens_actually_redeemed : D
  pub collateral_redeemed : D
  pub is_partial : Bool
  pub fee : D

-- The entities, each with the fields of `Global` that go with it
pub record History (D : Type 0) : Type 0 where
  pub system_state_count : ℕ
  pub change_count : ℕ
  pub current_system_state : Option ℕ
  pub system_states : Table (SystemState D)
  pub changes : Table (Change D)

pub record Population (D : Type 0) : Type 0 where
  pub counters : Global
  pub raw_total_redistributed_collateral : ℕ
  pub raw_total_redistributed_debt : ℕ
  pub troves : Table (Trove D)

pub record Stakes (D : Type 0) : Type 0 where
  pub total_number_of_lqty_stakes : ℕ
  pub number_of_active_lqty_stakes : ℕ
  pub stakes : Table (Stake D)

pub record Ledger : Type 0 where
  pub transaction_count : ℕ
  pub transactions : Table Transaction

pub record Closings (D : Type 0) : Type 0 where
  pub liquidation_count : ℕ
  pub redemption_count : ℕ
  pub current_liquidation : Option ℕ
  pub current_redemption : Option ℕ
  pub liquidations : Table (Liquidation D)
  pub redemptions : Table (Redemption D)
  pub total_redemption_fees_paid : D

pub record Store (D : Type 0) : Type 0 where
  pub history : History D
  pub ledger : Ledger
  pub closings : Closings D
  pub users : Table (User D)
  pub population : Population D
  pub total_borrowing_fees_paid : D
  pub stakes : Stakes D
  pub deposits : Table (Deposit D)
  pub tmp_deposit_update : Option ℕ
  pub frontends : Table D

-- No entity yet, and the `Global` that `getGlobal` creates.
module _ {D : Type 0} (zero_decimal : D) where
  abbrev pub new_history : History D
  new_history = record {
    system_state_count = 0;
    change_count = 0;
    current_system_state = none;
    system_states = [];
    changes = [];
  }

  abbrev pub new_store : Store D
  new_store = record {
    history = new_history;
    ledger = record { transaction_count = 0; transactions = [] };
    closings = record {
      liquidation_count = 0;
      redemption_count = 0;
      current_liquidation = none;
      current_redemption = none;
      liquidations = [];
      redemptions = [];
      total_redemption_fees_paid = zero_decimal;
    };
    users = [];
    population = record {
      counters = new_global;
      raw_total_redistributed_collateral = 0;
      raw_total_redistributed_debt = 0;
      troves = [];
    };
    total_borrowing_fees_paid = zero_decimal;
    stakes = record {
      total_number_of_lqty_stakes = 0;
      number_of_active_lqty_stakes = 0;
      stakes = [];
    };
    deposits = [];
    tmp_deposit_update = none;
    frontends = [];
  }
