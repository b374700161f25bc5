-- ===== src/Subgraph/Troves.antt =====
-- packages/subgraph/src/entities/Trove.ts: the Troves, as the events of the contracts update them.
pub mod Counts
pub mod Indexed
pub mod Counted
pub mod Chained
pub mod Sums
pub mod Applied
pub mod Moves
pub mod Totals
use liquity.Common.{
  ℕ, ◌*◌, ◌-◌, ◌+◌, ◌/◌, ◌==◌, ◌&&◌, Bool, Option, none, some, if◌then◌else◌, Result, ok, err,
  ◌>>=◌, null_value,
}
use liquity.Common.Int.{ℤ, sub_ℕ}
use liquity.Subgraph.{
  increase_number_of_open_troves, Status, open_trove, closed_by_owner, closed_by_liquidation,
  closed_by_redemption, set_trove_status,
}
use liquity.Subgraph.Closings.{get_user, get_current_liquidation, get_current_redemption}
use liquity.Subgraph.Decimals.{
  BigDecimals, scaling_factor, decimal_zero, decimalize, calculate_collateral_ratio,
}
use liquity.Subgraph.Entities.{
  Event, TroveOperation, TroveChange, trove_change, Trove, Population, Store,
}
use liquity.Subgraph.History.{get_current_price, init_change, finish_change}
use liquity.Subgraph.SystemState.{
  is_liquidation, is_redemption, update_system_state_by_trove_change,
}
use liquity.Subgraph.Tables.{load, save}

-- `updateTotalRedistributed`
unfoldable pub update_total_redistributed : {D : Type 0} → ℕ → ℕ → Store D → Store D
update_total_redistributed l_eth l_lusd_debt s = record s {
  population = record s.population {
    raw_total_redistributed_collateral = l_eth;
    raw_total_redistributed_debt = l_lusd_debt;
  };
}

-- The status that an update leads to
abbrev pub status_after : TroveOperation → ℕ → Status
status_after op coll =
    if coll == 0
    then (if is_liquidation op
        then closed_by_liquidation
        else if is_redemption op
        then closed_by_redemption
        else closed_by_owner)
    else open_trove

module _ (b : BigDecimals) where
  open b use {D, plus, minus, equals}

  -- Its raw fields are set before it is saved.
  abbrev pub new_trove : ℕ → Trove D
  new_trove borrower = record {
    owner = borrower;
    status = open_trove;
    collateral = decimal_zero b;
    debt = decimal_zero b;
    raw_collateral = 0;
    raw_debt = 0;
    raw_stake = 0;
    raw_snapshot_of_total_redistributed_collateral = 0;
    raw_snapshot_of_total_redistributed_debt = 0;
    collateral_ratio_sort_key = none;
  }

  -- A new Trove is counted here, but saved by the caller.
  unfoldable pub get_trove : ℕ → Store D → Trove D × Store D
  get_trove borrower s = elim (load borrower s.population.troves) [
    | some t ↦ (t, s)
    | none ↦
        let (owner, users) = get_user b borrower s.users in
        (
          new_trove borrower,
          record s {
            users = save borrower (record owner { trove = some borrower }) users;
            population = record s.population {
              counters = increase_number_of_open_troves s.population.counters;
            };
          },
        )
  ]

  -- The change of a Trove to a new collateral and debt
  unfoldable pub change_of : TroveOperation → ℕ → Trove D → D → D → D → TroveChange D
  unfolding calculate_collateral_ratio
  change_of op borrower t coll debt price = record {
    trove = borrower;
    trove_operation = op;
    collateral_before = t.collateral;
    collateral_change = minus coll t.collateral;
    collateral_after = coll;
    debt_before = t.debt;
    debt_change = minus debt t.debt;
    debt_after = debt;
    borrowing_fee = none;
    collateral_ratio_before = calculate_collateral_ratio b t.collateral t.debt price;
    collateral_ratio_after = calculate_collateral_ratio b coll debt price;
    liquidation = none;
    redemption = none;
  }

  -- The change becomes part of the liquidation or the redemption that goes on.
  unfoldable pub link_liquidation : Event → TroveChange D → Store D → TroveChange D × Store D
  link_liquidation e c s =
      let (l, s') = get_current_liquidation b e s in
      if is_liquidation c.trove_operation
      then (record c { liquidation = some l.sequence_number }, s')
      else (c, s)

  unfoldable pub link_redemption : Event → TroveChange D → Store D → TroveChange D × Store D
  link_redemption e c s =
      let (r, s') = get_current_redemption b e s in
      if is_redemption c.trove_operation
      then (record c { redemption = some r.sequence_number }, s')
      else (c, s)

  unfoldable pub link : Event → TroveChange D → Store D → TroveChange D × Store D
  unfolding link_liquidation link_redemption
  link e c s = let (c', s') = link_liquidation e c s in link_redemption e c' s'

  -- The Trove after the update. `p` has the totals of the redistributions.
  unfoldable pub updated_trove : TroveOperation → ℕ → ℕ → ℕ → Population D → Trove D → Trove D
  updated_trove op coll debt stake p t = record {
    owner = t.owner;
    status = status_after op coll;
    collateral = decimalize b coll;
    debt = decimalize b debt;
    raw_collateral = coll;
    raw_debt = debt;
    raw_stake = stake;
    raw_snapshot_of_total_redistributed_collateral =
        if stake == 0 then 0 else p.raw_total_redistributed_collateral;
    raw_snapshot_of_total_redistributed_debt =
        if stake == 0 then 0 else p.raw_total_redistributed_debt;
    collateral_ratio_sort_key =
        if stake == 0
        then none
        else some (sub_ℕ (debt * scaling_factor / stake) p.raw_total_redistributed_debt);
  }

  -- `setTroveStatus` and `trove.save()`
  unfoldable pub save_trove : TroveOperation → ℕ → ℕ → ℕ → ℕ → Trove D → Population D → Population D
  unfolding updated_trove set_trove_status
  save_trove op borrower coll debt stake t p = record p {
    counters = set_trove_status (status_after op coll) t.status p.counters;
    troves = save borrower (updated_trove op coll debt stake p t) p.troves;
  }

  -- The end of `updateTrove`, from the update of the system's state on
  unfoldable pub record_trove_change :
      Event
      → ℕ × ℕ
      → TroveOperation
      → ℕ
      → ℕ
      → ℕ
      → ℕ
      → Trove D
      → TroveChange D
      → Store D
      → Result (Store D)
  record_trove_change e started op borrower coll debt stake t c s = do
    h ← update_system_state_by_trove_change b c s.history
    ok (record s {
      history = finish_change b started e.hash (trove_change c) h;
      population = save_trove op borrower coll debt stake t s.population;
    })

  -- `updateTrove` of a Trove that changes
  unfoldable pub change_trove :
      Event → TroveOperation → ℕ → ℕ → ℕ → ℕ → Trove D → Store D → Result (Store D)
  change_trove e op borrower coll debt stake t s = do
    let (started, s1) = init_change b e s
    (price, h) ← get_current_price b s1.history
    let (c, s2) =
        link e (change_of op borrower t (decimalize b coll) (decimalize b debt) price)
          (record s1 { history = h })
    record_trove_change e started op borrower coll debt stake t c s2

  -- `updateTrove` of a Trove that has been found or created
  unfoldable pub update_found :
      Event → TroveOperation → ℕ → ℕ → ℕ → ℕ → Trove D → Store D → Result (Store D)
  update_found e op borrower coll debt stake t s =
      if equals (decimalize b coll) t.collateral && equals (decimalize b debt) t.debt
      then ok s
      else change_trove e op borrower coll debt stake t s

  unfoldable pub update_trove : Event → TroveOperation → ℕ → ℕ → ℕ → ℕ → Store D → Result (Store D)
  update_trove e op borrower coll debt stake s =
      let (t, s') = get_trove borrower s in update_found e op borrower coll debt stake t s'
