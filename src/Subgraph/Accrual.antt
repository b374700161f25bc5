-- ===== src/Subgraph/Accrual.antt =====
-- packages/subgraph/src/entities/Trove.ts: the borrowing fee of the last change, and what a Trove
-- receives before it is liquidated.
use liquity.Common.{ℕ, ◌*◌, ◌-◌, ◌+◌, ◌/◌, Option, none, some, Result, ok, err, ◌>>=◌, null_value}
use liquity.Subgraph.Decimals.{BigDecimals, scaling_factor, decimalize}
use liquity.Subgraph.Entities.{
  Event, accrue_rewards, trove_change, Details, Change, Trove, History, Store,
}
use liquity.Subgraph.Tables.{load, save}
use liquity.Subgraph.Troves.{update_trove}

module _ (b : BigDecimals) where
  open b use {D, plus, minus, equals}

  -- The borrowing fee of a change, which must be one of a Trove
  unfoldable pub with_fee : D → Details D → Result (Details D)
  with_fee fee (trove_change d) = ok (trove_change (record d { borrowing_fee = some fee }))
  with_fee fee _ = err null_value

  unfoldable pub note_fee : D → ℕ → Option (Change D) → History D → Result (History D)
  note_fee fee n none h = err null_value
  note_fee fee n (some c) h = do
    details ← with_fee fee c.details
    ok (record h { changes = save n (record c { details = details }) h.changes })

  -- The fee is noted in the last change.
  unfoldable pub set_borrowing_fee_of_last_trove_change : ℕ → History D → Result (History D)
  set_borrowing_fee_of_last_trove_change fee h =
      let last = h.change_count - 1 in note_fee (decimalize b fee) last (load last h.changes) h

  -- What a Trove has received since its snapshots. The totals only grow, so none of them is less than
  -- a snapshot of it.
  abbrev pub redistributed : ℕ → ℕ → ℕ → ℕ
  redistributed total snapshot stake = (total - snapshot) * stake / scaling_factor

  -- The raw fields of a Trove that is not known yet are null.
  unfoldable pub accrue : Event → ℕ → Option (Trove D) → Store D → Result (Store D)
  accrue e borrower none s = err null_value
  accrue e borrower (some t) s =
      let p = s.population in
      update_trove b e accrue_rewards borrower
        (t.raw_collateral
          + redistributed p.raw_total_redistributed_collateral
              t.raw_snapshot_of_total_redistributed_collateral t.raw_stake)
        (t.raw_debt
          + redistributed p.raw_total_redistributed_debt t.raw_snapshot_of_total_redistributed_debt
              t.raw_stake)
        0 s

  unfoldable pub apply_redistribution_to_trove_before_liquidation :
      Event → ℕ → Store D → Result (Store D)
  apply_redistribution_to_trove_before_liquidation e borrower s =
      accrue e borrower (load borrower s.population.troves) s
