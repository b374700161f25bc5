-- ===== src/Subgraph.antt =====
-- packages/subgraph/src: the indexer's counters of Troves, and the status of every Trove. `Global` is a
-- single entity, so its operations map one to the next.
pub mod Counters
pub mod Decimals
pub mod Tables
pub mod Entities
pub mod History
pub mod SystemState
pub mod Closings
pub mod Troves
pub mod Accrual
pub mod Deposits
pub mod Stakes
pub mod Tokens
pub mod Handlers
use liquity.Common.{
  ℕ, suc, ◌+◌, ◌-◌, ◌==◌, Bool, true, false, not, Option, none, some, List, [], ◌∷◌, if◌then◌else◌,
  ◌&&◌,
}

-- entities/Global.ts: the counters of Troves among the fields of `Global`. A counter that is not
-- positive when it is decremented stays at 0 here.
pub record Global : Type 0 where
  pub number_of_open_troves : ℕ
  pub number_of_liquidated_troves : ℕ
  pub number_of_redeemed_troves : ℕ
  pub number_of_troves_closed_by_owner : ℕ
  pub total_number_of_troves : ℕ

-- A `Global` that `getGlobal` creates.
abbrev pub new_global : Global
new_global = record {
  number_of_open_troves = 0;
  number_of_liquidated_troves = 0;
  number_of_redeemed_troves = 0;
  number_of_troves_closed_by_owner = 0;
  total_number_of_troves = 0;
}

abbrev pub increase_number_of_open_troves : Global → Global
increase_number_of_open_troves g = record g {
  number_of_open_troves = suc g.number_of_open_troves;
  total_number_of_troves = suc g.total_number_of_troves;
}

abbrev pub increase_number_of_liquidated_troves : Global → Global
increase_number_of_liquidated_troves g = record g {
  number_of_liquidated_troves = suc g.number_of_liquidated_troves;
  number_of_open_troves = g.number_of_open_troves - 1;
}

abbrev pub decrease_number_of_liquidated_troves : Global → Global
decrease_number_of_liquidated_troves g = record g {
  number_of_liquidated_troves = g.number_of_liquidated_troves - 1;
  number_of_open_troves = suc g.number_of_open_troves;
}

abbrev pub increase_number_of_redeemed_troves : Global → Global
increase_number_of_redeemed_troves g = record g {
  number_of_redeemed_troves = suc g.number_of_redeemed_troves;
  number_of_open_troves = g.number_of_open_troves - 1;
}

abbrev pub decrease_number_of_redeemed_troves : Global → Global
decrease_number_of_redeemed_troves g = record g {
  number_of_redeemed_troves = g.number_of_redeemed_troves - 1;
  number_of_open_troves = suc g.number_of_open_troves;
}

abbrev pub increase_number_of_troves_closed_by_owner : Global → Global
increase_number_of_troves_closed_by_owner g = record g {
  number_of_troves_closed_by_owner = suc g.number_of_troves_closed_by_owner;
  number_of_open_troves = g.number_of_open_troves - 1;
}

abbrev pub decrease_number_of_troves_closed_by_owner : Global → Global
decrease_number_of_troves_closed_by_owner g = record g {
  number_of_troves_closed_by_owner = g.number_of_troves_closed_by_owner - 1;
  number_of_open_troves = suc g.number_of_open_troves;
}

-- The status of a Trove entity.
pub data Status : Type 0 where
  open_trove closed_by_owner closed_by_liquidation closed_by_redemption : Status

abbrev pub same : Status → Status → Bool
same open_trove open_trove = true
same closed_by_owner closed_by_owner = true
same closed_by_liquidation closed_by_liquidation = true
same closed_by_redemption closed_by_redemption = true
same _ _ = false

-- The counters' part of `setTroveStatus`, by the new status and the one before.
unfoldable pub reopen : Status → Global → Global
reopen closed_by_owner g = decrease_number_of_troves_closed_by_owner g
reopen closed_by_liquidation g = decrease_number_of_liquidated_troves g
reopen closed_by_redemption g = decrease_number_of_redeemed_troves g
reopen open_trove g = g

unfoldable pub count_status : Status → Status → Global → Global
unfolding reopen
count_status open_trove before g = reopen before g
count_status closed_by_owner before g = increase_number_of_troves_closed_by_owner g
count_status closed_by_liquidation before g = increase_number_of_liquidated_troves g
count_status closed_by_redemption before g = increase_number_of_redeemed_troves g

-- `setTroveStatus`: the new status, and the counters.
unfoldable pub set_trove_status : Status → Status → Global → Global
unfolding count_status
set_trove_status status before g =
    if not (same status before) then count_status status before g else g

-- The statuses of the Trove entities, in the order in which they were created, and the counters.
pub record Index : Type 0 where
  pub global : Global
  pub troves : List Status

-- `getTrove`, for an owner who has no Trove entity: it is open from the start.
unfoldable pub create_trove : Index → Index
create_trove s = record {
  global = increase_number_of_open_troves s.global;
  troves = open_trove ∷ s.troves;
}
