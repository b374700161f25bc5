-- ===== src/Trove/User.antt =====
-- packages/lib-base/src/Trove.ts: `UserTrove` and `TroveWithPendingRedistribution`.
pub mod Equality
pub mod Redistribution
use Prim.Native.String.{String}
use text.Mathlib.Text.{◌==◌ as str_eq}
use liquity.Common.{
  ℕ, ◌+◌, ◌-◌, ◌*◌, ◌/◌, ◌≤◌, ◌≡◌, refl, arith, Bool, true, false, ◌&&◌, ◌↔◌, Result, ok, ◌>>=◌,
  ltb, ◌==◌, if◌then◌else◌,
}
use liquity.Decimal.{Decimal, digits, mul, eq, add}
use liquity.Trove
use liquity.Trove.{Trove, trove, plus, subtract, multiply}
use liquity.Trove.Laws.{subtract_lem}

-- `UserTroveStatus`
pub data UserTroveStatus : Type 0 where
  non_existent open_trove closed_by_owner closed_by_liquidation closed_by_redemption :
      UserTroveStatus

abbrev pub same_status : UserTroveStatus → UserTroveStatus → Bool
same_status non_existent non_existent = true
same_status open_trove open_trove = true
same_status closed_by_owner closed_by_owner = true
same_status closed_by_liquidation closed_by_liquidation = true
same_status closed_by_redemption closed_by_redemption = true
same_status _ _ = false

pub record UserTrove : Type 0 where
  pub owner_address : String
  pub status : UserTroveStatus
  pub base : Trove

unfoldable pub user_equals : UserTrove → UserTrove → Bool
unfolding Trove.equals
user_equals t u =
    Trove.equals t.base u.base
    && (str_eq t.owner_address u.owner_address && same_status t.status u.status)

pub record PendingTrove : Type 0 where
  pub user : UserTrove
  pub stake : Decimal
  pub snapshot_of_total_redistributed : Trove

unfoldable pub pending_equals : PendingTrove → PendingTrove → Bool
unfolding user_equals Trove.equals
pending_equals t u =
    user_equals t.user u.user
    && (eq t.stake u.stake
        && Trove.equals t.snapshot_of_total_redistributed u.snapshot_of_total_redistributed)

unfoldable pub apply_redistribution : PendingTrove → Trove → Result UserTrove
unfolding plus multiply
apply_redistribution t total = do
  gained ← subtract total t.snapshot_of_total_redistributed
  let after = plus t.user.base (multiply gained t.stake)
  ok (record {
    owner_address = t.user.owner_address;
    status = t.user.status;
    base = trove after.collateral after.debt;
  })
