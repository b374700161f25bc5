-- ===== src/Trove/User/Equality.antt =====
-- `Trove.equals` and its overrides in the subclasses: they decide equality.
use text.Mathlib.TextEquality.{eq_iff}
use liquity.Common.{◌≡◌, arith, true, ◌↔◌}
use liquity.Trove
use liquity.Trove.{Trove}
use liquity.Trove.User.{
  UserTroveStatus, same_status, UserTrove, user_equals, PendingTrove, pending_equals,
}

pub equals_iff : (t u : Trove) → (Trove.equals t u ≡ true) ↔ (t ≡ u)
unfolding Trove.equals
equals_iff t u = ground arith

same_status_iff : (s t : UserTroveStatus) → (same_status s t ≡ true) ↔ (s ≡ t)
same_status_iff s t = ground arith

pub user_equals_iff : (t u : UserTrove) → (user_equals t u ≡ true) ↔ (t ≡ u)
unfolding user_equals
user_equals_iff t u =
    ground (arith, same_status_iff t.status u.status, eq_iff t.owner_address u.owner_address)

-- Two Troves with a pending redistribution compare as equal just when they are: owner, status,
-- collateral, debt, stake and snapshot.
pub pending_equals_iff : (t u : PendingTrove) → (pending_equals t u ≡ true) ↔ (t ≡ u)
unfolding pending_equals
pending_equals_iff t u = ground (
  arith,
  same_status_iff t.user.status u.user.status,
  eq_iff t.user.owner_address u.user.owner_address,
)
