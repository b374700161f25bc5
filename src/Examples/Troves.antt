-- ===== src/Examples/Troves.antt =====
-- Runs of the operations of Trove, and its theorems at concrete inputs.
use liquity.Common.{
  ◌*◌, ◌^◌, ◌≤◌, ◌<◌, ◌≡◌, ◌≢◌, ◌↔◌, refl, arith, true, false, ap, some, List, [], ◌∷◌, ok, err,
  net_debt_below_reserve,
}
use liquity.Decimal.{Decimal, one, half, mul_div}
use liquity.Constants.{minimum_collateral_ratio}
use liquity.Trove.{
  Trove, trove, empty_trove, is_empty, collateral_ratio_is_below_minimum,
  collateral_ratio_is_below_critical,
}
use liquity.Trove.Ratio.{IsBelow, collateral_ratio_is_below_minimum_iff}
use liquity.Trove.Change.{
  both, repay_lusd, withdraw_collateral, CreationParams, AdjustmentParams, apply_fee, unapply_fee,
  what_changed,
}
use liquity.Trove.Change.Fee.{unapply_fee-le_iff}
use liquity.Trove.Change.RoundTrip.{
  Recovers, Reaches, IsClosable, what_changed-apply, what_changed-err_iff,
}
use liquity.Trove.Params.{create, recreate, adjust, adjust_to, normalize_adjustment}
use liquity.Trove.Params.Create.{creation_entries, create-recreate}
use liquity.Trove.Params.Adjust.{entries_of, adjust-adjust_to, normalize_adjustment-entries_of}
use liquity.Trove.User.{UserTrove, PendingTrove, open_trove, pending_equals}
use liquity.Trove.User.Equality.{pending_equals_iff}
use liquity.Trove.User.Redistribution.{apply_all, Conserves, apply_all-Conserves}

abbrev rate : Decimal
rate = 5 * 10 ^ 15

abbrev small : Trove
small = trove one (6 * one)

abbrev large : Trove
large = trove (2 * one) (10 * one)

closable : IsClosable small large
closable = λ _ _. omega arith

what_changed-apply_example : Recovers rate small large (what_changed small large rate)
what_changed-apply_example = what_changed-apply small large rate closable

what_changed-err_iff_example :
    (what_changed (trove one 3) empty_trove rate ≡ err net_debt_below_reserve) ↔ (
      (net_debt_below_reserve ≡ net_debt_below_reserve)
      × (is_empty (trove one 3) ≡ false)
      × (is_empty empty_trove ≡ true)
      × (3 < 10 ^ 17))
what_changed-err_iff_example =
    what_changed-err_iff (trove one 3) empty_trove rate net_debt_below_reserve

unapply_fee-le_iff_example : (unapply_fee rate one ≤ one) ↔ (one ≤ apply_fee rate one)
unapply_fee-le_iff_example = unapply_fee-le_iff rate one one

small-not-large : small ≢ large
small-not-large e = let p = ap (λ (t : Trove). t.debt) e in omega arith

adjust-adjust_to_example :
    (p : AdjustmentParams) × (adjust_to small large rate ≡ ok p)
    × (r : Trove) × (adjust small (entries_of p) rate ≡ ok r)
    × Reaches rate small large r
adjust-adjust_to_example = adjust-adjust_to small large rate refl refl small-not-large

normalize_adjustment-entries_of_example :
    normalize_adjustment (entries_of (both (repay_lusd 3) (withdraw_collateral 4)))
    ≡ ok (both (repay_lusd 3) (withdraw_collateral 4))
normalize_adjustment-entries_of_example =
    normalize_adjustment-entries_of (both (repay_lusd 3) (withdraw_collateral 4))
      (omega arith, omega arith)

create-recreate_example :
    (p : CreationParams) × (recreate large rate ≡ ok p)
    × (r : Trove) × (create (creation_entries (some p.deposit) (some p.borrow)) rate ≡ ok r)
    × Reaches rate empty_trove large r
create-recreate_example = create-recreate large rate (omega arith)

collateral_ratio_is_below_minimum_iff_example :
    (collateral_ratio_is_below_minimum small (5 * one) ≡ true)
    ↔ IsBelow minimum_collateral_ratio (5 * one) small
collateral_ratio_is_below_minimum_iff_example =
    collateral_ratio_is_below_minimum_iff small (5 * one)

small_healthy : collateral_ratio_is_below_critical small (100 * one) ≡ false
unfolding collateral_ratio_is_below_critical mul_div
small_healthy = refl

large_healthy : collateral_ratio_is_below_critical large (100 * one) ≡ false
unfolding collateral_ratio_is_below_critical mul_div
large_healthy = refl

abbrev alice : PendingTrove
alice = record {
  user = record { owner_address = "0xa"; status = open_trove; base = small };
  stake = one;
  snapshot_of_total_redistributed = trove 3 4;
}

abbrev bob : PendingTrove
bob = record {
  user = record { owner_address = "0xb"; status = open_trove; base = large };
  stake = 2 * one;
  snapshot_of_total_redistributed = trove 3 4;
}

pending_equals_iff_example : (pending_equals alice bob ≡ true) ↔ (alice ≡ bob)
pending_equals_iff_example = pending_equals_iff alice bob

apply_all-Conserves_example :
    (us : List UserTrove) × (apply_all (alice ∷ bob ∷ []) (trove half one) ≡ ok us)
    × Conserves (trove 3 4) (trove half one) (alice ∷ bob ∷ []) us
apply_all-Conserves_example =
    apply_all-Conserves (alice ∷ bob ∷ []) (trove 3 4) (trove half one) (refl, (refl, tt))
