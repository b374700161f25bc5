-- ===== src/LiquityStore/Derive.antt =====
-- packages/lib-base/src/LiquityStore.ts: `_derive` and `_reduceDerived`.
pub mod Rates
pub mod News
use liquity.Common.{
  ℕ, Bool, true, false, not, Option, none, some, if◌then◌else◌, Result, ok, err, ◌>>=◌,
}
use liquity.Decimal.{Decimal, eq}
use liquity.Fees
use liquity.Fees.{Fees, same_bool, set_recovery_mode, borrowing_rate, redemption_rate}
use liquity.Trove.{collateral_ratio_is_below_minimum, collateral_ratio_is_below_critical}
use liquity.Trove.User.{UserTrove, user_equals, apply_redistribution}
use liquity.LiquityStore.State.{Ref, BaseState, DerivedState, DerivedUpdate}
use liquity.LiquityStore.Reduce.{update_if_changed, silently_update_if_changed, changed}

-- The identities of the objects that a call of `_derive` returns.
pub record DerivedIds : Type 0 where
  pub trove : ℕ
  pub fees : ℕ
  pub borrowing_rate : ℕ
  pub redemption_rate : ℕ

abbrev pub ref : {A : Type 0} → ℕ → A → Ref A
ref i a = record { identity = i; value = a }

-- `_derive`
unfoldable pub derive : DerivedIds → BaseState → Result DerivedState
derive ids b = do
  fees ←
      set_recovery_mode b.fees_in_normal_mode.value
        (collateral_ratio_is_below_critical b.total.value b.price.value)
  trove ← apply_redistribution b.trove_before_redistribution.value b.total_redistributed.value
  borrowing ← borrowing_rate fees none
  redemption ← redemption_rate fees 0 none
  riskiest ←
      apply_redistribution b.riskiest_trove_before_redistribution.value b.total_redistributed.value
  ok (record {
    trove = ref ids.trove trove;
    fees = ref ids.fees fees;
    borrowing_rate = ref ids.borrowing_rate borrowing;
    redemption_rate = ref ids.redemption_rate redemption;
    have_undercollateralized_troves = collateral_ratio_is_below_minimum riskiest.base b.price.value;
  })

-- `_updateFees`, without the logging
unfoldable pub update_fees : Ref Fees → Option (Ref Fees) → Ref Fees
update_fees prev none = prev
update_fees prev (some next) = if not (Fees.equals next.value prev.value) then next else prev

-- `_updateIfChanged` with `strictEquals`, for a Boolean
unfoldable pub update_bool : Bool → Option Bool → Bool
update_bool prev none = prev
update_bool prev (some next) = if same_bool prev next then prev else next

-- `_reduceDerived`
unfoldable pub reduce_derived : DerivedState → DerivedState → DerivedState
unfolding update_fees update_bool update_if_changed silently_update_if_changed
reduce_derived d u = record {
  fees = update_fees d.fees (some u.fees);
  trove = update_if_changed user_equals d.trove (some u.trove);
  borrowing_rate = silently_update_if_changed eq d.borrowing_rate (some u.borrowing_rate);
  redemption_rate = silently_update_if_changed eq d.redemption_rate (some u.redemption_rate);
  have_undercollateralized_troves =
      update_bool d.have_undercollateralized_troves (some u.have_undercollateralized_troves);
}

abbrev pub changed_bool : Bool → Bool → Option Bool
changed_bool a b = if same_bool a b then none else some a

-- `difference`, for the derived variables
unfoldable pub derived_difference : DerivedState → DerivedState → DerivedUpdate
derived_difference a b = record {
  trove = changed a.trove b.trove;
  fees = changed a.fees b.fees;
  borrowing_rate = changed a.borrowing_rate b.borrowing_rate;
  redemption_rate = changed a.redemption_rate b.redemption_rate;
  have_undercollateralized_troves =
      changed_bool a.have_undercollateralized_troves b.have_undercollateralized_troves;
}
