-- ===== src/LiquityStore/Derive/News.antt =====
-- `_reduceDerived` and `difference`: what the listeners are told of the derived variables.
use mathlib.Core.Path.{subst}
use liquity.Common.{
  ◌≡◌, ◌≢◌, ◌⊎◌, ◌↔◌, inl, inr, refl, sym, ap, ◌∙◌, arith, Bool, true, false, Option, none, some,
  ok, bind-ok, ok-injective, if◌then◌else◌,
}
use liquity.Fees
use liquity.Fees.{Fees, set_recovery_mode, borrowing_rate, redemption_rate}
use liquity.Trove.{collateral_ratio_is_below_critical}
use liquity.Trove.User.{apply_redistribution}
use liquity.Trove.User.Equality.{user_equals_iff}
use liquity.LiquityStore.State.{Ref, BaseState, DerivedState, DerivedUpdate}
use liquity.LiquityStore.Reduce.{update_if_changed, silently_update_if_changed, changed}
use liquity.LiquityStore.Variable.{
  Decides, IsCoherent, eq_lem, fees_equals_iff, value-update, value-silently,
}
use liquity.LiquityStore.Derive.{
  DerivedIds, derive, update_fees, update_bool, reduce_derived, changed_bool, derived_difference,
}
use liquity.LiquityStore.Derive.Rates.{Describes}

-- What is told of a variable: its new object if its value has changed, and nothing otherwise.
abbrev pub Tells : {A : Type 0} → Ref A → Ref A → Option (Ref A) → Type 0
Tells prev next change =
    ((prev.value ≡ next.value) × (change ≡ none))
    ⊎ ((prev.value ≢ next.value) × (change ≡ some next))

-- The objects that `_derive` returns are objects of the old derived state, or other ones.
pub record IsCoherentDerived (d fresh : DerivedState) : Type 0 where
  pub trove : IsCoherent d.trove (some fresh.trove)
  pub fees : IsCoherent d.fees (some fresh.fees)
  pub borrowing_rate : IsCoherent d.borrowing_rate (some fresh.borrowing_rate)
  pub redemption_rate : IsCoherent d.redemption_rate (some fresh.redemption_rate)

-- Just the derived variables whose values have changed are told of.
pub record TellsDerived (d new : DerivedState) (change : DerivedUpdate) : Type 0 where
  pub trove : Tells d.trove new.trove change.trove
  pub fees : Tells d.fees new.fees change.fees
  pub borrowing_rate : Tells d.borrowing_rate new.borrowing_rate change.borrowing_rate
  pub redemption_rate : Tells d.redemption_rate new.redemption_rate change.redemption_rate
  pub have_undercollateralized_troves :
      ((d.have_undercollateralized_troves ≡ new.have_undercollateralized_troves)
        × (change.have_undercollateralized_troves ≡ none))
      ⊎ ((d.have_undercollateralized_troves ≢ new.have_undercollateralized_troves)
          × (change.have_undercollateralized_troves ≡ some new.have_undercollateralized_troves))

choice-Tells :
    {A : Type 0} (prev next : Ref A) (same : Bool)
    → ((same ≡ true) ↔ (prev.value ≡ next.value))
    → IsCoherent prev (some next)
    → let r = if same then prev else next in Tells prev r (changed r prev)
choice-Tells prev next true iff coherent = inl (refl, ground arith)
choice-Tells prev next false iff coherent = inr (λ e. ground arith, ground arith)

module _ {A : Type 0} {equals : A → A → Bool} (decides : Decides equals) where
  update-Tells :
      (prev next : Ref A)
      → IsCoherent prev (some next)
      → let r = update_if_changed equals prev (some next) in Tells prev r (changed r prev)
  unfolding update_if_changed
  update-Tells prev next coherent =
      choice-Tells prev next (equals prev.value next.value) (decides prev.value next.value) coherent

  silently-Tells :
      (prev next : Ref A)
      → IsCoherent prev (some next)
      → let r = silently_update_if_changed equals prev (some next) in Tells prev r (changed r prev)
  unfolding silently_update_if_changed
  silently-Tells prev next coherent =
      choice-Tells prev next (equals prev.value next.value) (decides prev.value next.value) coherent

-- The fees are compared the other way round.
update_fees_lem :
    (prev next : Ref Fees)
    → update_fees prev (some next) ≡ update_if_changed Fees.equals prev (some next)
unfolding update_fees update_if_changed
update_fees_lem prev next =
    ground (arith, fees_equals_iff prev.value next.value, fees_equals_iff next.value prev.value)

fees-Tells :
    (prev next : Ref Fees)
    → IsCoherent prev (some next)
    → let r = update_fees prev (some next) in Tells prev r (changed r prev)
fees-Tells prev next coherent =
    subst (λ r. Tells prev r (changed r prev)) (sym (update_fees_lem prev next))
      (update-Tells fees_equals_iff prev next coherent)

bool-tells :
    (prev next : Bool)
    → let r = update_bool prev (some next) in
      ((prev ≡ r) × (changed_bool r prev ≡ none)) ⊎ ((prev ≢ r) × (changed_bool r prev ≡ some r))
unfolding update_bool
bool-tells false false = inl (refl, refl)
bool-tells false true = inr ((λ e. cc), refl)
bool-tells true false = inr ((λ e. cc), refl)
bool-tells true true = inl (refl, refl)

pub reduce_derived-Tells :
    (d fresh : DerivedState)
    → IsCoherentDerived d fresh
    → let new = reduce_derived d fresh in TellsDerived d new (derived_difference new d)
unfolding reduce_derived derived_difference
reduce_derived-Tells d fresh c = record {
  trove = update-Tells user_equals_iff d.trove fresh.trove c.trove;
  fees = fees-Tells d.fees fresh.fees c.fees;
  borrowing_rate = silently-Tells eq_lem d.borrowing_rate fresh.borrowing_rate c.borrowing_rate;
  redemption_rate = silently-Tells eq_lem d.redemption_rate fresh.redemption_rate c.redemption_rate;
  have_undercollateralized_troves =
      bool-tells d.have_undercollateralized_troves fresh.have_undercollateralized_troves;
}

update_bool_lem : (prev next : Bool) → update_bool prev (some next) ≡ next
unfolding update_bool
update_bool_lem prev next = ground arith

-- What is derived keeps its values where old objects are kept.
pub reduce_derived-Describes :
    (b : BaseState) (d fresh : DerivedState)
    → Describes b fresh
    → Describes b (reduce_derived d fresh)
unfolding reduce_derived
reduce_derived-Describes b d fresh w =
    let trove = value-update user_equals_iff d.trove (some fresh.trove) in
    let fees =
      ap (λ (r : Ref Fees). r.value) (update_fees_lem d.fees fresh.fees)
      ∙ value-update fees_equals_iff d.fees (some fresh.fees) in
    let borrowing = value-silently eq_lem d.borrowing_rate (some fresh.borrowing_rate) in
    let redemption = value-silently eq_lem d.redemption_rate (some fresh.redemption_rate) in
    let risky =
      update_bool_lem d.have_undercollateralized_troves fresh.have_undercollateralized_troves in
    record {
      recovery = rw fees w.recovery;
      borrowing_free = rw (fees, borrowing) w.borrowing_free;
      borrowing_charged = rw (fees, borrowing) w.borrowing_charged;
      redemption = rw redemption w.redemption;
      trove = rw trove w.trove;
      risky = rw risky w.risky;
    }

-- The objects that `_derive` returns are its own.
pub derive-identities :
    (ids : DerivedIds) (b : BaseState) (fresh : DerivedState)
    → derive ids b ≡ ok fresh
    → (fresh.trove.identity ≡ ids.trove)
      × (fresh.fees.identity ≡ ids.fees)
      × (fresh.borrowing_rate.identity ≡ ids.borrowing_rate)
      × (fresh.redemption_rate.identity ≡ ids.redemption_rate)
unfolding derive
derive-identities ids b fresh e =
    let below = collateral_ratio_is_below_critical b.total.value b.price.value in
    let total = b.total_redistributed.value in
    let (fees, _, k) = bind-ok (set_recovery_mode b.fees_in_normal_mode.value below) e in
    let (trove, _, l) =
      bind-ok (apply_redistribution b.trove_before_redistribution.value total) k in
    let (borrowing, _, m) = bind-ok (borrowing_rate fees none) l in
    let (redemption, _, n) = bind-ok (redemption_rate fees 0 none) m in
    let (riskiest, _, o) =
      bind-ok (apply_redistribution b.riskiest_trove_before_redistribution.value total) n in
    let same = sym (ok-injective o) in
    (
      ap (λ x. x.trove.identity) same,
      ap (λ x. x.fees.identity) same,
      ap (λ x. x.borrowing_rate.identity) same,
      ap (λ x. x.redemption_rate.identity) same,
    )
