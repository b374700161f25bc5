-- ===== src/Readers/Polled/Derived.antt =====
-- The derived variables are what the composed reads answer at the block of a fetch.
use Prim.Native.String.{String}
use liquity.Common.{
  ℕ, ◌≡◌, sym, ap, ◌∙◌, Bool, false, Option, none, some, Result, ok, err, ok-injective, bind-ok,
  ◌>>=◌,
}
use liquity.Decimal.{Decimal}
use liquity.Fees.{Fees, new_fees, set_recovery_mode, borrowing_rate, redemption_rate}
use liquity.Trove.{collateral_ratio_is_below_critical, collateral_ratio_is_below_minimum}
use liquity.Trove.User.{UserTrove, apply_redistribution}
use liquity.LiquityStore.State.{BaseState, DerivedState}
use liquity.LiquityStore.Derive.{DerivedIds, ref, derive}
use liquity.BlockPolledStore.{ExtraState}
use liquity.Readers.Ethers.{Overrides, spread, Connection, Contracts}
use liquity.Readers.Ethers.Reads.{read_trove, read_fees, fees_factory}
use liquity.Readers.Fetch.{at_block, FeesFactory}
use liquity.Readers.Fetch.Fetched.{IsRead}

factory_mode :
    (k : Connection) (c : Contracts) (o : Option Overrides) (factory : FeesFactory) (f : Fees)
    (timestamp : ℕ) (recovery : Bool)
    → fees_factory k c o ≡ ok factory
    → factory timestamp false ≡ ok f
    → factory timestamp recovery ≡ set_recovery_mode f recovery
unfolding fees_factory new_fees set_recovery_mode
factory_mode k c o factory f timestamp recovery e h =
    let (time, _, h0) = bind-ok (c.last_fee_operation_time (spread o)) e in
    let (base, _, h1) = bind-ok (c.base_rate (spread o)) h0 in
    let made = ok-injective h1 in
    let (last, e2, h2) = bind-ok (c.to_number time) (ap (λ m. m timestamp false) made ∙ h) in
    sym (ap (λ m. m timestamp recovery) made)
    ∙ rw e2 (ap (λ g. set_recovery_mode g recovery) (ok-injective h2))

-- What `_derive` puts together at its end, when its calls succeed.
abbrev derived_rates :
    DerivedIds
    → Decimal
    → Fees
    → UserTrove
    → Result Decimal
    → Result Decimal
    → Result UserTrove
    → Result DerivedState
derived_rates ids price fees trove borrowing redemption riskiest = borrowing >>= λ borrowing.
    redemption >>= λ redemption. riskiest >>= λ riskiest. ok (record {
      trove = ref ids.trove trove;
      fees = ref ids.fees fees;
      borrowing_rate = ref ids.borrowing_rate borrowing;
      redemption_rate = ref ids.redemption_rate redemption;
      have_undercollateralized_troves = collateral_ratio_is_below_minimum riskiest.base price;
    })

rates_values :
    (ids : DerivedIds) (price : Decimal) (fees : Fees) (trove : UserTrove) (m n : Result Decimal)
    (t : Result UserTrove) (d : DerivedState)
    → derived_rates ids price fees trove m n t ≡ ok d
    → (fees ≡ d.fees.value) × (trove ≡ d.trove.value)
rates_values ids price fees trove (err e) n t d h = absurd cc
rates_values ids price fees trove (ok m) (err e) t d h = absurd cc
rates_values ids price fees trove (ok m) (ok n) (err e) d h = absurd cc
rates_values ids price fees trove (ok m) (ok n) (ok t) d h =
    let same = ok-injective h in (ap (λ d. d.fees.value) same, ap (λ d. d.trove.value) same)

derived_values :
    (ids : DerivedIds) (price : Decimal) (fees : Result Fees) (trove : Result UserTrove)
    (m n : Fees → Result Decimal) (t : Result UserTrove) (d : DerivedState)
    → (fees >>= λ f. trove >>= λ u. derived_rates ids price f u (m f) (n f) t) ≡ ok d
    → (fees ≡ ok d.fees.value) × (trove ≡ ok d.trove.value)
derived_values ids price (err e) trove m n t d h = absurd cc
derived_values ids price (ok f) (err e) m n t d h = absurd cc
derived_values ids price (ok f) (ok u) m n t d h =
    let p = rates_values ids price f u (m f) (n f) t d h in (ap (λ v. ok v) p.0, ap (λ v. ok v) p.1)

module _ (k : Connection) (c : Contracts) (u f : String) (tag : Option ℕ) (b : BaseState)
    (x : ExtraState FeesFactory) (ids : DerivedIds) (d : DerivedState)
    (derived : derive ids b ≡ ok d) (r : IsRead k c u f tag b x) where
  derive-values :
      (set_recovery_mode b.fees_in_normal_mode.value
          (collateral_ratio_is_below_critical b.total.value b.price.value)
        ≡ ok d.fees.value)
      × (apply_redistribution b.trove_before_redistribution.value b.total_redistributed.value
          ≡ ok d.trove.value)
  unfolding derive
  derive-values =
      derived_values ids b.price.value
        (set_recovery_mode b.fees_in_normal_mode.value
          (collateral_ratio_is_below_critical b.total.value b.price.value))
        (apply_redistribution b.trove_before_redistribution.value b.total_redistributed.value)
        (λ f. borrowing_rate f none) (λ f. redemption_rate f 0 none)
        (apply_redistribution b.riskiest_trove_before_redistribution.value
          b.total_redistributed.value)
        d derived

  pub read_trove-derived : read_trove k c (some u) (at_block tag) ≡ ok d.trove.value
  unfolding read_trove
  read_trove-derived = rw (r.trove_before_redistribution, r.total_redistributed) derive-values.1

  pub read_fees-derived : read_fees k c (at_block tag) ≡ ok d.fees.value
  unfolding read_fees
  read_fees-derived =
      rw (r.factory, r.total, r.price, r.block_timestamp)
        (factory_mode k c (at_block tag) x.fees_factory b.fees_in_normal_mode.value
            x.block_timestamp (collateral_ratio_is_below_critical b.total.value b.price.value)
            r.factory r.fees_in_normal_mode
          ∙ derive-values.0)
