-- ===== src/Trove/Params/Create.antt =====
-- `Trove.create` and `Trove.recreate`.
use liquity.Common.{
  ◌+◌, ◌-◌, ◌≤◌, ◌<◌, ◌≡◌, refl, arith, Option, some, [], ◌∷◌, ok, err, assertion_failed,
}
use liquity.Decimal.{Decimal}
use liquity.Constants.{lusd_liquidation_reserve}
use liquity.Trove.{Trove, trove, empty_trove}
use liquity.Trove.Change.{CreationParams, apply_fee, unapply_fee, what_changed}
use liquity.Trove.Change.Fee.{apply_fee-unapply_fee}
use liquity.Trove.Change.RoundTrip.{Reaches}
use liquity.Trove.Params.{Entries, normalize_creation, create, recreate}

-- The object `{ depositCollateral, borrowLUSD }`.
abbrev pub creation_entries : Option Decimal → Option Decimal → Entries (Option Decimal)
creation_entries d b = ("depositCollateral", d) ∷ ("borrowLUSD", b) ∷ []

normalize_creation_lem :
    (p : CreationParams)
    → normalize_creation (creation_entries (some p.deposit) (some p.borrow)) ≡ ok p
unfolding normalize_creation
normalize_creation_lem p = refl

create_lem :
    (d b rate : Decimal)
    → create (creation_entries (some d) (some b)) rate
      ≡ ok (trove d (lusd_liquidation_reserve + apply_fee rate b))
unfolding create
create_lem d b rate = refl

recreate_lem :
    (that : Trove) (rate : Decimal)
    → lusd_liquidation_reserve ≤ that.debt
    → recreate that rate
      ≡ ok (record {
        deposit = that.collateral;
        borrow = unapply_fee rate (that.debt - lusd_liquidation_reserve);
      })
unfolding recreate what_changed
recreate_lem that rate h = ground arith

-- A Trove whose debt covers the liquidation reserve can be recreated: `recreate` finds parameters
-- with which `create` leads to exactly its collateral, and to its debt but for the fee's rounding.
pub create-recreate :
    (that : Trove) (rate : Decimal)
    → lusd_liquidation_reserve ≤ that.debt
    → (p : CreationParams) × (recreate that rate ≡ ok p)
      × (r : Trove) × (create (creation_entries (some p.deposit) (some p.borrow)) rate ≡ ok r)
      × Reaches rate empty_trove that r
create-recreate that rate h =
    let borrowed = unapply_fee rate (that.debt - lusd_liquidation_reserve) in
    (
      record { deposit = that.collateral; borrow = borrowed },
      recreate_lem that rate h,
      trove that.collateral (lusd_liquidation_reserve + apply_fee rate borrowed),
      create_lem that.collateral borrowed rate,
      ground (arith, apply_fee-unapply_fee rate (that.debt - lusd_liquidation_reserve)),
    )

-- Any other Trove cannot: an assertion fails.
pub recreate-err :
    (that : Trove) (rate : Decimal)
    → that.debt < lusd_liquidation_reserve
    → recreate that rate ≡ err assertion_failed
unfolding recreate what_changed
recreate-err that rate h = ground arith
