-- ===== src/Trove/Params.antt =====
-- packages/lib-base/src/Trove.ts: the parameters of transactions, from and to Troves.
-- A parameter object is the list of its entries, in the order of `Object.entries`; a value is
-- `none` where it is `undefined`. Values are already converted by `Decimal.from`.
pub mod Adjust
pub mod Create
use Prim.Native.String.{String}
use text.Mathlib.Text.{◌==◌ as str_eq}
use liquity.Common.{
  Bool, true, false, ◌&&◌, ◌||◌, Option, none, some, List, [], ◌∷◌, if◌then◌else◌, Result, ok, err,
  ◌>>=◌, ◌>>◌, require, assertion_failed, creation_key_not_allowed, creation_key_missing,
  adjustment_key_not_allowed, both_collateral_changes, both_debt_changes, no_adjustment,
}
use liquity.Decimal.{Decimal, is_zero}
use liquity.Trove.{Trove, empty_trove}
use liquity.Trove.Change.{
  CollateralChange, deposit_collateral, withdraw_collateral, DebtChange, borrow_lusd, repay_lusd,
  CreationParams, AdjustmentParams, collateral_only, debt_only, both, TroveChange, creation,
  adjustment, what_changed, invalid_creation, closure,
}
use liquity.Trove.Change.Apply.{apply}

abbrev pub Entries : Type 0 → Type 0
Entries A = List (String × A)

-- `Object.entries(params).filter(valueIsDefined)`
unfoldable pub defined : Entries (Option Decimal) → Entries Decimal
defined [] = []
defined ((k, none) ∷ es) = defined es
defined ((k, some v) ∷ es) = (k, v) ∷ defined es

unfoldable pub includes : List String → String → Bool
includes [] k = false
includes (a ∷ rest) k = str_eq a k || includes rest k

unfoldable pub all_allowed : List String → Entries Decimal → Bool
unfolding includes
all_allowed keys [] = true
all_allowed keys ((k, v) ∷ es) = includes keys k && all_allowed keys es

-- `.filter(nonZero)`
unfoldable pub non_zero_entries : Entries Decimal → Entries Decimal
non_zero_entries [] = []
non_zero_entries ((k, v) ∷ es) =
    let rest = non_zero_entries es in if is_zero v then rest else (k, v) ∷ rest

-- `Object.fromEntries(entries)[key]`: a later entry replaces an earlier one.
unfoldable pub property : Entries Decimal → String → Option Decimal
property [] key = none
property ((k, v) ∷ es) key = elim (property es key) [
  | some later ↦ some later
  | none ↦ if str_eq k key then some v else none
]

abbrev pub allowed_creation_keys : List String
allowed_creation_keys = "depositCollateral" ∷ "borrowLUSD" ∷ []

abbrev pub allowed_adjustment_keys : List String
allowed_adjustment_keys =
    "depositCollateral" ∷ "withdrawCollateral" ∷ "borrowLUSD" ∷ "repayLUSD" ∷ []

-- `troveCreationParamsFromEntries`, for the two properties of the object
abbrev pub creation_params : Option Decimal → Option Decimal → Result CreationParams
creation_params (some d) (some b) = ok (record { deposit = d; borrow = b })
creation_params _ _ = err creation_key_missing

unfoldable pub normalize_creation : Entries (Option Decimal) → Result CreationParams
unfolding defined all_allowed property
normalize_creation params = do
  let entries = defined params
  require (all_allowed allowed_creation_keys entries) creation_key_not_allowed
  creation_params (property entries "depositCollateral") (property entries "borrowLUSD")

abbrev pub collateral_change_from :
    Option Decimal → Option Decimal → Result (Option CollateralChange)
collateral_change_from (some d) (some w) = err both_collateral_changes
collateral_change_from (some d) none = ok (some (deposit_collateral d))
collateral_change_from none (some w) = ok (some (withdraw_collateral w))
collateral_change_from none none = ok none

abbrev pub debt_change_from : Option Decimal → Option Decimal → Result (Option DebtChange)
debt_change_from (some b) (some r) = err both_debt_changes
debt_change_from (some b) none = ok (some (borrow_lusd b))
debt_change_from none (some r) = ok (some (repay_lusd r))
debt_change_from none none = ok none

abbrev pub combine : Option CollateralChange → Option DebtChange → Result AdjustmentParams
combine (some c) (some d) = ok (both d c)
combine (some c) none = ok (collateral_only c)
combine none (some d) = ok (debt_only d)
combine none none = err no_adjustment

unfoldable pub adjustment_params : Entries Decimal → Result AdjustmentParams
unfolding property
adjustment_params entries = do
  c ←
      collateral_change_from (property entries "depositCollateral")
        (property entries "withdrawCollateral")
  d ← debt_change_from (property entries "borrowLUSD") (property entries "repayLUSD")
  combine c d

unfoldable pub normalize_adjustment : Entries (Option Decimal) → Result AdjustmentParams
unfolding defined all_allowed non_zero_entries adjustment_params
normalize_adjustment params = do
  let entries = defined params
  require (all_allowed allowed_adjustment_keys entries) adjustment_key_not_allowed
  adjustment_params (non_zero_entries entries)

-- `Trove.create`
unfoldable pub create : Entries (Option Decimal) → Decimal → Result Trove
unfolding normalize_creation apply
create params rate = do p ← normalize_creation params; apply empty_trove (some (creation p)) rate

abbrev pub assert_creation : Option TroveChange → Result CreationParams
assert_creation (some (creation p)) = ok p
assert_creation _ = err assertion_failed

unfoldable pub recreate : Trove → Decimal → Result CreationParams
recreate that rate = do c ← what_changed empty_trove that rate; assert_creation c

-- `Trove.adjust` drops `setToZero`: the change that it applies has none.
unfoldable pub adjust : Trove → Entries (Option Decimal) → Decimal → Result Trove
unfolding apply
adjust t params rate = do p ← normalize_adjustment params; apply t (some (adjustment p none)) rate

abbrev pub assert_adjustment : Option TroveChange → Result AdjustmentParams
assert_adjustment (some (adjustment p z)) = ok p
assert_adjustment _ = err assertion_failed

unfoldable pub adjust_to : Trove → Trove → Decimal → Result AdjustmentParams
adjust_to t that rate = do c ← what_changed t that rate; assert_adjustment c
