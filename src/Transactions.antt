-- ===== src/Transactions.antt =====
-- packages/lib-ethers/src/PopulatableEthersLiquity.ts: what it computes before and after a transaction,
-- the hints for a Trove's place in the sorted list, and the parameters and receipts. The contracts
-- are a parameter, and so is the random seed.
pub mod Trials
pub mod Hints
pub mod Receipts
use Prim.Native.String.{String}
use text.Mathlib.Text.{◌==◌ as str_eq}
use liquity.Common.{
  ℕ, zero, suc, ◌+◌, ◌-◌, ◌*◌, Bool, true, false, not, Option, none, some, List, [], ◌∷◌, ◌++◌,
  ◌==◌, if◌then◌else◌, ltb, leb, Result, ok, err, ◌>>=◌, ◌>>◌, require, assertion_failed,
}
use liquity.Decimal.{Decimal, is_infinite, add}
use liquity.Readers.Fetch.{address_zero}

-- `maxNumberOfTrialsAtOnce`
abbrev pub max_number_of_trials_at_once : ℕ
max_number_of_trials_at_once = 2500

-- `Math.min(totalNumberOfTrials, maxNumberOfTrialsAtOnce)`
abbrev pub trials_now : ℕ → ℕ
trials_now total =
    if ltb total max_number_of_trials_at_once then total else max_number_of_trials_at_once

-- The loop of `generateTrials`, on fuel.
unfoldable pub trials : ℕ → ℕ → List ℕ
trials zero total = []
trials (suc fuel) total =
    let rest = trials fuel (total - trials_now total) in
    if total == 0 then [] else trials_now total ∷ rest

-- `generateTrials`; each round takes at least one trial, so there is fuel for all of them
unfoldable pub generate_trials : ℕ → Result (List ℕ)
unfolding trials
generate_trials total = do require (not (total == 0)) assertion_failed; ok (trials total total)

-- The least number from k on whose square reaches m, on fuel.
unfoldable pub root_up : ℕ → ℕ → ℕ → ℕ
root_up zero k m = k
root_up (suc fuel) k m = let rest = root_up fuel (suc k) m in if leb m (k * k) then k else rest

-- `Math.ceil(10 * Math.sqrt(numberOfTroves))`, without the rounding of floating-point numbers
abbrev pub total_number_of_trials : ℕ → ℕ
total_number_of_trials n = root_up (100 * n) 0 (100 * n)

-- A result of `getApproxHint`, and the seed for the next one
pub record ApproxHint : Type 0 where
  pub diff : ℕ
  pub hint_address : String

-- The functions of `sortedTroves` and `hintHelpers`
pub record SortedTroves : Type 0 where
  pub get_approx_hint : Decimal → (number_of_trials seed : ℕ) → Result (ApproxHint × ℕ)
  pub find_insert_position : Decimal → (prev next : String) → Result (String × String)
  pub get_first : Result String
  pub get_prev : String → Result String
  pub get_next : String → Result String

-- `results.reduce((a, b) => (a.diff.lt(b.diff) ? a : b))`, with a for the first one
unfoldable pub best : ApproxHint → List ApproxHint → ApproxHint
best a [] = a
best a (b ∷ rest) = best (if ltb a.diff b.diff then a else b) rest

-- An address compared with `===`
abbrev pub is_address : String → Option String → Bool
is_address a none = false
is_address a (some b) = str_eq a b

-- The zero address is no hint, unless there is no other.
unfoldable pub avoid_zero : String → String → String × String
avoid_zero prev next =
    if str_eq prev address_zero
    then (next, next)
    else if str_eq next address_zero
    then (prev, prev)
    else (prev, next)

module _ (troves : SortedTroves) where
  open troves use {get_approx_hint, find_insert_position, get_first, get_prev, get_next}

  -- The calls of `getApproxHint`, one after the other, each with the seed of the one before.
  unfoldable pub collect : Decimal → ℕ → List ℕ → Result (List ApproxHint)
  collect ratio seed [] = ok []
  collect ratio seed (n ∷ rest) = do
    answer ← get_approx_hint ratio n seed
    hints ← collect ratio answer.1 rest
    ok (answer.0 ∷ hints)

  -- The Trove that is reinserted is no hint: its neighbour takes its place.
  unfoldable pub jump_over : Option String → String → String → Result (String × String)
  jump_over own prev next =
      if is_address prev own
      then (get_prev prev >>= λ p. ok (p, next))
      else if is_address next own
      then (get_next next >>= λ n. ok (prev, n))
      else ok (prev, next)

  unfoldable pub hints_from : Decimal → Option String → List ApproxHint → Result (String × String)
  unfolding best jump_over avoid_zero
  hints_from ratio own [] = err assertion_failed
  hints_from ratio own (a ∷ rest) = do
    let hint = (best a rest).hint_address
    place ← find_insert_position ratio hint hint
    hints ← jump_over own place.0 place.1
    ok (avoid_zero hints.0 hints.1)

  -- `_findHintsForNominalCollateralRatio`, with the number of Troves and a random seed
  unfoldable pub find_hints : ℕ → ℕ → Decimal → Option String → Result (String × String)
  unfolding generate_trials collect hints_from root_up
  find_hints number_of_troves seed ratio own =
      if number_of_troves == 0
      then ok (address_zero, address_zero)
      else if is_infinite ratio
      then (get_first >>= λ first. ok (address_zero, first))
      else (generate_trials (total_number_of_trials number_of_troves) >>= λ batches.
          collect ratio seed batches >>= λ results. hints_from ratio own results)

-- `defaultBorrowingRateSlippageTolerance`, `defaultBorrowingFeeDecayToleranceMinutes`
abbrev pub default_borrowing_rate_slippage_tolerance : Decimal
default_borrowing_rate_slippage_tolerance = 5000000000000000

abbrev pub default_borrowing_fee_decay_tolerance_minutes : ℕ
default_borrowing_fee_decay_tolerance_minutes = 10

-- `Decimalish | BorrowingOperationOptionalParams | undefined`
pub data OptionalParams : Type 0 where
  not_given : OptionalParams
  max_rate : Decimal → OptionalParams
  given : (max_borrowing_rate : Option Decimal) (minutes : Option ℕ) → OptionalParams

-- `currentBorrowingRate?.add(…) ?? Decimal.ZERO`
abbrev pub default_max_rate : Option Decimal → Decimal
default_max_rate none = 0
default_max_rate (some rate) = add rate default_borrowing_rate_slippage_tolerance

abbrev or_default : {A : Type 0} → Option A → A → A
or_default none d = d
or_default (some a) d = a

-- `normalizeBorrowingOperationOptionalParams`: the maximum rate and the minutes
unfoldable pub normalize_optional_params : OptionalParams → Option Decimal → Decimal × ℕ
normalize_optional_params not_given current =
    (default_max_rate current, default_borrowing_fee_decay_tolerance_minutes)
normalize_optional_params (max_rate rate) current =
    (rate, default_borrowing_fee_decay_tolerance_minutes)
normalize_optional_params (given rate minutes) current = (
  or_default rate (default_max_rate current),
  or_default minutes default_borrowing_fee_decay_tolerance_minutes,
)
