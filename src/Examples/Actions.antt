-- ===== src/Examples/Actions.antt =====
-- A list of two Troves, hints for a Trove in it, and a run of the Trove's views.
use Prim.Native.String.{String}
use text.Mathlib.Text.{◌==◌ as str_eq}
use text.Mathlib.TextEquality.{eq_iff}
use liquity.Common.{
  ℕ, ◌*◌, ◌≡◌, ◌≢◌, ◌↔◌, ◌⊎◌, inl, refl, sym, ap, ◌∙◌, arith, Bool, true, false, none, some, List,
  [], ◌∷◌, ok, ok-injective, if◌then◌else◌,
}
use liquity.Decimal.{digits}
use liquity.Readers.Fetch.{address_zero}
use liquity.Transactions.{
  SortedTroves, trials, generate_trials, root_up, best, collect, jump_over, avoid_zero, hints_from,
  find_hints, given, normalize_optional_params,
}
use liquity.Transactions.Trials.{sum, AreModest, generate_trials-AreModest}
use liquity.Transactions.Hints.{IsLinked, find_hints-other}
use liquity.Transactions.Receipts.{
  Reason, RawError, transaction_replaced, transaction_repriced, resolves, throws, returned,
  pending_receipt, successful_receipt, is_transaction_failed_error, is_transaction_replaced_error,
  wait_for_raw_receipt, receipt_from, get_receipt, wait_for_receipt,
}
use liquity.Transactions.Receipts.Reasons.{
  Replacing, by_cancelling, by_other, by_repricing, IsReplaced,
}
use liquity.Transactions.Receipts.Mined.{refused, Expected, wait_for_receipt-Expected}
use liquity.Trove.User.{open_trove, closed_by_liquidation}
use liquity.Views.{
  liquidated_view, adjust_trove_pressed, close_trove_pressed, trove_closed, get_initial_view,
  transition, transitions, on_status, trove_status_events,
}
use liquity.Views.Fitting.{fits, as_told, closes, acts, confirms, here, next, Reach-fits}

generate_trials-AreModest_example :
    (ts : List ℕ) × (generate_trials 6000 ≡ ok ts) × (sum ts ≡ 6000) × AreModest ts
generate_trials-AreModest_example = generate_trials-AreModest 6000 (omega arith)

three_calls : generate_trials 6000 ≡ ok (2500 ∷ 2500 ∷ 1000 ∷ [])
unfolding generate_trials trials
three_calls = refl

-- The list is 0xa, 0xb; the search for 0xb ends between the two, and after 0xb, which is jumped over,
-- there is none. As the contract does, the list answers the zero address where there is no neighbour.
abbrev first : String
first = "0xa"

abbrev second : String
second = "0xb"

abbrev before : String → String
before a = if str_eq a second then first else address_zero

abbrev after : String → String
after a = if str_eq a first then second else address_zero

abbrev list : SortedTroves
list = record {
  get_approx_hint = λ ratio n seed. ok (record { diff = seed; hint_address = second }, seed * 2);
  find_insert_position = λ ratio p n. ok (first, second);
  get_first = ok first;
  get_prev = λ a. ok (before a);
  get_next = λ a. ok (after a);
}

impossible : false ≡ true → ⊥
impossible h = cc

first-second : first ≢ second
first-second e = impossible ((eq_iff first second).1 e)

second-zero : second ≢ address_zero
second-zero e = impossible ((eq_iff second address_zero).1 e)

-- The neighbour of m is another address, and so is that of any other owner.
neighbour-ne :
    (m x a : String) (b : Bool)
    → ((b ≡ true) ↔ (a ≡ m))
    → x ≢ m
    → a ≢ address_zero
    → (if b then x else address_zero) ≢ a
neighbour-ne m x a true h ne real e = ne (e ∙ h.0 refl)
neighbour-ne m x a false h ne real e = real (sym e)

place-differs :
    (p n : String)
    → list.find_insert_position 0 first first ≡ ok (p, n)
    → (p ≢ n) ⊎ (p ≡ address_zero)
place-differs p n e =
    let same = ok-injective e in
    inl (λ f. first-second (ap (λ x. x.0) same ∙ f ∙ sym (ap (λ x. x.1) same)))

list-IsLinked : IsLinked list
list-IsLinked = record {
  prev_other = λ a p real e. λ f.
      neighbour-ne second first a (str_eq a second) (eq_iff a second) first-second real
        (ok-injective e ∙ f);
  next_other = λ a n real e. λ f.
      neighbour-ne first second a (str_eq a first) (eq_iff a first) (λ g. first-second (sym g)) real
        (ok-injective e ∙ f);
  position_differs = λ ratio h p n e. place-differs p n e;
}

found : find_hints list 2 1 (150 * digits) (some second) ≡ ok (first, first)
unfolding find_hints generate_trials trials root_up collect hints_from best jump_over avoid_zero
found = refl

find_hints-other_example :
    ((first ≡ address_zero) ↔ (first ≡ address_zero)) × (first ≢ second) × (first ≢ second)
find_hints-other_example =
    find_hints-other list list-IsLinked 2 1 (150 * digits) second first first
      (λ e. absurd (ground arith)) (λ e. absurd (ground arith)) second-zero found

default_minutes : normalize_optional_params (given (some 7) none) none ≡ (7, 10)
unfolding normalize_optional_params
default_minutes = refl

-- While the user closes the Trove, the closing is confirmed before the status tells of it.
Reach-fits_example :
    fits
      (as_told true open_trove)
      (transition (transition (get_initial_view open_trove) close_trove_pressed) trove_closed)
    ≡ true
Reach-fits_example = Reach-fits (next (next here (acts closes)) (confirms {c = false}))

shown :
    on_status closed_by_liquidation (transition (get_initial_view open_trove) adjust_trove_pressed)
    ≡ liquidated_view
unfolding on_status transition transitions get_initial_view trove_status_events
shown = refl

-- A transaction that was repriced has the receipt of its replacement.
abbrev repriced_error : RawError
repriced_error = record {
  is_error = true;
  code = some transaction_replaced;
  reason = some transaction_repriced;
  cancelled = false;
  receipt = record { hash = 9; status = true };
}

repriced-cancels :
    (why : Reason) (cancels : Bool)
    → Replacing why cancels
    → IsReplaced repriced_error why
    → repriced_error.cancelled ≡ cancels
repriced-cancels why cancels by_cancelling r = let p = r.because in absurd cc
repriced-cancels why cancels by_other r = let p = r.because in absurd cc
repriced-cancels why cancels by_repricing r = refl

wait_for_receipt-Expected_example :
    Expected {D = ℕ}
      (λ r. r.hash)
      (throws repriced_error)
      (wait_for_receipt {D = ℕ} (λ r. r.hash) (throws repriced_error))
wait_for_receipt-Expected_example =
    wait_for_receipt-Expected {D = ℕ} (λ r. r.hash) (throws repriced_error)
      (refused repriced_error repriced-cancels)

replacement_receipt :
    wait_for_receipt {D = ℕ} (λ r. r.hash) (throws repriced_error)
    ≡ returned (successful_receipt repriced_error.receipt 9)
unfolding wait_for_receipt wait_for_raw_receipt is_transaction_failed_error
    is_transaction_replaced_error receipt_from
replacement_receipt = refl

not_mined_yet : get_receipt {D = ℕ} (λ r. r.hash) (resolves none) ≡ returned pending_receipt
unfolding get_receipt wait_for_raw_receipt receipt_from
not_mined_yet = refl
