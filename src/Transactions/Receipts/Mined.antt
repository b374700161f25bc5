-- ===== src/Transactions/Receipts/Mined.antt =====
-- `waitForReceipt`: what it returns or throws.
use mathlib.Core.Path.{subst}
use liquity.Common.{
  ◌≡◌, refl, sym, ap, ◌∙◌, ◌&&◌, Bool, true, false, inl, inr, Option, some, Bool-cases,
}
use liquity.Transactions.Receipts.{
  Reason, transaction_repriced, RawReceipt, RawError, Waited, resolves, throws, Outcome, returned,
  cancelled_error, rethrown, is_repriced, is_transaction_failed_error,
  is_transaction_replaced_error, throw_cancelled, wait_for_raw_receipt, Receipt, failed_receipt,
  successful_receipt, receipt_from, wait_for_receipt, assert_mined, then_do,
}
use liquity.Transactions.Receipts.Reasons.{
  IsFailure, IsReplaced, Replacing, by_cancelling, by_other, by_repricing, true-ne-false,
  IsFailure-test, test-IsFailure, IsReplaced-test, test-IsReplaced,
}

-- How ethers waits for a confirmation: it resolves with a receipt or throws, and it says of a
-- replacement whether it cancels. Nothing is asked of other errors.
pub data IsConfirmed : Waited → Type 0 where
  confirmed : (r : RawReceipt) → IsConfirmed (resolves (some r))
  refused :
      (e : RawError)
      → ((why : Reason) (cancels : Bool)
          → Replacing why cancels
          → IsReplaced e why
          → e.cancelled ≡ cancels)
      → IsConfirmed (throws e)

-- A receipt of r, with the details if the transaction was successful.
abbrev pub mined : {D : Type 0} → (RawReceipt → D) → RawReceipt → Receipt D
mined parse r = elim r.status [ true ↦ successful_receipt r (parse r) | false ↦ failed_receipt r ]

-- What is to be expected of `waitForReceipt`: a transaction that was mined, successfully or not, or
-- that was repriced, has a receipt; one that was cancelled or replaced is an error of its own; other
-- errors are thrown on.
pub data Expected {D : Type 0} (parse : RawReceipt → D)
    : Waited → Outcome (Receipt D) → Type 0 where
  when_mined : (r : RawReceipt) → Expected parse (resolves (some r)) (returned (mined parse r))
  when_failed :
      (e : RawError) → IsFailure e → Expected parse (throws e) (returned (mined parse e.receipt))
  when_repriced :
      (e : RawError)
      → IsReplaced e transaction_repriced
      → Expected parse (throws e) (returned (mined parse e.receipt))
  when_cancelled :
      (e : RawError) (why : Reason)
      → Replacing why true
      → IsReplaced e why
      → Expected parse (throws e) (cancelled_error e.receipt e)
  otherwise :
      (e : RawError)
      → ¬ IsFailure e
      → ((why : Reason) (cancels : Bool) → Replacing why cancels → ¬ IsReplaced e why)
      → Expected parse (throws e) (rethrown e)

module _ {D : Type 0} (parse : RawReceipt → D) where
  asserted :
      (r : RawReceipt) → assert_mined parse (receipt_from parse (some r)) ≡ returned (mined parse r)
  unfolding receipt_from
  asserted r = elim (Bool-cases r.status) [
    | inl ok_status ↦ rw ok_status refl
    | inr failed ↦ rw failed refl
  ]

  after_raw :
      (w : Waited) (outcome : Outcome (Option RawReceipt)) (f : Outcome (Receipt D))
      → wait_for_raw_receipt w ≡ outcome
      → then_do parse outcome (λ r. assert_mined parse (receipt_from parse r)) ≡ f
      → Expected parse w f
      → Expected parse w (wait_for_receipt parse w)
  unfolding wait_for_receipt
  after_raw w outcome f e g x =
      subst (λ o. Expected parse w o)
        (sym (ap (λ o. then_do parse o (λ r. assert_mined parse (receipt_from parse r))) e ∙ g)) x

  replaced :
      (e : RawError) (why : Reason) (cancels : Bool)
      → (e.is_error && is_transaction_failed_error e) ≡ false
      → (e.is_error && is_transaction_replaced_error e) ≡ true
      → Replacing why cancels
      → IsReplaced e why
      → e.cancelled ≡ cancels
      → Expected parse (throws e) (wait_for_receipt parse (throws e))
  unfolding wait_for_raw_receipt throw_cancelled
  replaced e why cancels nf test by_cancelling r c =
      after_raw (throws e) (cancelled_error e.receipt e) (cancelled_error e.receipt e)
        (rw (nf, test, c, ap is_repriced r.because) refl) refl (when_cancelled e _ by_cancelling r)
  replaced e why cancels nf test by_other r c =
      after_raw (throws e) (cancelled_error e.receipt e) (cancelled_error e.receipt e)
        (rw (nf, test, c, ap is_repriced r.because) refl) refl (when_cancelled e _ by_other r)
  replaced e why cancels nf test by_repricing r c =
      after_raw (throws e) (returned (some e.receipt)) (returned (mined parse e.receipt))
        (rw (nf, test, c) refl) (asserted e.receipt) (when_repriced e r)

  refusal :
      (e : RawError)
      → ((why : Reason) (cancels : Bool)
          → Replacing why cancels
          → IsReplaced e why
          → e.cancelled ≡ cancels)
      → Expected parse (throws e) (wait_for_receipt parse (throws e))
  unfolding wait_for_raw_receipt
  refusal e says = elim (Bool-cases (e.is_error && is_transaction_failed_error e)) [
    | inl failed ↦
        after_raw (throws e) (returned (some e.receipt)) (returned (mined parse e.receipt))
          (rw failed refl) (asserted e.receipt) (when_failed e (test-IsFailure e failed))
    | inr not_failed ↦ elim (Bool-cases (e.is_error && is_transaction_replaced_error e)) [
      | inl test ↦
          let (why, cancels, k, r) = test-IsReplaced e test in
          replaced e why cancels not_failed test k r (says why cancels k r)
      | inr not_replaced ↦
          after_raw (throws e) (rethrown e) (rethrown e) (rw (not_failed, not_replaced) refl) refl (
            otherwise e (λ f. true-ne-false (sym (IsFailure-test e f) ∙ not_failed))
              (λ why cancels k r.
                true-ne-false (sym (IsReplaced-test e why cancels k r) ∙ not_replaced)))
    ]
  ]

  -- When `wait` resolves with a receipt or throws, and says of a replacement that it cancels the
  -- transaction unless the reason is that it was repriced, `waitForReceipt` does what is to be
  -- expected of the code and the reason of what is thrown: it returns a receipt of a transaction that
  -- was mined, has failed or was repriced, throws an error of its own for one that was cancelled or
  -- replaced, and throws other errors on. It never returns a pending receipt, and none of its
  -- assertions fails.
  pub wait_for_receipt-Expected :
      (w : Waited) → IsConfirmed w → Expected parse w (wait_for_receipt parse w)
  unfolding wait_for_raw_receipt
  wait_for_receipt-Expected w (confirmed r) =
      after_raw (resolves (some r)) (returned (some r)) (returned (mined parse r)) refl (asserted r)
        (when_mined r)
  wait_for_receipt-Expected w (refused e c) = refusal e c
