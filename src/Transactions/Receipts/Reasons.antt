-- ===== src/Transactions/Receipts/Reasons.antt =====
-- `isTransactionFailedError` and `isTransactionReplacedError`: which codes and reasons they accept.
use liquity.Common.{◌≡◌, refl, ◌&&◌, arith, Bool, true, false, Option, none, some}
use liquity.Transactions.Receipts.{
  Code, call_exception, transaction_replaced, other_code, Reason, transaction_failed,
  transaction_cancelled, transaction_was_replaced, transaction_repriced, other_reason, has_code,
  is_failed, is_replacement, RawError, is_transaction_failed_error, is_transaction_replaced_error,
}

-- An error says that the transaction was mined and failed.
pub record IsFailure (e : RawError) : Type 0 where
  pub an_error : e.is_error ≡ true
  pub excepted : e.code ≡ some call_exception
  pub failed : e.reason ≡ some transaction_failed

-- An error says that another transaction was mined in the place of this one, for a reason.
pub record IsReplaced (e : RawError) (why : Reason) : Type 0 where
  pub an_error : e.is_error ≡ true
  pub other_mined : e.code ≡ some transaction_replaced
  pub because : e.reason ≡ some why

-- The reasons of ethers for a replacement, with whether it cancels the transaction: it does, unless
-- the other transaction does the same at another price.
pub data Replacing : Reason → (cancels : Bool) → Type 0 where
  by_cancelling : Replacing transaction_cancelled true
  by_other : Replacing transaction_was_replaced true
  by_repricing : Replacing transaction_repriced false

pub true-ne-false : ¬ (true ≡ false)
true-ne-false e = cc

-- What the tests of an error tell
has_code-excepted : (c : Option Code) → has_code call_exception c ≡ true → c ≡ some call_exception
has_code-excepted none h = absurd cc
has_code-excepted (some call_exception) h = refl
has_code-excepted (some transaction_replaced) h = absurd cc
has_code-excepted (some other_code) h = absurd cc

has_code-replaced :
    (c : Option Code) → has_code transaction_replaced c ≡ true → c ≡ some transaction_replaced
has_code-replaced none h = absurd cc
has_code-replaced (some call_exception) h = absurd cc
has_code-replaced (some transaction_replaced) h = refl
has_code-replaced (some other_code) h = absurd cc

is_failed-reason : (r : Option Reason) → is_failed r ≡ true → r ≡ some transaction_failed
is_failed-reason none h = absurd cc
is_failed-reason (some transaction_failed) h = refl
is_failed-reason (some transaction_cancelled) h = absurd cc
is_failed-reason (some transaction_was_replaced) h = absurd cc
is_failed-reason (some transaction_repriced) h = absurd cc
is_failed-reason (some other_reason) h = absurd cc

is_replacement-reason :
    (r : Option Reason)
    → is_replacement r ≡ true
    → (why : Reason) × (cancels : Bool) × Replacing why cancels × (r ≡ some why)
is_replacement-reason none h = absurd cc
is_replacement-reason (some transaction_failed) h = absurd cc
is_replacement-reason (some transaction_cancelled) h =
    (transaction_cancelled, true, by_cancelling, refl)
is_replacement-reason (some transaction_was_replaced) h =
    (transaction_was_replaced, true, by_other, refl)
is_replacement-reason (some transaction_repriced) h =
    (transaction_repriced, false, by_repricing, refl)
is_replacement-reason (some other_reason) h = absurd cc

both_hold : (a b c : Bool) → (a && (b && c)) ≡ true → (a ≡ true) × (b ≡ true) × (c ≡ true)
both_hold a b c h = ground arith

pub IsFailure-test :
    (e : RawError) → IsFailure e → (e.is_error && is_transaction_failed_error e) ≡ true
unfolding is_transaction_failed_error
IsFailure-test e f = rw (f.an_error, f.excepted, f.failed) refl

pub test-IsFailure :
    (e : RawError) → (e.is_error && is_transaction_failed_error e) ≡ true → IsFailure e
unfolding is_transaction_failed_error
test-IsFailure e h =
    let (a, c, r) = both_hold e.is_error _ _ h in
    record {
      an_error = a;
      excepted = has_code-excepted e.code c;
      failed = is_failed-reason e.reason r;
    }

pub IsReplaced-test :
    (e : RawError) (why : Reason) (cancels : Bool)
    → Replacing why cancels
    → IsReplaced e why
    → (e.is_error && is_transaction_replaced_error e) ≡ true
unfolding is_transaction_replaced_error
IsReplaced-test e why cancels by_cancelling r = rw (r.an_error, r.other_mined, r.because) refl
IsReplaced-test e why cancels by_other r = rw (r.an_error, r.other_mined, r.because) refl
IsReplaced-test e why cancels by_repricing r = rw (r.an_error, r.other_mined, r.because) refl

pub test-IsReplaced :
    (e : RawError)
    → (e.is_error && is_transaction_replaced_error e) ≡ true
    → (why : Reason) × (cancels : Bool) × Replacing why cancels × IsReplaced e why
unfolding is_transaction_replaced_error
test-IsReplaced e h =
    let (a, c, r) = both_hold e.is_error _ _ h in
    let (why, cancels, k, because) = is_replacement-reason e.reason r in
    (
      why,
      cancels,
      k,
      record { an_error = a; other_mined = has_code-replaced e.code c; because = because },
    )
