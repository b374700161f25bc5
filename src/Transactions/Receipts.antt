-- ===== src/Transactions/Receipts.antt =====
-- packages/lib-ethers/src/PopulatableEthersLiquity.ts: `SentEthersLiquityTransaction`. What `wait` of
-- the sent transaction returns or throws is a parameter; a receipt is its number, and D is the type
-- of the details that are parsed from it.
pub mod Reasons
pub mod Mined
use liquity.Common.{ℕ, Bool, true, false, ◌&&◌, Option, none, some, if◌then◌else◌}

-- Ethers' receipt: `status` is 0 when the transaction has failed.
pub record RawReceipt : Type 0 where
  pub hash : ℕ
  pub status : Bool

-- `ErrorCode`, as far as it is told apart, and `_RawErrorReason`
pub data Code : Type 0 where
  call_exception transaction_replaced other_code : Code

pub data Reason : Type 0 where
  transaction_failed transaction_cancelled transaction_was_replaced transaction_repriced
        other_reason :
      Reason

-- What is thrown: `none` where it has no such property
pub record RawError : Type 0 where
  pub is_error : Bool
  pub code : Option Code
  pub reason : Option Reason
  pub cancelled : Bool
  pub receipt : RawReceipt

-- What `wait` does; it resolves with `null` only when it is asked for no confirmation.
pub data Waited : Type 0 where
  resolves : Option RawReceipt → Waited
  throws : RawError → Waited

-- The outcome of a function that waits
pub data Outcome (A : Type 0) : Type 0 where
  returned : A → Outcome A
  cancelled_error : RawReceipt → RawError → Outcome A
  assertion_error : Outcome A
  rethrown : RawError → Outcome A

abbrev pub has_code : Code → Option Code → Bool
has_code call_exception (some call_exception) = true
has_code transaction_replaced (some transaction_replaced) = true
has_code other_code (some other_code) = true
has_code _ _ = false

abbrev pub is_failed : Option Reason → Bool
is_failed (some transaction_failed) = true
is_failed _ = false

-- `transactionReplacementReasons.includes`
abbrev pub is_replacement : Option Reason → Bool
is_replacement (some transaction_cancelled) = true
is_replacement (some transaction_was_replaced) = true
is_replacement (some transaction_repriced) = true
is_replacement _ = false

abbrev pub is_repriced : Option Reason → Bool
is_repriced (some transaction_repriced) = true
is_repriced _ = false

-- `isTransactionFailedError`, `isTransactionReplacedError`
unfoldable pub is_transaction_failed_error : RawError → Bool
is_transaction_failed_error e = has_code call_exception e.code && is_failed e.reason

unfoldable pub is_transaction_replaced_error : RawError → Bool
is_transaction_replaced_error e = has_code transaction_replaced e.code && is_replacement e.reason

-- `new EthersTransactionCancelledError`, thrown: its constructor asserts the reason
unfoldable pub throw_cancelled : RawError → Outcome (Option RawReceipt)
throw_cancelled e = if is_repriced e.reason then assertion_error else cancelled_error e.receipt e

-- `_waitForRawReceipt`
unfoldable pub wait_for_raw_receipt : Waited → Outcome (Option RawReceipt)
unfolding is_transaction_failed_error is_transaction_replaced_error throw_cancelled
wait_for_raw_receipt (resolves r) = returned r
wait_for_raw_receipt (throws e) =
    if e.is_error && is_transaction_failed_error e
    then returned (some e.receipt)
    else if e.is_error && is_transaction_replaced_error e
    then (if e.cancelled then throw_cancelled e else returned (some e.receipt))
    else rethrown e

-- `LiquityReceipt`
pub data Receipt (D : Type 0) : Type 0 where
  pending_receipt : Receipt D
  failed_receipt : RawReceipt → Receipt D
  successful_receipt : RawReceipt → D → Receipt D

module _ {D : Type 0} (parse : RawReceipt → D) where
  -- `_receiptFrom`
  unfoldable pub receipt_from : Option RawReceipt → Receipt D
  receipt_from none = pending_receipt
  receipt_from (some r) = if r.status then successful_receipt r (parse r) else failed_receipt r

  abbrev pub assert_mined : Receipt D → Outcome (Receipt D)
  assert_mined pending_receipt = assertion_error
  assert_mined (failed_receipt r) = returned (failed_receipt r)
  assert_mined (successful_receipt r d) = returned (successful_receipt r d)

  abbrev pub then_do :
      Outcome (Option RawReceipt) → (Option RawReceipt → Outcome (Receipt D)) → Outcome (Receipt D)
  then_do (returned r) f = f r
  then_do (cancelled_error r e) f = cancelled_error r e
  then_do assertion_error f = assertion_error
  then_do (rethrown e) f = rethrown e

  -- `getReceipt`, which asks for no confirmation
  unfoldable pub get_receipt : Waited → Outcome (Receipt D)
  unfolding wait_for_raw_receipt receipt_from
  get_receipt w = then_do (wait_for_raw_receipt w) (λ r. returned (receipt_from r))

  -- `waitForReceipt`
  unfoldable pub wait_for_receipt : Waited → Outcome (Receipt D)
  unfolding wait_for_raw_receipt receipt_from
  wait_for_receipt w = then_do (wait_for_raw_receipt w) (λ r. assert_mined (receipt_from r))
