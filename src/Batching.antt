-- ===== src/Batching.antt =====
-- packages/providers/src/BatchedProvider.ts: calls that are made close together go out as one call of
-- the Multicall contract. A promise is its number; `resolve(undefined)` resolves it with `none`. What
-- the network answers is a parameter: `call` of the provider that is extended, and `aggregate`.
pub mod World
pub mod Kept
pub mod Settled
pub mod Waiting
pub mod Answers
use Prim.Native.String.{String}
use text.Mathlib.Text.{◌==◌ as str_eq, starts_with}
use liquity.Common.{
  ℕ, suc, ◌+◌, ◌≡◌, ◌==◌, Bool, true, false, not, ◌&&◌, ◌||◌, Option, none, some, List, [], ◌∷◌,
  ◌++◌, if◌then◌else◌, ltb, leb, Result, ok, err, ◌>>=◌, call_failed, chain_id_set_twice,
}
use liquity.LiquityStore.Store.{Timer, is_pending, clear_timeout, schedule_update}
use liquity.Readers.Ethers.{BlockTag, number, word}

-- `ResolvedTransactionRequest`
pub record Request : Type 0 where
  pub to : Option String
  pub from : Option String
  pub nonce : Option ℕ
  pub gas_limit : Option ℕ
  pub gas_price : Option ℕ
  -- `data`
  pub input : Option String
  pub value : Option ℕ
  pub chain_id : Option ℕ

-- `CallRequest`; `to!` and `data!` may be undefined
pub record CallRequest : Type 0 where
  pub target : Option String
  pub call_data : Option String

-- `{ to: target, data: callData }`
abbrev pub bare : CallRequest → Request
bare c = record {
  to = c.target;
  from = none;
  nonce = none;
  gas_limit = none;
  gas_price = none;
  input = c.call_data;
  value = none;
  chain_id = none;
}

-- What is outside: `super.call`, and `aggregate` of the contract.
pub record Network : Type 0 where
  pub call : Request → Option BlockTag → Result String
  pub aggregate : List CallRequest → Option BlockTag → Result (List String)

-- `BatchedCalls`
pub record BatchedCalls : Type 0 where
  pub calls : List CallRequest
  pub callbacks : List ℕ
  pub block_tag : Option BlockTag

abbrev pub empty_batch : BatchedCalls
empty_batch = record { calls = []; callbacks = []; block_tag = none }

-- The fields of the provider; `_timeoutId` is in the timer, with the environment's timeouts.
pub record Provider : Type 0 where
  pub chain_id : ℕ
  pub multicall : Option String
  pub timer : Timer
  pub batched : BatchedCalls
  pub number_of_batched_calls : ℕ
  pub number_of_actual_calls : ℕ
  pub time_of_last_ratio_check : Option ℕ

-- `multicallAddress`
abbrev pub multicall_address : ℕ → Option String
multicall_address n =
    if n == 1
    then some "0xeefBa1e63905eF1D7ACbA5a8513c70307C1cE441"
    else if n == 3
    then some "0x53C43764255c17BD724F74c4eF150724AC50a3ed"
    else if n == 4
    then some "0x42Ad527de7d4e9d9d011aC45B31D8551f8Fe9821"
    else if n == 5
    then some "0x77dCa2C955b15e9dE4dbBCf1246B4B85b651e50e"
    else if n == 42
    then some "0x2cc8688C5f75E365aaEEb4ea8D6a480405A48D2A"
    else none

-- `set chainId`
unfoldable pub set_chain_id : ℕ → Provider → Result Provider
set_chain_id n s = elim s.multicall [
  | some address ↦ err chain_id_set_twice
  | none ↦ ok (record s { multicall = multicall_address n; chain_id = n })
]

abbrev is_undefined : {A : Type 0} → Option A → Bool
is_undefined none = true
is_undefined (some a) = false

-- `batchableCall`
unfoldable pub batchable_call : Request → Bool
batchable_call r = is_undefined r.gas_limit && (is_undefined r.gas_price && is_undefined r.value)

abbrev is_some_string : Option String → String → Bool
is_some_string none s = false
is_some_string (some t) s = str_eq t s

abbrev is_aggregate : Option String → Bool
is_aggregate none = false
is_aggregate (some d) = starts_with d "0x252dba42"

-- `batchedCall`
unfoldable pub batched_call : Request → String → Bool
batched_call r address = is_some_string r.to address && is_aggregate r.input

-- `blockTag ?? "latest"`
abbrev pub or_latest : Option BlockTag → BlockTag
or_latest none = word "latest"
or_latest (some tag) = tag

-- `===` of block tags
abbrev pub same_tag : BlockTag → BlockTag → Bool
same_tag (number a) (number b) = a == b
same_tag (word a) (word b) = str_eq a b
same_tag (number a) (word b) = false
same_tag (word a) (number b) = false

abbrev pub is_empty : List CallRequest → Bool
is_empty [] = true
is_empty (c ∷ cs) = false

-- `_alreadyBatchedCallsConflictWith`
unfoldable pub conflict_with : Option BlockTag → BatchedCalls → Bool
conflict_with tag b =
    not (is_empty b.calls) && not (same_tag (or_latest tag) (or_latest b.block_tag))

-- The check of the ratio in `call`: after ten seconds, the counters start again if there were calls.
abbrev pub check_due : ℕ → Option ℕ → ℕ → Bool
check_due now none actual = false
check_due now (some t) actual = leb (t + 10000) now && not (actual == 0)

abbrev pub check_time : ℕ → Option ℕ → Bool → Option ℕ
check_time now none due = some now
check_time now (some t) due = if due then some now else some t

unfoldable pub check_ratio : ℕ → Provider → Provider
check_ratio now s =
    let due = check_due now s.time_of_last_ratio_check s.number_of_actual_calls in
    record s {
      number_of_batched_calls = if due then 0 else s.number_of_batched_calls;
      number_of_actual_calls = if due then 0 else s.number_of_actual_calls;
      time_of_last_ratio_check = check_time now s.time_of_last_ratio_check due;
    }

-- `_enqueueCall`, of a call whose promise is p
unfoldable pub enqueue_call : CallRequest → ℕ → Provider → Provider
unfolding schedule_update
enqueue_call c p s = record s {
  timer = schedule_update s.timer;
  batched = record s.batched {
    calls = s.batched.calls ++ c ∷ [];
    callbacks = s.batched.callbacks ++ p ∷ [];
  };
}

-- A new provider; the environment's next timeout has the number `next_id`.
abbrev pub fresh : ℕ → Provider
fresh next_id = record {
  chain_id = 0;
  multicall = none;
  timer = record {
    update_timeout_id = none;
    timeouts = record { pending = []; next_id = next_id };
  };
  batched = empty_batch;
  number_of_batched_calls = 0;
  number_of_actual_calls = 0;
  time_of_last_ratio_check = none;
}
