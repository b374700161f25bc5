-- ===== src/Batching/World.antt =====
-- packages/providers/src/BatchedProvider.ts: `call` and `_dispatchCalls`, and what may happen to a
-- provider. A batch that is sent is answered at any later time, in any order.
use Prim.Native.String.{String}
use liquity.Common.{
  ℕ, suc, ◌+◌, ◌≡◌, Bool, true, not, ◌||◌, Option, none, some, List, [], ◌∷◌, ◌++◌, if◌then◌else◌,
  Result, ok, err, ◌>>=◌, call_failed, Error,
}
use liquity.LiquityStore.Store.{is_pending, clear_timeout}
use liquity.Readers.Ethers.{BlockTag}
use liquity.Batching.{
  Request, CallRequest, bare, Network, BatchedCalls, empty_batch, Provider, fresh, set_chain_id,
  batched_call, batchable_call, conflict_with, check_ratio, enqueue_call, is_empty,
}

-- What a promise was made for
pub record Ask : Type 0 where
  pub promise : ℕ
  pub request : Request
  pub tag : Option BlockTag

-- A provider with its environment: the batches that are sent and not answered, the promises that
-- are settled, and what all of them were made for.
pub record World : Type 0 where
  pub provider : Provider
  pub in_flight : List BatchedCalls
  pub settled : List (ℕ × Result (Option String))
  pub asked : List Ask
  pub next_promise : ℕ

-- `super.call`, awaited
abbrev pub resolved : Result String → Result (Option String)
resolved (err e) = err e
resolved (ok s) = ok (some s)

-- Before any call.
abbrev pub start : ℕ → World
start next_id = record {
  provider = fresh next_id;
  in_flight = [];
  settled = [];
  asked = [];
  next_promise = 0;
}

-- A new promise, for what is asked.
abbrev pub ask : Request → Option BlockTag → World → World
ask r tag w = record w {
  asked = record { promise = w.next_promise; request = r; tag = tag } ∷ w.asked;
  next_promise = suc w.next_promise;
}

-- The block tag of a batch is that of its first call.
abbrev pub tag_first : Option BlockTag → Provider → Provider
tag_first tag s = record s {
  batched = record s.batched {
    block_tag = if is_empty s.batched.calls then tag else s.batched.block_tag;
  };
}

abbrev pub count_actual : Provider → Provider
count_actual s = record s { number_of_actual_calls = s.number_of_actual_calls + 1 }

abbrev pub count_batched : Provider → Provider
count_batched s = record s { number_of_batched_calls = s.number_of_batched_calls + 1 }

module _ (net : Network) where
  open net use {call, aggregate}

  abbrev pub call_directly : Request → Option BlockTag → World → World
  call_directly r tag w = record (ask r tag w) {
    settled = (w.next_promise, resolved (call r tag)) ∷ w.settled;
  }

  abbrev pub enqueue : Request → Option BlockTag → World → World
  enqueue r tag w = record (ask r tag w) {
    provider =
        enqueue_call (record { target = r.to; call_data = r.input }) w.next_promise
          (tag_first tag (count_batched w.provider));
  }

  -- A call goes out by itself when it is one of Multicall already, when it is not batchable, or when
  -- the batch is for another block.
  abbrev pub goes_directly : Request → Option BlockTag → String → Provider → Bool
  goes_directly r tag address s =
      batched_call r address || (not (batchable_call r) || conflict_with tag s.batched)

  abbrev pub call_batching : ℕ → Request → Option BlockTag → String → World → World
  call_batching now r tag address w =
      let s = check_ratio now w.provider in
      if goes_directly r tag address s
      then call_directly r tag (record w { provider = count_actual s })
      else enqueue r tag (record w { provider = s })

  -- `call`, at a time; the request and the block tag are resolved
  unfoldable pub call_request : ℕ → Request → Option BlockTag → World → World
  call_request now r tag w = elim w.provider.multicall [
    | none ↦ call_directly r tag w
    | some address ↦ call_batching now r tag address w
  ]

  -- `_dispatchCalls` up to its `await`, when the timeout fires; `_timeoutId` stays
  unfoldable pub dispatch : ℕ → World → World
  unfolding clear_timeout
  dispatch id w = record w {
    provider = record w.provider {
      batched = empty_batch;
      timer = record w.provider.timer {
        timeouts = record w.provider.timer.timeouts {
          pending = clear_timeout id w.provider.timer.timeouts.pending;
        };
      };
    };
    in_flight = w.provider.batched ∷ w.in_flight;
  }

  -- What is awaited: without a call, reading the first one fails
  unfoldable pub results : List CallRequest → Option BlockTag → Result (List String)
  results [] tag = err call_failed
  results (c ∷ []) tag = call (bare c) tag >>= λ s. ok (s ∷ [])
  results (c ∷ d ∷ cs) tag = aggregate (c ∷ d ∷ cs) tag

  abbrev pub resolve_each : List ℕ → List String → List (ℕ × Result (Option String))
  resolve_each [] rs = []
  resolve_each (p ∷ ps) [] = (p, ok none) ∷ resolve_each ps []
  resolve_each (p ∷ ps) (r ∷ rs) = (p, ok (some r)) ∷ resolve_each ps rs

  abbrev pub reject_each : List ℕ → Error → List (ℕ × Result (Option String))
  reject_each [] e = []
  reject_each (p ∷ ps) e = (p, err e) ∷ reject_each ps e

  abbrev pub settle_each : List ℕ → Result (List String) → List (ℕ × Result (Option String))
  settle_each ps (ok rs) = resolve_each ps rs
  settle_each ps (err e) = reject_each ps e

  -- The rest of `_dispatchCalls`, when batch b among the others is answered.
  unfoldable pub answer : (front back : List BatchedCalls) → BatchedCalls → World → World
  unfolding results
  answer front back b w = record w {
    in_flight = front ++ back;
    settled = settle_each b.callbacks (results b.calls b.block_tag) ++ w.settled;
  }

  -- What may happen, in any order.
  pub data Step (w : World) : World → Type 0 where
    calls : (now : ℕ) (r : Request) (tag : Option BlockTag) → Step w (call_request now r tag w)
    fires :
        (id : ℕ) → is_pending id w.provider.timer.timeouts.pending ≡ true → Step w (dispatch id w)
    answers :
        (front back : List BatchedCalls) (b : BatchedCalls)
        → w.in_flight ≡ front ++ b ∷ back
        → Step w (answer front back b w)
    sets_chain :
        (n : ℕ) (s : Provider)
        → set_chain_id n w.provider ≡ ok s
        → Step w (record w { provider = s })

  pub data Reach (w : World) : World → Type 0 where
    here : Reach w w
    next : {v u : World} → Reach w v → Step v u → Reach w u
