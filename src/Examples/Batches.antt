-- ===== src/Examples/Batches.antt =====
-- A batching provider over a network that answers a call with its own data, and the theorems on it.
use Prim.Native.String.{String}
use liquity.Common.{
  ◌≡◌, refl, true, Option, none, some, [], ◌∷◌, Result, ok, err, call_failed, chain_id_set_twice,
  ltb,
}
use liquity.Readers.Cached.{map_results}
use liquity.Readers.Ethers.{number, word}
use liquity.LiquityStore.Store.{schedule_update, cancel_update_if_scheduled, clear_timeout}
use liquity.Batching.{
  Request, bare, Network, multicall_address, set_chain_id, batched_call, batchable_call,
  conflict_with, check_ratio, enqueue_call,
}
use liquity.Batching.World.{
  World, start, call_request, dispatch, answer, results, calls, fires, answers, sets_chain, Reach,
  here, next,
}
use liquity.Batching.Settled.{Settles, Reach-Settles}
use liquity.Batching.Waiting.{Answered}
use liquity.Batching.Answers.{IsMulticall, Reach-Answered}

abbrev echo : Option String → Result String
echo none = err call_failed
echo (some s) = ok s

abbrev network : Network
network = record {
  call = λ r tag. echo r.input;
  aggregate = λ cs tag. map_results (λ c. echo c.call_data) cs;
}

network-IsMulticall : IsMulticall network
network-IsMulticall = record {
  aggregate_calls = λ cs tag. refl;
  latest = λ r. refl;
  sender = λ r tag h. refl;
}

abbrev request : String → Request
request s = bare (record { target = some "0xc"; call_data = some s })

-- On chain 1, two calls at the latest block share a batch, and one at block 5 goes out by itself.
abbrev on_chain : World
on_chain = record (start 0) {
  provider = record (start 0).provider { chain_id = 1; multicall = multicall_address 1 };
}

abbrev asked_once : World
asked_once = call_request network 0 (request "0x01") none on_chain

abbrev asked_twice : World
asked_twice = call_request network 5 (request "0x02") (some (word "latest")) asked_once

abbrev asked_thrice : World
asked_thrice = call_request network 6 (request "0x03") (some (number 5)) asked_twice

abbrev done : World
done = answer network [] [] asked_thrice.provider.batched (dispatch network 1 asked_thrice)

reached : Reach network (start 0) asked_thrice
unfolding set_chain_id
reached =
    next
      (next (next (next here (sets_chain 1 on_chain.provider refl)) (calls 0 (request "0x01") none))
        (calls 5 (request "0x02") (some (word "latest"))))
      (calls 6 (request "0x03") (some (number 5)))

waiting : asked_thrice.provider.timer.timeouts.pending ≡ 1 ∷ []
unfolding call_request batched_call batchable_call conflict_with check_ratio enqueue_call
    schedule_update cancel_update_if_scheduled clear_timeout
waiting = refl

settled_all :
    done.settled ≡ (0, ok (some "0x01")) ∷ (1, ok (some "0x02")) ∷ (2, ok (some "0x03")) ∷ []
unfolding call_request batched_call batchable_call conflict_with check_ratio enqueue_call
    schedule_update cancel_update_if_scheduled clear_timeout dispatch answer results map_results
settled_all = refl

finished : Reach network (start 0) done
unfolding call_request batched_call batchable_call conflict_with check_ratio enqueue_call
    schedule_update cancel_update_if_scheduled clear_timeout dispatch
finished = next (next reached (fires 1 refl)) (answers [] [] asked_thrice.provider.batched refl)

promised : ltb 1 asked_thrice.next_promise ≡ true
unfolding call_request batched_call batchable_call conflict_with check_ratio enqueue_call
promised = refl

Reach-Settles_example : Settles network asked_thrice 1
Reach-Settles_example = Reach-Settles network 0 asked_thrice 1 reached promised

Reach-Answered_example : (s : String) × (some "0x02" ≡ some s) × Answered network done.asked 1 s
Reach-Answered_example =
    Reach-Answered network network-IsMulticall 0 done ((0, ok (some "0x01")) ∷ [])
      ((2, ok (some "0x03")) ∷ []) 1 (some "0x02") finished settled_all

once_only : set_chain_id 5 on_chain.provider ≡ err chain_id_set_twice
unfolding set_chain_id
once_only = refl
