-- ===== src/Batching/Answers.antt =====
-- What a batching provider answers is what a call by itself would have answered.
use mathlib.Core.Path.{subst}
use text.Mathlib.TextEquality.{eq_iff}
use Prim.Native.String.{String}
use liquity.Common.{
  ℕ, ◌≡◌, refl, sym, ap, ◌∙◌, arith, Bool, true, false, not, ◌&&◌, Option, none, some, List, [],
  ◌∷◌, ◌++◌, Result, ok, err, ok-injective, if◌then◌else◌,
}
use liquity.Readers.Cached.{map_results}
use liquity.Readers.Ethers.{BlockTag, number, word}
use liquity.Batching.{
  Request, CallRequest, bare, Network, BatchedCalls, Provider, check_ratio, enqueue_call,
  batchable_call, conflict_with, or_latest, same_tag, is_empty,
}
use liquity.Batching.Waiting.{
  Answered, WaitAll, Right, AllRight, AllWait, WaitAll-more, WaitAll-snoc, AllRight-more,
  AllRight-append, AllWait-more, AllWait-middle, reject_each-AllRight, resolve_each-AllRight,
}
use liquity.Batching.Kept.{set_chain_id-keeps}
use liquity.Batching.World.{
  Ask, World, start, resolved, ask, count_actual, call_directly, enqueue, goes_directly,
  call_batching, call_request, dispatch, results, settle_each, answer, Step, calls, fires, answers,
  sets_chain, Reach, here, next,
}

-- What the provider relies on: `aggregate` makes the calls one after the other and fails if one
-- fails; a call without a block tag is made at the latest block; and what a call answers does not
-- depend on its sender or on the other fields that a batch leaves out.
pub record IsMulticall (net : Network) : Type 0 where
  pub aggregate_calls :
      (cs : List CallRequest) (tag : Option BlockTag)
      → net.aggregate cs tag ≡ map_results (λ c. net.call (bare c) tag) cs
  pub latest : (r : Request) → net.call r none ≡ net.call r (some (word "latest"))
  pub sender :
      (r : Request) (tag : Option BlockTag)
      → batchable_call r ≡ true
      → net.call r tag ≡ net.call (bare (record { target = r.to; call_data = r.input })) tag

same_tag-eq : (a b : BlockTag) → same_tag a b ≡ true → a ≡ b
same_tag-eq (number a) (number b) h = ap (λ n. number n) (ground arith)
same_tag-eq (word a) (word b) h = ap (λ s. word s) ((eq_iff a b).0 h)
same_tag-eq (number a) (word b) h = absurd cc
same_tag-eq (word a) (number b) h = absurd cc

if_cases :
    {A : Type 0} (P : A → Type 0) {x y : A} (b : Bool)
    → (b ≡ true → P x)
    → (b ≡ false → P y)
    → P (if b then x else y)
if_cases P true p q = p refl
if_cases P false p q = q refl

module _ (net : Network) (m : IsMulticall net) where
  call-or_latest :
      (r : Request) (tag : Option BlockTag) → net.call r tag ≡ net.call r (some (or_latest tag))
  call-or_latest r none = m.latest r
  call-or_latest r (some tag) = refl

  call-same_tag :
      (r : Request) (a b : Option BlockTag)
      → same_tag (or_latest a) (or_latest b) ≡ true
      → net.call r a ≡ net.call r b
  call-same_tag r a b h =
      call-or_latest r a
      ∙ ap (λ t. net.call r (some t)) (same_tag-eq (or_latest a) (or_latest b) h)
      ∙ sym (call-or_latest r b)

  record IsRight (w : World) : Type 0 where
    batch :
        WaitAll net w.asked w.provider.batched.block_tag w.provider.batched.calls
          w.provider.batched.callbacks
    flights : AllWait net w.asked w.in_flight
    settled : AllRight net w.asked w.settled

  call_directly-IsRight :
      (w : World) (r : Request) (tag : Option BlockTag)
      → IsRight w
      → IsRight (call_directly net r tag w)
  unfolding AllRight
  call_directly-IsRight w r tag h =
      let new : Ask = record { promise = w.next_promise; request = r; tag = tag } in
      let b = w.provider.batched in
      record {
        batch = WaitAll-more net w.asked new b.block_tag b.calls b.callbacks h.batch;
        flights = AllWait-more net w.asked new w.in_flight h.flights;
        settled = (right (net.call r tag) refl, AllRight-more net w.asked new w.settled h.settled);
      }
    where
      right :
          (m : Result String)
          → net.call r tag ≡ m
          → Right net (ask r tag w).asked w.next_promise (resolved m)
      right (err e) h v k = absurd cc
      right (ok s) h v k = (
        s,
        sym (ok-injective k),
        (record { promise = w.next_promise; request = r; tag = tag }, [], w.asked, refl, refl, h),
      )

  -- The batch keeps its tag or, when it is empty, takes the new one.
  tagged :
      (asked : List Ask) (tag old : Option BlockTag) (cs : List CallRequest) (ps : List ℕ)
      → WaitAll net asked old cs ps
      → WaitAll net asked (if is_empty cs then tag else old) cs ps
  unfolding WaitAll
  tagged asked tag old [] [] h = tt
  tagged asked tag old [] (p ∷ ps) h = h
  tagged asked tag old (c ∷ cs) ps h = h

  waits :
      (r : Request) (tag : Option BlockTag) (b : BatchedCalls) (cs : List CallRequest)
      → batchable_call r ≡ true
      → (not (is_empty cs) && not (same_tag (or_latest tag) (or_latest b.block_tag))) ≡ false
      → net.call r tag
        ≡ net.call
            (bare (record { target = r.to; call_data = r.input }))
            (if is_empty cs then tag else b.block_tag)
  waits r tag b [] h k = m.sender r tag h
  waits r tag b (c ∷ cs) h k =
      call-same_tag r tag b.block_tag (ground arith) ∙ m.sender r b.block_tag h

  enqueue-IsRight :
      (w : World) (r : Request) (tag : Option BlockTag)
      → batchable_call r ≡ true
      → conflict_with tag w.provider.batched ≡ false
      → IsRight w
      → IsRight (enqueue net r tag w)
  unfolding enqueue_call conflict_with
  enqueue-IsRight w r tag h k right =
      let new : Ask = record { promise = w.next_promise; request = r; tag = tag } in
      let b = w.provider.batched in
      let c : CallRequest = record { target = r.to; call_data = r.input } in
      let t = if is_empty b.calls then tag else b.block_tag in
      record {
        batch =
            WaitAll-snoc net (new ∷ w.asked) t b.calls b.callbacks c w.next_promise
              (WaitAll-more net w.asked new t b.calls b.callbacks
                (tagged w.asked tag b.block_tag b.calls b.callbacks right.batch))
              (new, [], w.asked, refl, refl, waits r tag b b.calls h k);
        flights = AllWait-more net w.asked new w.in_flight right.flights;
        settled = AllRight-more net w.asked new w.settled right.settled;
      }

  results-map :
      (tag : Option BlockTag) (cs : List CallRequest) (rs : List String)
      → results net cs tag ≡ ok rs
      → map_results (λ c. net.call (bare c) tag) cs ≡ ok rs
  unfolding results map_results
  results-map tag [] rs h = absurd cc
  results-map tag (c ∷ []) rs h = h
  results-map tag (c ∷ d ∷ cs) rs h = sym (m.aggregate_calls (c ∷ d ∷ cs) tag) ∙ h

  settle_each-AllRight :
      (asked : List Ask) (tag : Option BlockTag) (cs : List CallRequest) (ps : List ℕ)
      (outcome : Result (List String))
      → WaitAll net asked tag cs ps
      → ((rs : List String) → outcome ≡ ok rs → map_results (λ c. net.call (bare c) tag) cs ≡ ok rs)
      → AllRight net asked (settle_each net ps outcome)
  settle_each-AllRight asked tag cs ps (err e) h f = reject_each-AllRight net asked ps e
  settle_each-AllRight asked tag cs ps (ok rs) h f =
      resolve_each-AllRight net asked tag cs ps rs h (f rs refl)

  call_batching-IsRight :
      (w : World) (now : ℕ) (r : Request) (tag : Option BlockTag) (address : String)
      → IsRight w
      → IsRight (call_batching net now r tag address w)
  unfolding check_ratio
  call_batching-IsRight w now r tag address h =
      let s = check_ratio now w.provider in
      let same : Provider → World = λ t. record w { provider = t } in
      let counted : IsRight (same s) = record {
        batch = h.batch;
        flights = h.flights;
        settled = h.settled;
      } in
      let actual : IsRight (same (count_actual s)) = record {
        batch = h.batch;
        flights = h.flights;
        settled = h.settled;
      } in
      if_cases IsRight (goes_directly net r tag address s)
        (λ yes. call_directly-IsRight (same (count_actual s)) r tag actual)
        (λ no. enqueue-IsRight (same s) r tag (ground arith) (ground arith) counted)

  call_request-IsRight :
      (w : World) (now : ℕ) (r : Request) (tag : Option BlockTag)
      → IsRight w
      → IsRight (call_request net now r tag w)
  unfolding call_request
  call_request-IsRight w now r tag h =
      elim w.provider.multicall
        as (λ m. IsRight (elim m [
          | none ↦ call_directly net r tag w
          | some address ↦ call_batching net now r tag address w
        ])) [
          | none ↦ call_directly-IsRight w r tag h
          | some address ↦ call_batching-IsRight w now r tag address h
        ]

  dispatch-IsRight : (w : World) (id : ℕ) → IsRight w → IsRight (dispatch net id w)
  unfolding dispatch WaitAll AllWait
  dispatch-IsRight w id h = record {
    batch = tt;
    flights = (h.batch, h.flights);
    settled = h.settled;
  }

  answer-IsRight :
      (w : World) (front back : List BatchedCalls) (b : BatchedCalls)
      → w.in_flight ≡ front ++ b ∷ back
      → IsRight w
      → IsRight (answer net front back b w)
  unfolding answer
  answer-IsRight w front back b e h =
      let (waiting, rest) =
        AllWait-middle net w.asked front back b
          (subst (λ bs. AllWait net w.asked bs) e h.flights) in
      record {
        batch = h.batch;
        flights = rest;
        settled =
            AllRight-append net w.asked
              (settle_each net b.callbacks (results net b.calls b.block_tag)) w.settled
              (settle_each-AllRight w.asked b.block_tag b.calls b.callbacks
                (results net b.calls b.block_tag) waiting (results-map b.block_tag b.calls))
              h.settled;
      }

  Step-IsRight : {v w : World} → Step net v w → IsRight v → IsRight w
  Step-IsRight {v} (calls now r tag) h = call_request-IsRight v now r tag h
  Step-IsRight {v} (fires id p) h = dispatch-IsRight v id h
  Step-IsRight {v} (answers front back b e) h = answer-IsRight v front back b e h
  Step-IsRight {v} (sets_chain n s e) h =
      let same = (set_chain_id-keeps net n v.provider s e).1 in
      record { batch = rw same h.batch; flights = h.flights; settled = h.settled }

  Reach-IsRight : {v w : World} → IsRight v → Reach net v w → IsRight w
  Reach-IsRight h here = h
  Reach-IsRight h (next r st) = Step-IsRight st (Reach-IsRight h r)

  find_right :
      (asked : List Ask) (front back settled : List (ℕ × Result (Option String))) (p : ℕ)
      (v : Option String)
      → settled ≡ front ++ (p, ok v) ∷ back
      → AllRight net asked settled
      → (s : String) × (v ≡ some s) × Answered net asked p s
  unfolding AllRight
  find_right asked [] back settled p v e h = (subst (λ l. AllRight net asked l) e h).0 v refl
  find_right asked (x ∷ front) back settled p v e h =
      find_right asked front back (front ++ (p, ok v) ∷ back) p v refl
        (subst (λ l. AllRight net asked l) e h).1

  -- If `aggregate` makes the calls that it is given, a call without a block tag is one at the latest
  -- block, and the fields that a batch leaves out do not matter: then whatever calls, timeouts and
  -- answers there were, every promise of a new provider that is resolved was made for a call that by
  -- itself answers the same, at its own block tag.
  pub Reach-Answered :
      (id : ℕ) (w : World) (front back : List (ℕ × Result (Option String))) (p : ℕ)
      (v : Option String)
      → Reach net (start id) w
      → w.settled ≡ front ++ (p, ok v) ∷ back
      → (s : String) × (v ≡ some s) × Answered net w.asked p s
  unfolding WaitAll AllWait AllRight
  Reach-Answered id w front back p v r e =
      let right = Reach-IsRight (record { batch = tt; flights = tt; settled = tt }) r in
      find_right w.asked front back w.settled p v e right.settled
