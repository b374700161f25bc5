-- ===== src/Batching/Kept.antt =====
-- Every promise of a batching provider is in its batch, in a batch that is sent, or settled.
use Prim.Native.String.{String}
use liquity.Common.{
  ℕ, ◌≡◌, refl, sym, ap, ◌∙◌, arith, Bool, true, false, ◌||◌, Option, none, some, List, [], ◌∷◌,
  ◌++◌, ◌⊎◌, inl, inr, ◌==◌, ltb, Result, ok, err, ok-injective, if◌then◌else◌, chain_id_set_twice,
}
use liquity.LiquityStore.Store.{Timer, is_pending, cancel_update_if_scheduled, schedule_update}
use liquity.LiquityStore.Store.Schedule.{HasOneTimeout, clear_only, cancel-pending}
use liquity.Readers.Ethers.{BlockTag}
use liquity.Batching.{
  Request, Network, BatchedCalls, Provider, set_chain_id, multicall_address, check_ratio,
  enqueue_call,
}
use liquity.Batching.World.{
  World, count_actual, call_directly, enqueue, goes_directly, call_batching, call_request, dispatch,
  results, resolve_each, settle_each, answer, Step, calls, fires, answers, sets_chain, Reach, here,
  next,
}

abbrev pub mem : ℕ → List ℕ → Bool
mem p [] = false
mem p (q ∷ ps) = q == p || mem p ps

abbrev pub mem_flights : ℕ → List BatchedCalls → Bool
mem_flights p [] = false
mem_flights p (b ∷ bs) = mem p b.callbacks || mem_flights p bs

-- The promise is resolved or rejected.
abbrev pub is_settled : ℕ → List (ℕ × Result (Option String)) → Bool
is_settled p [] = false
is_settled p ((q, outcome) ∷ s) = q == p || is_settled p s

mem-snoc : (p q : ℕ) (ps : List ℕ) → mem p (ps ++ q ∷ []) ≡ (mem p ps || q == p)
mem-snoc p q [] = ground arith
mem-snoc p q (r ∷ ps) = let ih = mem-snoc p q ps in ground arith

pub mem_flights-middle :
    (p : ℕ) (b : BatchedCalls) (front back : List BatchedCalls)
    → mem_flights p (front ++ b ∷ back) ≡ (mem p b.callbacks || mem_flights p (front ++ back))
mem_flights-middle p b [] back = refl
mem_flights-middle p b (f ∷ front) back = let ih = mem_flights-middle p b front back in ground arith

pub is_settled-append :
    (p : ℕ) (s t : List (ℕ × Result (Option String)))
    → is_settled p (s ++ t) ≡ (is_settled p s || is_settled p t)
is_settled-append p [] t = refl
is_settled-append p ((q, outcome) ∷ s) t = let ih = is_settled-append p s t in ground arith

if_both : {A : Type 0} (P : A → Type 0) {x y : A} (b : Bool) → P x → P y → P (if b then x else y)
if_both P true p q = p
if_both P false p q = q

module _ (net : Network) where
  resolve_each-settles :
      (p : ℕ) (ps : List ℕ) (rs : List String) → is_settled p (resolve_each net ps rs) ≡ mem p ps
  resolve_each-settles p [] rs = refl
  resolve_each-settles p (q ∷ ps) [] = let ih = resolve_each-settles p ps [] in ground arith
  resolve_each-settles p (q ∷ ps) (r ∷ rs) = let ih = resolve_each-settles p ps rs in ground arith

  pub settle_each-settles :
      (p : ℕ) (ps : List ℕ) (r : Result (List String))
      → is_settled p (settle_each net ps r) ≡ mem p ps
  settle_each-settles p ps (ok rs) = resolve_each-settles p ps rs
  settle_each-settles p [] (err e) = refl
  settle_each-settles p (q ∷ ps) (err e) = let ih = settle_each-settles p ps (err e) in ground arith

  -- Either nothing waits for a timeout and the batch is empty, or just the timeout of the provider
  -- is pending.
  abbrev pub Scheduled : Provider → Type 0
  Scheduled s =
      ((s.timer.timeouts.pending ≡ []) × (s.batched.callbacks ≡ []))
      ⊎ ((id : ℕ) × (s.timer.update_timeout_id ≡ some id) × (s.timer.timeouts.pending ≡ id ∷ []))

  pub record IsKept (w : World) : Type 0 where
    pub scheduled : Scheduled w.provider
    pub kept :
        (p : ℕ)
        → ltb p w.next_promise ≡ true
        → (mem p w.provider.batched.callbacks
            || (mem_flights p w.in_flight || is_settled p w.settled))
          ≡ true

  -- A call that goes out by itself is settled, and the others stay where they are.
  call_directly-IsKept :
      (w : World) (r : Request) (tag : Option BlockTag)
      → IsKept w
      → IsKept (call_directly net r tag w)
  call_directly-IsKept w r tag h = record {
    scheduled = h.scheduled;
    kept = λ p lt. let k = h.kept p in ground arith;
  }

  schedule-id :
      (t : Timer)
      → (schedule_update t).update_timeout_id ≡ some (cancel_update_if_scheduled t).timeouts.next_id
  unfolding schedule_update
  schedule-id t = refl

  schedule-pending :
      (t : Timer)
      → (cancel_update_if_scheduled t).timeouts.pending ≡ []
      → (schedule_update t).timeouts.pending ≡ (cancel_update_if_scheduled t).timeouts.next_id ∷ []
  unfolding schedule_update
  schedule-pending t e = ap (λ ts. (cancel_update_if_scheduled t).timeouts.next_id ∷ ts) e

  one-timeout : (s : Provider) → Scheduled s → HasOneTimeout s.timer
  one-timeout s (inl (e, f)) = inl e
  one-timeout s (inr h) = inr h

  enqueue-IsKept :
      (w : World) (r : Request) (tag : Option BlockTag) → IsKept w → IsKept (enqueue net r tag w)
  unfolding enqueue_call
  enqueue-IsKept w r tag h =
      let t = w.provider.timer in
      record {
        scheduled = inr (
          _,
          schedule-id t,
          schedule-pending t (cancel-pending t (one-timeout w.provider h.scheduled)),
        );
        kept = λ p lt.
            let k = h.kept p in
            let m = mem-snoc p w.next_promise w.provider.batched.callbacks in ground arith;
      }

  call_batching-IsKept :
      (w : World) (now : ℕ) (r : Request) (tag : Option BlockTag) (address : String)
      → IsKept w
      → IsKept (call_batching net now r tag address w)
  unfolding check_ratio
  call_batching-IsKept w now r tag address h =
      let s = check_ratio now w.provider in
      let counted : IsKept (record w { provider = s }) = record {
        scheduled = h.scheduled;
        kept = h.kept;
      } in
      let actual : IsKept (record w { provider = count_actual s }) = record {
        scheduled = h.scheduled;
        kept = h.kept;
      } in
      if_both IsKept (goes_directly net r tag address s)
        (call_directly-IsKept (record w { provider = count_actual s }) r tag actual)
        (enqueue-IsKept (record w { provider = s }) r tag counted)

  call_request-IsKept :
      (w : World) (now : ℕ) (r : Request) (tag : Option BlockTag)
      → IsKept w
      → IsKept (call_request net now r tag w)
  unfolding call_request
  call_request-IsKept w now r tag h =
      elim w.provider.multicall
        as (λ m. IsKept (elim m [
          | none ↦ call_directly net r tag w
          | some address ↦ call_batching net now r tag address w
        ])) [
          | none ↦ call_directly-IsKept w r tag h
          | some address ↦ call_batching-IsKept w now r tag address h
        ]

  dispatch-IsKept :
      (w : World) (id : ℕ)
      → is_pending id w.provider.timer.timeouts.pending ≡ true
      → IsKept w
      → IsKept (dispatch net id w)
  unfolding dispatch
  dispatch-IsKept w id p h = record {
    scheduled = inl (
      clear_only id w.provider.timer.timeouts.pending (pending_one w.provider h.scheduled) p,
      refl,
    );
    kept = λ p lt. let k = h.kept p in ground arith;
  }
    where
      pending_one :
          (s : Provider)
          → Scheduled s
          → (s.timer.timeouts.pending ≡ []) ⊎ ((k : ℕ) × (s.timer.timeouts.pending ≡ k ∷ []))
      pending_one s (inl (e, f)) = inl e
      pending_one s (inr (k, e, f)) = inr (k, f)

  answer-IsKept :
      (w : World) (front back : List BatchedCalls) (b : BatchedCalls)
      → w.in_flight ≡ front ++ b ∷ back
      → IsKept w
      → IsKept (answer net front back b w)
  unfolding answer
  answer-IsKept w front back b e h = record {
    scheduled = h.scheduled;
    kept = λ p lt.
        let k = h.kept p lt in
        let m = ap (λ bs. mem_flights p bs) e ∙ mem_flights-middle p b front back in
        let outcome = results net b.calls b.block_tag in
        let t = is_settled-append p (settle_each net b.callbacks outcome) w.settled in
        let u = settle_each-settles p b.callbacks outcome in ground (arith);
  }

  pub set_chain_id-keeps :
      (n : ℕ) (s t : Provider)
      → set_chain_id n s ≡ ok t
      → (t.timer ≡ s.timer) × (t.batched ≡ s.batched)
  unfolding set_chain_id
  set_chain_id-keeps n s t =
      elim s.multicall
        as (λ m.
          elim m [
            | some address ↦ err chain_id_set_twice
            | none ↦ ok (record s { multicall = multicall_address n; chain_id = n })
          ]
            ≡ ok t
          → (t.timer ≡ s.timer) × (t.batched ≡ s.batched)) [
            | some address ↦ λ h. absurd cc
            | none ↦
                λ h. let e = sym (ok-injective h) in (ap (λ s. s.timer) e, ap (λ s. s.batched) e)
          ]

  Step-IsKept : {v w : World} → Step net v w → IsKept v → IsKept w
  Step-IsKept {v} (calls now r tag) h = call_request-IsKept v now r tag h
  Step-IsKept {v} (fires id p) h = dispatch-IsKept v id p h
  Step-IsKept {v} (answers front back b e) h = answer-IsKept v front back b e h
  Step-IsKept {v} (sets_chain n s e) h =
      let k = set_chain_id-keeps n v.provider s e in
      record { scheduled = rw (k.0, k.1) h.scheduled; kept = rw k.1 h.kept }

  pub Reach-IsKept : {v w : World} → IsKept v → Reach net v w → IsKept w
  Reach-IsKept h here = h
  Reach-IsKept h (next r st) = Step-IsKept st (Reach-IsKept h r)
