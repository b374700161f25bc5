-- ===== src/BlockPolledStore/Stopped.antt =====
-- What happens to a poller after a stop: the fetches that are left, and the calls that they lead to.
use liquity.Common.{
  ℕ, suc, ◌+◌, ◌≤◌, ◌≡◌, ◌≢◌, ◌⊎◌, inl, inr, refl, ◌∙◌, ap, arith, Bool, true, false, Option, none,
  some, List, [], ◌∷◌, ◌++◌, if◌then◌else◌,
}
use liquity.LiquityStore.Store.{Timer, is_pending, cancel_update_if_scheduled}
use liquity.LiquityStore.Store.Schedule.{cancel-pending}
use liquity.BlockPolledStore.{
  Call, load, update, refresh, Poller, load_state, update_state, handle, stop, answered, refreshed,
  block_listener, expire, Step, hears, expires, answers, rejects, refreshes, stops, Reach, here,
  next,
}

abbrev pub length {ℓ} : {A : Type ℓ} → List A → ℕ
length [] = 0
length (x ∷ xs) = suc (length xs)

-- The calls of `_load` and `_update` with a state
abbrev pub with_state : List Call → ℕ
with_state [] = 0
with_state (load b works ∷ cs) = suc (with_state cs)
with_state (update b ∷ cs) = suc (with_state cs)
with_state (refresh ∷ cs) = with_state cs

-- Whether a step answers or rejects a fetch, and how many steps of a run do.
abbrev pub reply : {s t : Poller} → Step s t → ℕ
reply (hears tag on) = 0
reply (expires id p) = 0
reply (answers front back b works e) = 1
reply (rejects front back b e) = 1
reply (refreshes id works p) = 0
reply stops = 0

abbrev pub replies : {s t : Poller} → Reach s t → ℕ
replies here = 0
replies (next r step) = reply step + replies r

abbrev pub IsStopped : Poller → Type 0
IsStopped s = (s.subscribed ≡ false) × (s.timer.timeouts.pending ≡ [])

length-++ :
    (front back : List (Option ℕ)) (b : Option ℕ)
    → length (front ++ b ∷ back) ≡ suc (length (front ++ back))
length-++ [] back b = refl
length-++ (f ∷ front) back b = ap (λ n. suc n) (length-++ front back b)

one_less :
    (fetching front back : List (Option ℕ)) (b : Option ℕ)
    → fetching ≡ front ++ b ∷ back
    → length fetching ≡ suc (length (front ++ back))
one_less fetching front back b e = ap (λ l. length l) e ∙ length-++ front back b

-- A handler leaves the fetches, makes one call at most, and changes nothing of a stop.
Handles : Poller → Poller → Type 0
Handles s t =
    (t.subscribed ≡ s.subscribed)
    × (t.timer ≡ s.timer)
    × (t.fetching ≡ s.fetching)
    × (with_state t.calls ≤ 1 + with_state s.calls)

Handles-if :
    (c : Bool) (s x y : Poller) → Handles s x → Handles s y → Handles s (if c then x else y)
Handles-if true s x y p q = p
Handles-if false s x y p q = q

handle-Handles : (b : Option ℕ) (works : Bool) (s : Poller) → Handles s (handle b works s)
unfolding handle load_state update_state Handles
handle-Handles none works s =
    Handles-if s.loaded s _ _ (refl, refl, refl, omega arith) (refl, refl, refl, omega arith)
handle-Handles (some b) works s =
    Handles-if s.loaded s _ _ (refl, refl, refl, omega arith) (refl, refl, refl, omega arith)

pub no_timeout : (id : ℕ) (l : List ℕ) → l ≡ [] → is_pending id l ≡ false
no_timeout id [] e = refl
no_timeout id (k ∷ l) e = cc

clear-none :
    (t : Timer) → t.timeouts.pending ≡ [] → (cancel_update_if_scheduled t).timeouts.pending ≡ []
clear-none t e = cancel-pending t (inl e)

Step-IsStopped :
    {s t : Poller} (step : Step s t)
    → IsStopped s
    → IsStopped t
      × (reply step + length t.fetching ≡ length s.fetching)
      × (with_state t.calls ≤ reply step + with_state s.calls)
unfolding block_listener expire stop refreshed Handles
Step-IsStopped {s} (hears tag on) h = cc (h.0, on)
Step-IsStopped {s} (expires id p) h =
    let q = no_timeout id s.timer.timeouts.pending h.1 in cc (q, p)
Step-IsStopped {s} (answers front back b works e) h =
    let (on, timer, fetching, calls) = handle-Handles b works (answered s front back) in
    (
      (on ∙ h.0, ap (λ (x : Timer). x.timeouts.pending) timer ∙ h.1),
      let p = one_less s.fetching front back b e in
          let q = ap (λ l. length l) fetching in omega arith,
      calls,
    )
Step-IsStopped {s} (rejects front back b e) h =
    (h, let p = one_less s.fetching front back b e in omega arith, omega arith)
Step-IsStopped {s} (refreshes id works p) h = (h, omega arith, omega arith)
Step-IsStopped {s} stops h = ((refl, clear-none s.timer h.1), omega arith, omega arith)

pub Reach-IsStopped :
    {s t : Poller}
    → IsStopped s
    → (after : Reach s t)
    → IsStopped t
      × (replies after + length t.fetching ≡ length s.fetching)
      × (with_state t.calls ≤ replies after + with_state s.calls)
Reach-IsStopped h here = (h, omega arith, omega arith)
Reach-IsStopped h (next r step) =
    let (stopped, left, calls) = Reach-IsStopped h r in
    let (still, left', calls') = Step-IsStopped step stopped in (still, omega arith, omega arith)

-- Without an update of its own scheduled, the store is called only when an answer comes.
Step-quiet :
    {s t : Poller} (step : Step s t)
    → IsStopped s
    → s.own.timeouts.pending ≡ []
    → ((t.calls ≡ s.calls) × (t.own.timeouts.pending ≡ [])) ⊎ (reply step ≢ 0)
unfolding block_listener expire stop
Step-quiet {s} (hears tag on) h q = cc (h.0, on)
Step-quiet {s} (expires id p) h q = inl (refl, q)
Step-quiet {s} (answers front back b works e) h q = inr (λ z. omega arith)
Step-quiet {s} (rejects front back b e) h q = inr (λ z. omega arith)
Step-quiet {s} (refreshes id works p) h q =
    let r = no_timeout id s.own.timeouts.pending q in cc (r, p)
Step-quiet {s} stops h q = inl (refl, clear-none s.own q)

pub Reach-quiet :
    {s t : Poller}
    → IsStopped s
    → s.own.timeouts.pending ≡ []
    → (after : Reach s t)
    → ((t.calls ≡ s.calls) × (t.own.timeouts.pending ≡ [])) ⊎ (replies after ≢ 0)
Reach-quiet h q here = inl (refl, q)
Reach-quiet h q (next r step) = elim (Reach-quiet h q r) [
  | inr earlier ↦ inr (λ z. earlier (omega arith))
  | inl (same, still) ↦ elim (Step-quiet step (Reach-IsStopped h r).0 still) [
    | inl (same', still') ↦ inl (same' ∙ same, still')
    | inr now ↦ inr (λ z. now (omega arith))
  ]
]
