-- ===== src/Batching/Settled.antt =====
-- Every promise of a batching provider can be settled without further calls.
use liquity.Common.{
  ℕ, ◌≡◌, refl, sym, ap, ◌∙◌, arith, true, List, [], ◌∷◌, ◌++◌, inl, inr, ltb, Bool-cases,
}
use liquity.LiquityStore.Store.{is_pending}
use liquity.Batching.{Network, BatchedCalls}
use liquity.Batching.World.{
  World, start, dispatch, results, settle_each, answer, fires, answers, Reach, here, next,
}
use liquity.Batching.Kept.{
  mem, mem_flights, is_settled, is_settled-append, settle_each-settles, IsKept, Reach-IsKept,
}

find_flight :
    (p : ℕ) (bs : List BatchedCalls)
    → mem_flights p bs ≡ true
    → (front : List BatchedCalls) × (b : BatchedCalls) × (back : List BatchedCalls) × (bs
        ≡ front ++ b ∷ back)
      × (mem p b.callbacks ≡ true)
find_flight p [] h = absurd cc
find_flight p (b ∷ bs) h = elim (Bool-cases (mem p b.callbacks)) [
  | inl found ↦ ([], b, bs, refl, found)
  | inr further ↦
      let (front, c, back, e, found) = find_flight p bs (ground arith) in
      (b ∷ front, c, back, ap (λ l. b ∷ l) e, found)
]

not_in_nil : (p : ℕ) → mem p [] ≡ true → ⊥
not_in_nil p h = cc

is_pending-own : (id : ℕ) → is_pending id (id ∷ []) ≡ true
is_pending-own id = ground arith

module _ (net : Network) where
  answer-settles :
      (w : World) (front back : List BatchedCalls) (b : BatchedCalls) (p : ℕ)
      → mem p b.callbacks ≡ true
      → is_settled p (answer net front back b w).settled ≡ true
  unfolding answer
  answer-settles w front back b p h =
      let outcome = results net b.calls b.block_tag in
      let a = is_settled-append p (settle_each net b.callbacks outcome) w.settled in
      let s = settle_each-settles net p b.callbacks outcome in ground arith

  -- A world that follows without another call, where the promise is settled.
  abbrev pub Settles : World → ℕ → Type 0
  Settles w p =
      (v : World) × Reach net w v
      × (v.next_promise ≡ w.next_promise)
      × (is_settled p v.settled ≡ true)

  flight-Settles : (w : World) (p : ℕ) → mem_flights p w.in_flight ≡ true → Settles w p
  unfolding answer
  flight-Settles w p h =
      let (front, b, back, e, found) = find_flight p w.in_flight h in
      (
        answer net front back b w,
        next here (answers front back b e),
        refl,
        answer-settles w front back b p found,
      )

  batch-Settles :
      (w : World) (p : ℕ) → IsKept net w → mem p w.provider.batched.callbacks ≡ true → Settles w p
  unfolding answer dispatch
  batch-Settles w p h found = elim h.scheduled [
    | inl (e, empty) ↦ absurd (not_in_nil p (ap (λ ps. mem p ps) (sym empty) ∙ found))
    | inr (id, e, f) ↦
        let b = w.provider.batched in
        let sent = dispatch net id w in
        (
          answer net [] w.in_flight b sent,
          next (next here (fires id (rw f (is_pending-own id)))) (answers [] w.in_flight b refl),
          refl,
          answer-settles sent [] w.in_flight b p found,
        )
  ]

  kept-Settles : (w : World) (p : ℕ) → ltb p w.next_promise ≡ true → IsKept net w → Settles w p
  kept-Settles w p lt h = elim (Bool-cases (mem p w.provider.batched.callbacks)) [
    | inl batched ↦ batch-Settles w p h batched
    | inr not_batched ↦ elim (Bool-cases (mem_flights p w.in_flight)) [
      | inl sent ↦ flight-Settles w p sent
      | inr not_sent ↦ (w, here, refl, let k = h.kept p lt in ground arith)
    ]
  ]

  -- Whatever calls, timeouts and answers there were, every promise that a new provider has given out
  -- is settled in some world that follows without another call: the timeouts that are pending fire,
  -- and the batches that are sent are answered.
  pub Reach-Settles :
      (id : ℕ) (w : World) (p : ℕ)
      → Reach net (start id) w
      → ltb p w.next_promise ≡ true
      → Settles w p
  Reach-Settles id w p r lt = kept-Settles w p lt (
      Reach-IsKept net
        (record { scheduled = inl (refl, refl); kept = λ p lt. absurd (ground arith) }) r)
