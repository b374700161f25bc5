-- ===== src/LiquityStore/Listeners/Calls.antt =====
-- `_notify`: which listeners are called, while they subscribe and unsubscribe others.
use liquity.Common.{
  ℕ, ◌+◌, ◌≤◌, ◌<◌, ◌≡◌, refl, ap, arith, Bool, false, List, [], ◌∷◌, ◌++◌, ◌==◌, if◌then◌else◌,
  ◌||◌, Bool-cases, inl, inr, ◌∙◌,
}
use liquity.LiquityStore.Listeners.{
  Listeners, has, delete, subscribe, unsubscribe, Effect, subscribes, unsubscribes, perform,
  notify_each, notify,
}

-- How often a listener is in a list.
abbrev pub count : ℕ → List ℕ → ℕ
count l [] = 0
count l (k ∷ ks) = (if k == l then 1 else 0) + count l ks

-- Every listener is in the set once, and has an identifier that has been given out.
abbrev pub IsDistinct : Listeners → Type 0
IsDistinct s = ((l : ℕ) → count l s.set ≤ 1) × ((l : ℕ) → s.next ≤ l → count l s.set ≡ 0)

count-++ : (l : ℕ) (ks js : List ℕ) → count l (ks ++ js) ≡ count l ks + count l js
count-++ l [] js = omega arith
count-++ l (k ∷ ks) js = omega (arith, count-++ l ks js)

count-delete : (l k : ℕ) (ks : List ℕ) → count l (delete ks k) ≡ (if k == l then 0 else count l ks)
unfolding delete
count-delete l k [] = ground arith
count-delete l k (j ∷ ks) = let p = count-delete l k ks in ground arith

has-count : (l : ℕ) (ks : List ℕ) → has ks l ≡ false → count l ks ≡ 0
unfolding has
has-count l [] e = refl
has-count l (k ∷ ks) e = let p = has-count l ks in ground arith

count-has : (l : ℕ) (ks : List ℕ) → count l ks ≡ 0 → has ks l ≡ false
unfolding has
count-has l [] e = refl
count-has l (k ∷ ks) e = let p = count-has l ks in ground arith

subscribe-IsDistinct : (s : Listeners) → IsDistinct s → IsDistinct (subscribe s)
unfolding subscribe
subscribe-IsDistinct s (once, known) = (
  λ l. let p = count-++ l s.set (s.next ∷ []) in let q = once l in let r = known l in ground arith,
  λ l h. let p = count-++ l s.set (s.next ∷ []) in let r = known l in ground arith,
)

unsubscribe-IsDistinct : (k : ℕ) (s : Listeners) → IsDistinct s → IsDistinct (unsubscribe k s)
unfolding unsubscribe
unsubscribe-IsDistinct k s (once, known) = (
  λ l. let p = count-delete l k s.set in let q = once l in ground arith,
  λ l h. let p = count-delete l k s.set in let r = known l in ground arith,
)

perform-IsDistinct : (es : List Effect) (s : Listeners) → IsDistinct s → IsDistinct (perform es s)
unfolding perform
perform-IsDistinct [] s h = h
perform-IsDistinct (subscribes ∷ es) s h = perform-IsDistinct es _ (subscribe-IsDistinct s h)
perform-IsDistinct (unsubscribes l ∷ es) s h =
    perform-IsDistinct es _ (unsubscribe-IsDistinct l s h)

-- An old listener that is not in the set does not come back.
IsGone : ℕ → Listeners → Type 0
IsGone l s = (l < s.next) × (count l s.set ≡ 0)

perform-IsGone : (l : ℕ) (es : List Effect) (s : Listeners) → IsGone l s → IsGone l (perform es s)
unfolding perform IsGone subscribe unsubscribe
perform-IsGone l [] s h = h
perform-IsGone l (subscribes ∷ es) s (h, e) =
    perform-IsGone l es _ (let p = count-++ l s.set (s.next ∷ []) in ground arith)
perform-IsGone l (unsubscribes k ∷ es) s (h, e) =
    perform-IsGone l es _ (let p = count-delete l k s.set in ground arith)

-- One round of the loop, by whether the listener is still in the set.
after_call : (ℕ → List Effect) → ℕ → Listeners → Listeners
after_call effects l s = if has s.set l then perform (effects l) s else s

after_call-IsGone :
    (effects : ℕ → List Effect) (l k : ℕ) (s : Listeners)
    → IsGone l s
    → IsGone l (after_call effects k s)
unfolding after_call
after_call-IsGone effects l k s h = elim (Bool-cases (has s.set k)) [
  | inl called ↦ rw called (perform-IsGone l (effects k) s h)
  | inr skipped ↦ rw skipped h
]

after_call-IsDistinct :
    (effects : ℕ → List Effect) (k : ℕ) (s : Listeners)
    → IsDistinct s
    → IsDistinct (after_call effects k s)
unfolding after_call
after_call-IsDistinct effects k s h = elim (Bool-cases (has s.set k)) [
  | inl called ↦ rw called (perform-IsDistinct (effects k) s h)
  | inr skipped ↦ rw skipped h
]

-- Whether the effects of a listener unsubscribe another one.
abbrev pub mentions : ℕ → List Effect → Bool
mentions l [] = false
mentions l (subscribes ∷ es) = mentions l es
mentions l (unsubscribes k ∷ es) = k == l || mentions l es

module _ (effects : ℕ → List Effect) where
  notify_each-count :
      (l : ℕ) (ls : List ℕ) (s : Listeners) → count l (notify_each effects ls s).0 ≤ count l ls
  unfolding notify_each after_call
  notify_each-count l [] s = omega arith
  notify_each-count l (k ∷ ls) s =
      let p = notify_each-count l ls (after_call effects k s) in ground arith

  notify_each-IsDistinct :
      (ls : List ℕ) (s : Listeners) → IsDistinct s → IsDistinct (notify_each effects ls s).1
  unfolding notify_each after_call
  notify_each-IsDistinct [] s h = h
  notify_each-IsDistinct (k ∷ ls) s h =
      notify_each-IsDistinct ls (after_call effects k s) (after_call-IsDistinct effects k s h)

  notify_each-IsGone :
      (l : ℕ) (ls : List ℕ) (s : Listeners) → IsGone l s → count l (notify_each effects ls s).0 ≡ 0
  unfolding notify_each after_call IsGone
  notify_each-IsGone l [] s h = refl
  notify_each-IsGone l (k ∷ ls) s h =
      let p =
        notify_each-IsGone l ls (after_call effects k s) (after_call-IsGone effects l k s h) in
      let q = count-has l s.set h.1 in ground arith

  -- The loop over two lists one after the other.
  notify_each-++ :
      (l : ℕ) (ks js : List ℕ) (s : Listeners)
      → count l (notify_each effects (ks ++ js) s).0
        ≡ count l (notify_each effects ks s).0
          + count l (notify_each effects js (notify_each effects ks s).1).0
  unfolding notify_each after_call
  notify_each-++ l [] js s = omega arith
  notify_each-++ l (k ∷ ks) js s =
      let p = notify_each-++ l ks js (after_call effects k s) in ground arith

  -- For a set without duplicates, of listeners that were subscribed before, and whatever listeners
  -- the called ones subscribe and unsubscribe, none of them throwing: each one is called at most once, one that is not in the set
  -- when the notification begins is not called, and the set stays one without duplicates.
  pub notify-once :
      (s : Listeners)
      → IsDistinct s
      → ((l : ℕ) → count l (notify effects s).0 ≤ count l s.set)
        × ((l : ℕ) → count l (notify effects s).0 ≤ 1)
        × IsDistinct (notify effects s).1
  unfolding notify
  notify-once s h = (
    λ l. notify_each-count l s.set s,
    λ l. let p = notify_each-count l s.set s in let q = h.0 l in omega arith,
    notify_each-IsDistinct s.set s h,
  )

  -- A listener that was subscribed before the notification, and that is not in the set any more
  -- when the first part of the set has been notified, is not called by the rest of the
  -- notification.
  pub notify-removed :
      (s : Listeners) (l : ℕ) (ks js : List ℕ)
      → s.set ≡ ks ++ js
      → let before = notify_each effects ks s in
        l < before.1.next
        → has before.1.set l ≡ false
        → count l (notify effects s).0 ≡ count l before.0
  unfolding notify IsGone
  notify-removed s l ks js e old gone =
      let before = notify_each effects ks s in
      let rest = notify_each-IsGone l js before.1 (old, has-count l before.1.set gone) in
      ap (λ x. count l (notify_each effects x s).0) e
      ∙ notify_each-++ l ks js s
      ∙ omega (arith, rest)

  -- A set in which all of a list's listeners are.
  Holds : List ℕ → Listeners → Type 0
  Holds ls s = (l : ℕ) → 0 < count l ls → 0 < count l s.set

  subscribe-Holds :
      (es : List Effect) (s : Listeners) (ls : List ℕ)
      → ((l : ℕ) → mentions l es ≡ false)
      → Holds ls s
      → Holds ls (perform es s)
  unfolding Holds perform subscribe
  subscribe-Holds [] s ls only h = h
  subscribe-Holds (subscribes ∷ es) s ls only h =
      subscribe-Holds es (subscribe s) ls only
        (λ l p. let q = h l p in let e = count-++ l s.set (s.next ∷ []) in ground arith)
  subscribe-Holds (unsubscribes k ∷ es) s ls only h = let p = only k in absurd (ground arith)

  notify_each-all :
      (ls : List ℕ) (s : Listeners)
      → ((k l : ℕ) → mentions l (effects k) ≡ false)
      → Holds ls s
      → (notify_each effects ls s).0 ≡ ls
  unfolding Holds notify_each
  notify_each-all [] s only h = refl
  notify_each-all (k ∷ ls) s only h =
      let here = h k (ground arith) in
      let there = has-count k s.set in
      let keep = subscribe-Holds (effects k) s ls (only k) (λ l p. h l (ground arith)) in
      let p = notify_each-all ls (perform (effects k) s) only keep in
      elim (Bool-cases (has s.set k)) [
        | inl e ↦ rw (e, p) refl
        | inr e ↦ absurd (omega (arith, there e))
      ]

  -- If no listener unsubscribes one, and none throws, just the listeners that are in the set at the beginning are
  -- called, in the order of the set.
  pub notify-all :
      (s : Listeners) → ((k l : ℕ) → mentions l (effects k) ≡ false) → (notify effects s).0 ≡ s.set
  unfolding notify Holds
  notify-all s only = notify_each-all s.set s only (λ l p. p)
