-- ===== src/LiquityStore/Listeners.antt =====
-- packages/lib-base/src/LiquityStore.ts: `subscribe` and `_notify`. `wrap` makes every subscribed
-- listener a new function, so a listener is an identifier that is used once; the `Set` of listeners
-- is a list in the order of insertion. Listeners that throw, which would end the loop, are left out.
pub mod Calls
use liquity.Common.{
  ℕ, suc, ◌≤◌, ◌<◌, ◌≡◌, refl, arith, Bool, true, false, ◌||◌, List, [], ◌∷◌, ◌++◌, ◌==◌,
  if◌then◌else◌, Bool-cases, inl, inr,
}

pub record Listeners : Type 0 where
  pub set : List ℕ
  pub next : ℕ

unfoldable pub has : List ℕ → ℕ → Bool
has [] l = false
has (k ∷ ks) l = k == l || has ks l

unfoldable pub delete : List ℕ → ℕ → List ℕ
delete [] l = []
delete (k ∷ ks) l = let rest = delete ks l in if k == l then rest else k ∷ rest

unfoldable pub subscribe : Listeners → Listeners
subscribe s = record { set = s.set ++ s.next ∷ []; next = suc s.next }

-- What the function that `subscribe` returns does.
unfoldable pub unsubscribe : ℕ → Listeners → Listeners
unfolding delete
unsubscribe l s = record s { set = delete s.set l }

-- What a listener does to the set when it is called.
pub data Effect : Type 0 where
  subscribes : Effect
  unsubscribes : ℕ → Effect

unfoldable pub perform : List Effect → Listeners → Listeners
perform [] s = s
perform (subscribes ∷ es) s = perform es (subscribe s)
perform (unsubscribes l ∷ es) s = perform es (unsubscribe l s)

-- The loop of `_notify` over the copy of the set: the listeners that are called, in order, and the
-- set after it. `effects` says what each listener does.
unfoldable pub notify_each : (ℕ → List Effect) → List ℕ → Listeners → List ℕ × Listeners
unfolding has
notify_each effects [] s = ([], s)
notify_each effects (l ∷ ls) s =
    let s' = if has s.set l then perform (effects l) s else s in
    let (called, after) = notify_each effects ls s' in
    (if has s.set l then l ∷ called else called, after)

-- `_notify`
unfoldable pub notify : (ℕ → List Effect) → Listeners → List ℕ × Listeners
unfolding notify_each
notify effects s = notify_each effects s.set s
