-- ===== src/Examples/Notifications.antt =====
-- Runs of `_notify`, and its theorems at concrete inputs.
use liquity.Common.{ℕ, zero, suc, ◌≤◌, ◌<◌, ◌≡◌, refl, arith, false, List, [], ◌∷◌}
use liquity.LiquityStore.Listeners.{
  Listeners, has, subscribe, unsubscribe, Effect, subscribes, unsubscribes, perform, notify_each,
  notify,
}
use liquity.LiquityStore.Listeners.Calls.{count, IsDistinct, mentions, notify-once, notify-all}

abbrev three : Listeners
three = record { set = 0 ∷ 1 ∷ 2 ∷ []; next = 3 }

-- The first listener unsubscribes the last one and subscribes a new one.
abbrev meddles : ℕ → List Effect
meddles zero = unsubscribes 2 ∷ subscribes ∷ []
meddles (suc l) = []

abbrev subscribes_more : ℕ → List Effect
subscribes_more l = subscribes ∷ []

meddled : (notify meddles three).0 ≡ 0 ∷ 1 ∷ []
unfolding notify subscribe unsubscribe perform
meddled = refl

three-IsDistinct : IsDistinct three
three-IsDistinct = (λ l. ground arith, λ l h. ground arith)

notify-once_example :
    ((l : ℕ) → count l (notify meddles three).0 ≤ count l three.set)
    × ((l : ℕ) → count l (notify meddles three).0 ≤ 1)
    × IsDistinct (notify meddles three).1
notify-once_example = notify-once meddles three three-IsDistinct

known : 2 < (notify_each meddles (0 ∷ []) three).1.next
unfolding notify_each subscribe unsubscribe perform
known = omega arith

removed : has (notify_each meddles (0 ∷ []) three).1.set 2 ≡ false
unfolding notify_each subscribe unsubscribe perform
removed = refl

nobody_unsubscribes : (k l : ℕ) → mentions l (subscribes_more k) ≡ false
nobody_unsubscribes k l = refl

notify-all_example : (notify subscribes_more three).0 ≡ three.set
notify-all_example = notify-all subscribes_more three nobody_unsubscribes
