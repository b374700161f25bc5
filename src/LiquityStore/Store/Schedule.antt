-- ===== src/LiquityStore/Store/Schedule.antt =====
-- The store's timer: never more than one update is scheduled.
use mathlib.Core.Option.{some-injective}
use liquity.Common.{ℕ, ◌≡◌, refl, ap, arith, true, Option, none, some, List, [], ◌∷◌, ◌⊎◌, inl, inr}
use liquity.LiquityStore.Store.{
  Timer, is_pending, cancel_id, clear_timeout, cancel_update_if_scheduled, schedule_update, fire,
}

-- Either nothing is pending, or just the timeout whose identifier the store holds.
abbrev pub HasOneTimeout : Timer → Type 0
HasOneTimeout t =
    (t.timeouts.pending ≡ [])
    ⊎ ((id : ℕ) × (t.update_timeout_id ≡ some id) × (t.timeouts.pending ≡ id ∷ []))

-- What happens to a timer: an update is scheduled (on loading and on every update), a pending
-- timeout fires, or the store is stopped.
pub data Step (t : Timer) : Timer → Type 0 where
  schedules : Step t (schedule_update t)
  fires : (id : ℕ) → is_pending id t.timeouts.pending ≡ true → Step t (fire id t)
  stops : Step t (cancel_update_if_scheduled t)

pub data Reach (s : Timer) : Timer → Type 0 where
  here : Reach s s
  next : {t u : Timer} → Reach s t → Step t u → Reach s u

clear_own : (id : ℕ) → clear_timeout id (id ∷ []) ≡ []
unfolding clear_timeout
clear_own id = ground arith

pub clear_only :
    (id : ℕ) (l : List ℕ)
    → (l ≡ []) ⊎ ((k : ℕ) × (l ≡ k ∷ []))
    → is_pending id l ≡ true
    → clear_timeout id l ≡ []
unfolding clear_timeout
clear_only id [] h p = refl
clear_only id (k ∷ []) h p = ground arith
clear_only id (k ∷ j ∷ l) (inl e) p = cc
clear_only id (k ∷ j ∷ l) (inr (m, e)) p = cc

cancel_id-pending :
    (o : Option ℕ) (t : Timer)
    → (t.timeouts.pending ≡ []) ⊎ ((id : ℕ) × (o ≡ some id) × (t.timeouts.pending ≡ id ∷ []))
    → (cancel_id o t).timeouts.pending ≡ []
unfolding cancel_id
cancel_id-pending none t (inl e) = e
cancel_id-pending none t (inr (id, e, f)) = cc
cancel_id-pending (some k) t (inl e) = rw e refl
cancel_id-pending (some k) t (inr (id, e, f)) = rw (f, some-injective _ _ e) (clear_own id)

pub cancel-pending :
    (t : Timer) → HasOneTimeout t → (cancel_update_if_scheduled t).timeouts.pending ≡ []
unfolding cancel_update_if_scheduled
cancel-pending t h = cancel_id-pending t.update_timeout_id t h

pub schedule-HasOneTimeout : (t : Timer) → HasOneTimeout t → HasOneTimeout (schedule_update t)
unfolding schedule_update
schedule-HasOneTimeout t h =
    let rest = cancel-pending t h in
    inr (_, refl, ap (λ ts. (cancel_update_if_scheduled t).timeouts.next_id ∷ ts) rest)

pub fire-HasOneTimeout :
    (t : Timer) (id : ℕ)
    → is_pending id t.timeouts.pending ≡ true
    → HasOneTimeout t
    → HasOneTimeout (fire id t)
unfolding fire
fire-HasOneTimeout t id p (inl e) = inl (clear_only id t.timeouts.pending (inl e) p)
fire-HasOneTimeout t id p (inr (k, e, f)) = inl (clear_only id t.timeouts.pending (inr (k, f)) p)

Step-HasOneTimeout : {t u : Timer} → Step t u → HasOneTimeout t → HasOneTimeout u
Step-HasOneTimeout {t} schedules h = schedule-HasOneTimeout t h
Step-HasOneTimeout {t} (fires id p) h = fire-HasOneTimeout t id p h
Step-HasOneTimeout {t} stops h = inl (cancel-pending t h)

-- If a store has at most one update scheduled, and holds the identifier of its timeout, that stays
-- so however updates, timeouts and stops follow one another.
pub Reach-HasOneTimeout : {s t : Timer} → HasOneTimeout s → Reach s t → HasOneTimeout t
Reach-HasOneTimeout h here = h
Reach-HasOneTimeout h (next r st) = Step-HasOneTimeout st (Reach-HasOneTimeout h r)

-- After a stop no update is scheduled, whatever updates, timeouts and stops came before it, if at
-- the beginning at most one was, whose identifier the store held.
pub stop-pending :
    {s t : Timer}
    → HasOneTimeout s
    → Reach s t
    → (cancel_update_if_scheduled t).timeouts.pending ≡ []
stop-pending {t = t} h r = cancel-pending t (Reach-HasOneTimeout h r)
