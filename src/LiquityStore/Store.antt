-- ===== src/LiquityStore/Store.antt =====
-- packages/lib-base/src/LiquityStore.ts: `class LiquityStore`, its loading, its updates and its
-- timer. What a subclass adds is a parameter: the type of the extra state and of its updates, and
-- `_reduceExtra`. The timers that the environment holds are part of the state.
pub mod Schedule
pub mod Changes
use liquity.Common.{
  ℕ, suc, Bool, true, false, ◌||◌, Option, none, some, List, [], ◌∷◌, ◌==◌, if◌then◌else◌, Result,
  ok, err, assertion_failed,
}
use liquity.LiquityStore.State.{BaseState, BaseUpdate, DerivedState, DerivedUpdate}
use liquity.LiquityStore.Reduce.{reduce, base_difference}
use liquity.LiquityStore.Derive.{DerivedIds, derive, reduce_derived, derived_difference}

-- The timeouts that are set and have neither fired nor been cleared, by their identifiers.
pub record Timeouts : Type 0 where
  pub pending : List ℕ
  pub next_id : ℕ

unfoldable pub clear_timeout : ℕ → List ℕ → List ℕ
clear_timeout id [] = []
clear_timeout id (t ∷ ts) = if t == id then clear_timeout id ts else t ∷ clear_timeout id ts

abbrev pub is_pending : ℕ → List ℕ → Bool
is_pending id [] = false
is_pending id (t ∷ ts) = t == id || is_pending id ts

-- The timer of a store: `_updateTimeoutId`, and the environment's timeouts.
pub record Timer : Type 0 where
  pub update_timeout_id : Option ℕ
  pub timeouts : Timeouts

-- `_cancelUpdateIfScheduled`
cancel_id : Option ℕ → Timer → Timer
unfolding clear_timeout
cancel_id none t = t
cancel_id (some id) t = record t {
  timeouts = record t.timeouts { pending = clear_timeout id t.timeouts.pending };
}

unfoldable pub cancel_update_if_scheduled : Timer → Timer
unfolding cancel_id
cancel_update_if_scheduled t = cancel_id t.update_timeout_id t

set_timeout : Timer → Timer
set_timeout t = record {
  update_timeout_id = some t.timeouts.next_id;
  timeouts = record {
    pending = t.timeouts.next_id ∷ t.timeouts.pending;
    next_id = suc t.timeouts.next_id;
  };
}

-- `_scheduleUpdate`
unfoldable pub schedule_update : Timer → Timer
unfolding cancel_update_if_scheduled set_timeout
schedule_update t = set_timeout (cancel_update_if_scheduled t)

-- The environment fires a timeout; its callback first forgets the identifier, and then updates.
unfoldable pub fire : ℕ → Timer → Timer
unfolding clear_timeout
fire id t = record {
  update_timeout_id = none;
  timeouts = record t.timeouts { pending = clear_timeout id t.timeouts.pending };
}

-- The fields of the store, for an extra state of type E.
pub record Store (E : Type 0) : Type 0 where
  pub loaded : Bool
  pub base_state : Option BaseState
  pub derived_state : Option DerivedState
  pub extra_state : Option E
  pub timer : Timer

-- `LiquityStoreListenerParams`; the state is the three parts that `get state` merges. Of the
-- `stateChange` the part of the extra state is left out.
pub record ListenerParams (E : Type 0) : Type 0 where
  pub new_base : BaseState
  pub new_derived : DerivedState
  pub new_extra : Option E
  pub old_base : BaseState
  pub old_derived : DerivedState
  pub old_extra : Option E
  pub base_change : BaseUpdate
  pub derived_change : DerivedUpdate

module _ {E U : Type 0} (reduce_extra : E → U → E) where
  finish_load : Store E → BaseState → Option E → Result DerivedState → Store E × Result (Unit {0})
  unfolding schedule_update
  finish_load s base extra (err e) = (record s { base_state = some base }, err e)
  finish_load s base extra (ok derived) = (
    record {
      loaded = true;
      base_state = some base;
      derived_state = some derived;
      extra_state = extra;
      timer = schedule_update s.timer;
    },
    ok tt,
  )

  -- `_load`, up to the call of `onLoaded`. A state stays as it was changed before an exception.
  unfoldable pub load : Store E → DerivedIds → BaseState → Option E → Store E × Result (Unit {0})
  unfolding finish_load
  load s ids base extra =
      if s.loaded then (s, err assertion_failed) else finish_load s base extra (derive ids base)

  -- The base state after an update, if there is one.
  abbrev pub updated_base : BaseState → Option BaseUpdate → BaseState
  updated_base base none = base
  updated_base base (some u) = reduce base u

  -- The extra state after an update; `none` is the failed assertion that there is an extra state.
  abbrev pub updated_extra : Option E → Option U → Option (Option E)
  updated_extra extra none = some extra
  updated_extra none (some u) = none
  updated_extra (some e) (some u) = some (some (reduce_extra e u))

  notified :
      Store E
      → BaseState
      → DerivedState
      → BaseState
      → DerivedState
      → Option (Option E)
      → Store E × Result (ListenerParams E)
  unfolding schedule_update base_difference derived_difference
  notified s old_base old_derived base derived none =
      (record s { base_state = some base; derived_state = some derived }, err assertion_failed)
  notified s old_base old_derived base derived (some extra) = (
    record s {
      base_state = some base;
      derived_state = some derived;
      extra_state = extra;
      timer = schedule_update s.timer;
    },
    ok (record {
      new_base = base;
      new_derived = derived;
      new_extra = extra;
      old_base = old_base;
      old_derived = old_derived;
      old_extra = s.extra_state;
      base_change = base_difference base old_base;
      derived_change = derived_difference derived old_derived;
    }),
  )

  rederived :
      Store E
      → BaseState
      → DerivedState
      → BaseState
      → Result DerivedState
      → Option U
      → Store E × Result (ListenerParams E)
  unfolding notified reduce_derived
  rederived s old_base old_derived base (err e) u = (record s { base_state = some base }, err e)
  rederived s old_base old_derived base (ok fresh) u =
      notified s old_base old_derived base (reduce_derived old_derived fresh)
        (updated_extra s.extra_state u)

  update_states :
      Store E
      → DerivedIds
      → Option BaseState
      → Option DerivedState
      → Option BaseUpdate
      → Option U
      → Store E × Result (ListenerParams E)
  unfolding rederived
  update_states s ids (some base) (some derived) bu eu =
      let base' = updated_base base bu in rederived s base derived base' (derive ids base') eu
  update_states s ids _ _ bu eu = (s, err assertion_failed)

  -- `_update`: the new store, and what the listeners are notified of.
  unfoldable pub update :
      Store E → DerivedIds → Option BaseUpdate → Option U → Store E × Result (ListenerParams E)
  unfolding update_states
  update s ids bu eu = update_states s ids s.base_state s.derived_state bu eu
