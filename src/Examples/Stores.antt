-- ===== src/Examples/Stores.antt =====
-- Runs of a store and its timer, and the store's theorems at concrete inputs.
use liquity.Common.{arith, ℕ, ◌+◌, ◌≡◌, refl, inl, true, false, none, some, [], ◌∷◌, ok}
use liquity.LiquityStore.State.{DerivedState}
use liquity.LiquityStore.Reduce.{reduce}
use liquity.LiquityStore.Derive.{derive}
use liquity.LiquityStore.Derive.News.{IsCoherentDerived, derive-identities}
use liquity.LiquityStore.Store.{
  Timer, cancel_update_if_scheduled, schedule_update, Store, ListenerParams, load, update,
}
use liquity.LiquityStore.Store.Schedule.{
  HasOneTimeout, Reach, here, next, schedules, Reach-HasOneTimeout, stop-pending,
}
use liquity.LiquityStore.Store.Changes.{IsConsistent, load-IsConsistent, IsTold, update-notifies}
use liquity.Examples.States.{
  at_first, tick, ids, tick-IsCoherentUpdate, tick-IsDecaying, tick-IsInRange,
}

abbrev idle : Timer
idle = record { update_timeout_id = none; timeouts = record { pending = []; next_id = 5 } }

abbrev twice : Timer
twice = schedule_update (schedule_update idle)

twice_pending : twice.timeouts.pending ≡ 6 ∷ []
unfolding schedule_update
twice_pending = refl

scheduled_twice : Reach idle twice
scheduled_twice = next (next here schedules) schedules

Reach-HasOneTimeout_example : HasOneTimeout twice
Reach-HasOneTimeout_example = Reach-HasOneTimeout (inl refl) scheduled_twice

stop-pending_example : (cancel_update_if_scheduled twice).timeouts.pending ≡ []
stop-pending_example = stop-pending {s = idle} {t = twice} (inl refl) scheduled_twice

abbrev reduce_count : ℕ → ℕ → ℕ
reduce_count count more = count + more

abbrev fresh : Store ℕ
fresh = record {
  loaded = false;
  base_state = none;
  derived_state = none;
  extra_state = none;
  timer = idle;
}

fresh-IsConsistent : IsConsistent fresh
fresh-IsConsistent l = cc

load-IsConsistent_example : IsConsistent (load reduce_count fresh ids at_first (some 4)).0
load-IsConsistent_example =
    load-IsConsistent reduce_count fresh ids at_first (some 4) fresh-IsConsistent

abbrev derived : DerivedState
derived = record {
  trove = record { identity = 50; value = at_first.trove_before_redistribution.value.user };
  fees = record { identity = 51; value = at_first.fees_in_normal_mode.value };
  borrowing_rate = record { identity = 52; value = 3 };
  redemption_rate = record { identity = 53; value = 4 };
  have_undercollateralized_troves = true;
}

abbrev running : Store ℕ
running = record {
  loaded = true;
  base_state = some at_first;
  derived_state = some derived;
  extra_state = some 4;
  timer = idle;
}

-- The objects that are derived get the identities 200 to 203, and are no objects of the old state.
derived-IsCoherentDerived :
    (d : DerivedState) → derive ids (reduce at_first tick) ≡ ok d → IsCoherentDerived derived d
derived-IsCoherentDerived d e =
    let (t, f, b, r) = derive-identities ids (reduce at_first tick) d e in
    record {
      trove = λ q. absurd (omega arith);
      fees = λ q. absurd (omega arith);
      borrowing_rate = λ q. absurd (omega arith);
      redemption_rate = λ q. absurd (omega arith);
    }

update-notifies_example :
    (p : ListenerParams ℕ) × ((update reduce_count running ids (some tick) none).1 ≡ ok p)
    × IsTold at_first derived tick p
    × ((update reduce_count running ids (some tick) none).0.base_state ≡ some p.new_base)
    × ((update reduce_count running ids (some tick) none).0.derived_state ≡ some p.new_derived)
    × ((update reduce_count running ids (some tick) none).0.timer ≡ schedule_update idle)
update-notifies_example =
    update-notifies reduce_count running ids at_first derived tick refl refl tick-IsCoherentUpdate
      derived-IsCoherentDerived tick-IsDecaying tick-IsInRange
