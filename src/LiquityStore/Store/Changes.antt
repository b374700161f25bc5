-- ===== src/LiquityStore/Store/Changes.antt =====
-- `_load` and `_update`: when they succeed, and what an update leaves and tells the listeners.
use liquity.Common.{◌≡◌, ◌≢◌, ◌∙◌, ap, in_either, refl, true, Option, none, some, Result, ok, err}
use liquity.Fees.Rates.{IsDecaying, IsInRange}
use liquity.LiquityStore.State.{BaseState, BaseUpdate, DerivedState}
use liquity.LiquityStore.Reduce.{reduce, base_difference}
use liquity.LiquityStore.Changes.{
  IsCoherentUpdate, all_news, HasValues, base_difference-reduce, reduce-HasValues,
}
use liquity.LiquityStore.Derive.{DerivedIds, derive, reduce_derived, derived_difference}
use liquity.LiquityStore.Derive.Rates.{Describes, derive-Describes}
use liquity.LiquityStore.Derive.News.{
  IsCoherentDerived, TellsDerived, reduce_derived-Tells, reduce_derived-Describes,
}
use liquity.LiquityStore.Store.{
  Store, ListenerParams, finish_load, load, notified, rederived, update_states, update,
  schedule_update,
}

-- A loaded store has a base state and a derived state.
abbrev pub IsConsistent : {E : Type 0} → Store E → Type 0
IsConsistent s = s.loaded ≡ true → (s.base_state ≢ none) × (s.derived_state ≢ none)

-- What the listeners are told by an update u of a store with the states b and d: the old states;
-- the new base state, which has the values that the update brings, and the new derived state, which
-- describes it; and of both just the variables whose values have changed.
pub record IsTold {E : Type 0} (b : BaseState) (d : DerivedState) (u : BaseUpdate)
    (p : ListenerParams E) : Type 0 where
  pub old_base : p.old_base ≡ b
  pub old_derived : p.old_derived ≡ d
  pub new_base : HasValues b u p.new_base
  pub new_derived : Describes p.new_base p.new_derived
  pub base_change : p.base_change ≡ all_news b u
  pub derived_change : TellsDerived d p.new_derived p.derived_change

module _ {E U : Type 0} (reduce_extra : E → U → E) where
  finish_load-IsConsistent :
      (s : Store E) (b : BaseState) (x : Option E) (r : Result DerivedState)
      → IsConsistent s
      → IsConsistent (finish_load reduce_extra s b x r).0
  unfolding finish_load
  finish_load-IsConsistent s b x (err e) h = λ l. ((λ n. cc), (h l).1)
  finish_load-IsConsistent s b x (ok d) h = λ l. ((λ n. cc), (λ n. cc))

  -- If a store has a base state and a derived state once it is loaded, that stays so with a call of
  -- `_load`, whether it succeeds or throws.
  pub load-IsConsistent :
      (s : Store E) (ids : DerivedIds) (b : BaseState) (x : Option E)
      → IsConsistent s
      → IsConsistent (load reduce_extra s ids b x).0
  unfolding load
  load-IsConsistent s ids b x h =
      in_either (λ (r : Store E × Result (Unit {0})). IsConsistent r.0) s.loaded _ _ h
        (finish_load-IsConsistent s b x _ h)

  notified-IsConsistent :
      (s : Store E) (ob : BaseState) (od : DerivedState) (b : BaseState) (d : DerivedState)
      (x : Option (Option E))
      → IsConsistent (notified reduce_extra s ob od b d x).0
  unfolding notified
  notified-IsConsistent s ob od b d none = λ l. ((λ n. cc), (λ n. cc))
  notified-IsConsistent s ob od b d (some x) = λ l. ((λ n. cc), (λ n. cc))

  rederived-IsConsistent :
      (s : Store E) (ob : BaseState) (od : DerivedState) (b : BaseState) (r : Result DerivedState)
      (eu : Option U)
      → IsConsistent s
      → IsConsistent (rederived reduce_extra s ob od b r eu).0
  unfolding rederived
  rederived-IsConsistent s ob od b (err e) eu h = λ l. ((λ n. cc), (h l).1)
  rederived-IsConsistent s ob od b (ok d) eu h = notified-IsConsistent s ob od b _ _

  update_states-IsConsistent :
      (s : Store E) (ids : DerivedIds) (ob : Option BaseState) (od : Option DerivedState)
      (bu : Option BaseUpdate) (eu : Option U)
      → IsConsistent s
      → IsConsistent (update_states reduce_extra s ids ob od bu eu).0
  unfolding update_states
  update_states-IsConsistent s ids (some b) (some d) bu eu h = rederived-IsConsistent s b d _ _ eu h
  update_states-IsConsistent s ids none od bu eu h = h
  update_states-IsConsistent s ids (some b) none bu eu h = h

  -- If a store has a base state and a derived state once it is loaded, that stays so with an
  -- update, whether it succeeds or throws.
  pub update-IsConsistent :
      (s : Store E) (ids : DerivedIds) (bu : Option BaseUpdate) (eu : Option U)
      → IsConsistent s
      → IsConsistent (update reduce_extra s ids bu eu).0
  unfolding update
  update-IsConsistent s ids bu eu h =
      update_states-IsConsistent s ids s.base_state s.derived_state bu eu h

  -- The store and the notification of an update whose derived state is known.
  abbrev stored : Store E → BaseState → DerivedState → BaseUpdate → DerivedState → Store E
  stored s b d u fresh = record s {
    base_state = some (reduce b u);
    derived_state = some (reduce_derived d fresh);
    extra_state = s.extra_state;
    timer = schedule_update s.timer;
  }

  abbrev told : Store E → BaseState → DerivedState → BaseUpdate → DerivedState → ListenerParams E
  told s b d u fresh = record {
    new_base = reduce b u;
    new_derived = reduce_derived d fresh;
    new_extra = s.extra_state;
    old_base = b;
    old_derived = d;
    old_extra = s.extra_state;
    base_change = base_difference (reduce b u) b;
    derived_change = derived_difference (reduce_derived d fresh) d;
  }

  update_lem :
      (s : Store E) (ids : DerivedIds) (b : BaseState) (d fresh : DerivedState) (u : BaseUpdate)
      → s.base_state ≡ some b
      → s.derived_state ≡ some d
      → derive ids (reduce b u) ≡ ok fresh
      → update reduce_extra s ids (some u) none ≡ (stored s b d u fresh, ok (told s b d u fresh))
  unfolding update
  update_lem s ids b d fresh u eb ed e =
      (λ i. update_states reduce_extra s ids (eb i) (ed i) (some u) none)
      ∙ ap (λ r. rederived reduce_extra s b d (reduce b u) r none) e

  -- Under these conditions an update of a store that has a base and a derived state succeeds, if it
  -- does not update the extra state: the fees decay, less than 2 ^ 32 minutes have passed since the
  -- last fee operation, and an object of the update, or one that is derived, that is an object of the
  -- state has the same value. Then the listeners are told of the old states, of the new base state,
  -- which has the values that the update brings, of the new derived state, which describes the new
  -- base state, and of just the variables whose values have changed; the store keeps both new states;
  -- and the next update is scheduled.
  pub update-notifies :
      (s : Store E) (ids : DerivedIds) (b : BaseState) (d : DerivedState) (u : BaseUpdate)
      → s.base_state ≡ some b
      → s.derived_state ≡ some d
      → IsCoherentUpdate b u
      → ((fresh : DerivedState) → derive ids (reduce b u) ≡ ok fresh → IsCoherentDerived d fresh)
      → IsDecaying (reduce b u).fees_in_normal_mode.value
      → IsInRange (reduce b u).fees_in_normal_mode.value none
      → let after = update reduce_extra s ids (some u) none in
        (p : ListenerParams E) × (after.1 ≡ ok p)
        × IsTold b d u p
        × (after.0.base_state ≡ some p.new_base)
        × (after.0.derived_state ≡ some p.new_derived)
        × (after.0.timer ≡ schedule_update s.timer)
  update-notifies s ids b d u eb ed c cd dec range =
      let (fresh, e, describes) = derive-Describes ids (reduce b u) dec range in
      let all = update_lem s ids b d fresh u eb ed e in
      (
        told s b d u fresh,
        ap (λ r. r.1) all,
        record {
          old_base = refl;
          old_derived = refl;
          new_base = reduce-HasValues b u;
          new_derived = reduce_derived-Describes (reduce b u) d fresh describes;
          base_change = base_difference-reduce b u c;
          derived_change = reduce_derived-Tells d fresh (cd fresh e);
        },
        ap (λ r. r.0.base_state) all,
        ap (λ r. r.0.derived_state) all,
        ap (λ r. r.0.timer) all,
      )
