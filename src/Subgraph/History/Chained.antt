-- ===== src/Subgraph/History/Chained.antt =====
-- A change, from its beginning to its end, extends the chain.
use mathlib.Core.Path.{subst}
use liquity.Common.{ℕ, suc, ◌<◌, ◌≡◌, ◌∙◌, sym, refl, arith, none, some, ◌⊎◌, inl, inr}
use liquity.Subgraph.Decimals.{BigDecimals}
use liquity.Subgraph.Entities.{SystemState, Details, Change, History}
use liquity.Subgraph.History.{
  new_system_state, bump_system_state, load_current, get_current_system_state, start_change,
  finish_change,
}
use liquity.Subgraph.History.Links.{HasCurrent, IsLink, IsChained, extend}
use liquity.Subgraph.SystemState.{bumped}
use liquity.Subgraph.Tables.{load, save, load-save_self}

module _ (b : BigDecimals) where
  open b use {D}

  load-HasCurrent :
      (st : SystemState D) (h : History D) → HasCurrent st h → load_current b h ≡ some st
  load-HasCurrent st h c = rw c.current c.kept

  pub get_current-HasCurrent :
      (st : SystemState D) (h : History D)
      → HasCurrent st h
      → get_current_system_state b h ≡ (st, h)
  unfolding get_current_system_state
  get_current-HasCurrent st h c = ground (arith, load-HasCurrent st h c)

  -- The state that a bump saves
  abbrev numbered_state : SystemState D → History D → SystemState D
  numbered_state st h = record st { sequence_number = h.system_state_count }

  pub bump-HasCurrent :
      (st : SystemState D) (h : History D)
      → HasCurrent (numbered_state st h) (bump_system_state b st h)
  unfolding bump_system_state
  bump-HasCurrent st h = record {
    current = refl;
    kept = load-save_self h.system_state_count (numbered_state st h) h.system_states;
    counted = omega arith;
  }

  get_current-none :
      (h : History D)
      → h.current_system_state ≡ none
      → get_current_system_state b h ≡ (
        new_system_state b h.system_state_count,
        bump_system_state b (new_system_state b h.system_state_count) h,
      )
  unfolding get_current_system_state
  get_current-none h e = ground arith

  bump-counted :
      (st : SystemState D) (h : History D)
      → (bump_system_state b st h).change_count ≡ h.change_count
  unfolding bump_system_state
  bump-counted st h = refl

  bump-changes :
      (st : SystemState D) (h : History D) → (bump_system_state b st h).changes ≡ h.changes
  unfolding bump_system_state
  bump-changes st h = refl

  -- A change that has begun: the state before it is the current one.
  pub record HasBegun (started : ℕ × ℕ) (h : History D) : Type 0 where
    pub state : SystemState D
    pub is_current : HasCurrent state h
    pub before : started.1 ≡ state.sequence_number
    pub counted : h.change_count ≡ suc started.0
    pub links : (k : ℕ) → k < started.0 → IsLink k started.0 (some started.1) h.changes

  begun :
      (h : History D)
      → IsChained h
      → ((st : SystemState D) × HasCurrent st h)
        ⊎ ((h.current_system_state ≡ none) × (h.change_count ≡ 0))
      → HasBegun (start_change b h).0 (start_change b h).1
  unfolding start_change
  begun h c (inl (st, k)) =
      let h' = record h { change_count = suc h.change_count } in
      let k' : HasCurrent st h' = record {
        current = k.current;
        kept = k.kept;
        counted = k.counted;
      } in
      rw (get_current-HasCurrent st h' k') (record {
        state = st;
        is_current = k';
        before = refl;
        counted = refl;
        links = λ j lt. rw (← k.current) (c.links j lt);
      })
  begun h c (inr (e, z)) =
      let h' = record h { change_count = suc h.change_count } in
      let st = new_system_state b h.system_state_count in
      rw (get_current-none h' e) (record {
        state = st;
        is_current = bump-HasCurrent st h';
        before = refl;
        counted = bump-counted st h';
        links = λ j lt. absurd (omega arith);
      })

  pub start_change-HasBegun :
      (h : History D) → IsChained h → HasBegun (start_change b h).0 (start_change b h).1
  unfolding start_change
  start_change-HasBegun h c = begun h c c.current

  closed :
      (started : ℕ × ℕ) (h : History D) (c : Change D) (st : SystemState D)
      → HasCurrent st h
      → c.sequence_number ≡ started.0
      → c.system_state_before ≡ started.1
      → c.system_state_after ≡ st.sequence_number
      → c.system_state_before < c.system_state_after
      → h.change_count ≡ suc started.0
      → ((k : ℕ) → k < started.0 → IsLink k started.0 (some started.1) h.changes)
      → IsChained (record h { changes = save started.0 c h.changes })
  closed started h c st k n p q fwd count links = record {
    links = rw (count, k.current, ← q) (extend started.0 h.changes c n fwd (rw p links));
    current = inl (st, record { current = k.current; kept = k.kept; counted = k.counted });
  }

  pub finish_change-IsChained :
      (started : ℕ × ℕ) (transaction : ℕ) (details : Details D) (st : SystemState D) (h : History D)
      → HasBegun started h
      → IsChained (finish_change b started transaction details (bump_system_state b st h))
  unfolding finish_change
  finish_change-IsChained started transaction details st h o =
      let h' = bump_system_state b st h in
      let k = bump-HasCurrent st h in
      rw (get_current-HasCurrent (numbered_state st h) h' k) (
        closed started h'
          (record {
            sequence_number = started.0;
            transaction = transaction;
            system_state_before = started.1;
            system_state_after = h.system_state_count;
            details = details;
          })
          (numbered_state st h) k refl refl refl (rw o.before o.is_current.counted)
          (bump-counted st h ∙ o.counted) (rw (bump-changes st h) o.links))

  -- The state that is current may be created first.
  current_of :
      (h : History D)
      → IsChained h
      → ((st : SystemState D) × HasCurrent st h)
        ⊎ ((h.current_system_state ≡ none) × (h.change_count ≡ 0))
      → HasCurrent (get_current_system_state b h).0 (get_current_system_state b h).1
        × IsChained (get_current_system_state b h).1
  current_of h c (inl (st, k)) = rw (get_current-HasCurrent st h k) (k, c)
  current_of h c (inr (e, z)) =
      let st = new_system_state b h.system_state_count in
      let k = bump-HasCurrent st h in
      rw (get_current-none h e) (
        k,
        record { links = λ j lt. absurd (omega (arith, bump-counted st h)); current = inl (st, k) },
      )

  pub get_current-IsChained :
      (h : History D)
      → IsChained h
      → HasCurrent (get_current_system_state b h).0 (get_current_system_state b h).1
        × IsChained (get_current_system_state b h).1
  get_current-IsChained h c = current_of h c c.current

  -- The current state may be overwritten.
  pub overwrite-IsChained :
      (st new : SystemState D) (h : History D)
      → new.sequence_number ≡ st.sequence_number
      → HasCurrent st h
      → IsChained h
      → IsChained (record h { system_states = save st.sequence_number new h.system_states })
  overwrite-IsChained st new h e k c = record {
    links = c.links;
    current = inl (
      new,
      record {
        current = rw e k.current;
        kept =
            subst (λ k. load k (save st.sequence_number new h.system_states) ≡ some new) (sym e)
              (load-save_self st.sequence_number new h.system_states);
        counted = rw e k.counted;
      },
    );
  }

  -- An update of the totals is a bump, and ends the change.
  pub finish-bumped :
      (started : ℕ × ℕ) (transaction : ℕ) (details : Details D) (f : SystemState D → SystemState D)
      (h : History D)
      → HasBegun started h
      → IsChained (finish_change b started transaction details (bumped b f h))
  finish-bumped started transaction details f h o =
      rw (get_current-HasCurrent o.state h o.is_current)
        (finish_change-IsChained started transaction details (f o.state) h o)

  -- What begins a change leaves the current state, and so does what ends it.
  pub start_change-HasCurrent :
      (st : SystemState D) (h : History D) → HasCurrent st h → HasCurrent st (start_change b h).1
  unfolding start_change
  start_change-HasCurrent st h k =
      let h' = record h { change_count = suc h.change_count } in
      let k' : HasCurrent st h' = record {
        current = k.current;
        kept = k.kept;
        counted = k.counted;
      } in
      rw (get_current-HasCurrent st h' k') k'

  pub finish_change-HasCurrent :
      (n : ℕ × ℕ) (transaction : ℕ) (d : Details D) (st : SystemState D) (h : History D)
      → HasCurrent st h
      → HasCurrent st (finish_change b n transaction d h)
  unfolding finish_change
  finish_change-HasCurrent n transaction d st h k =
      rw (get_current-HasCurrent st h k)
        (record { current = k.current; kept = k.kept; counted = k.counted })
