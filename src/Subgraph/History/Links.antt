-- ===== src/Subgraph/History/Links.antt =====
-- The changes of the system as a chain from state to state.
use native.Mathlib.Decide.{ℕ_discrete}
use mathlib.Core.Path.{subst}
use liquity.Common.{
  some-injective, ℕ, suc, ◌<◌, ◌≡◌, ◌∙◌, sym, ap, arith, Option, none, some, ◌==◌, if◌then◌else◌,
  ◌⊎◌, inl, inr,
}
use liquity.Subgraph.Entities.{SystemState, Details, Change, History}
use liquity.Subgraph.Tables.{Table, load, save, load-save_self, load-save_ne}

module _ {D : Type 0} where
  -- The current state is kept under its own number.
  pub record HasCurrent (st : SystemState D) (h : History D) : Type 0 where
    pub current : h.current_system_state ≡ some st.sequence_number
    pub kept : load st.sequence_number h.system_states ≡ some st
    pub counted : st.sequence_number < h.system_state_count

  -- The state before the k-th of n changes: for the next one, the last state.
  abbrev pub state_at : ℕ → ℕ → Option ℕ → Table (Change D) → Option ℕ
  state_at k n last changes =
      if k == n
      then last
      else elim (load k changes) [ none ↦ none | some c ↦ some c.system_state_before ]

  -- The k-th of n changes is kept under its number, and leads to a later state, at which the next
  -- one begins.
  pub record IsLink (k n : ℕ) (last : Option ℕ) (changes : Table (Change D)) : Type 0 where
    pub change : Change D
    pub kept : load k changes ≡ some change
    pub numbered : change.sequence_number ≡ k
    pub forward : change.system_state_before < change.system_state_after
    pub next : some change.system_state_after ≡ state_at (suc k) n last changes

  -- There is a current state as soon as there is a change.
  pub record IsChained (h : History D) : Type 0 where
    pub links :
        (k : ℕ) → k < h.change_count → IsLink k h.change_count h.current_system_state h.changes
    pub current :
        ((st : SystemState D) × HasCurrent st h)
        ⊎ ((h.current_system_state ≡ none) × (h.change_count ≡ 0))

  -- A change that is made at the last state is the last link.
  pub extend :
      (n : ℕ) (changes : Table (Change D)) (c : Change D)
      → c.sequence_number ≡ n
      → c.system_state_before < c.system_state_after
      → ((k : ℕ) → k < n → IsLink k n (some c.system_state_before) changes)
      → (k : ℕ) → k < suc n
      → IsLink k (suc n) (some c.system_state_after) (save n c changes)
  extend n changes c num fwd links k lt = elim (ℕ_discrete k n) [
    | yes e ↦ record {
      change = c;
      kept = rw e (load-save_self n c changes);
      numbered = num ∙ sym e;
      forward = fwd;
      next = ground (arith, e);
    }
    | no ne ↦
        let l = links k (omega arith) in
        record {
          change = l.change;
          kept = load-save_ne k n c changes ne ∙ l.kept;
          numbered = l.numbered;
          forward = l.forward;
          next = elim (ℕ_discrete (suc k) n) [
            | yes e ↦ ground (arith, l.next, load-save_self n c changes, e)
            | no ne' ↦ ground (arith, l.next, load-save_ne (suc k) n c changes ne')
          ];
        }
  ]

  -- A change may be overwritten by one with the same numbers and states.
  pub rewrite-IsChained :
      (n : ℕ) (c : Change D) (d : Details D) (h : History D)
      → load n h.changes ≡ some c
      → IsChained h
      → IsChained (record h { changes = save n (record c { details = d }) h.changes })
  rewrite-IsChained n c d h found k = record {
    links = λ j lt.
        let l = k.links j lt in
        let c' = record c { details = d } in
        let next : some l.change.system_state_after
            ≡ state_at (suc j) h.change_count h.current_system_state (save n c' h.changes) =
          elim (ℕ_discrete (suc j) n) [
            | yes e ↦ ground (arith, l.next, load-save_self n c' h.changes, e, found)
            | no ne ↦ ground (arith, l.next, load-save_ne (suc j) n c' h.changes ne)
          ] in
        elim (ℕ_discrete j n) [
          | yes e ↦
              let same : l.change ≡ c =
                some-injective (sym l.kept ∙ ap (λ x. load x h.changes) e ∙ found) in
              record {
                change = c';
                kept = ap (λ x. load x (save n c' h.changes)) e ∙ load-save_self n c' h.changes;
                numbered = ap (λ (x : Change D). x.sequence_number) (sym same) ∙ l.numbered;
                forward =
                    subst (λ (x : Change D). x.system_state_before < x.system_state_after) same
                      l.forward;
                next = ap (λ (x : Change D). some x.system_state_after) (sym same) ∙ next;
              }
          | no ne ↦ record {
            change = l.change;
            kept = load-save_ne j n c' h.changes ne ∙ l.kept;
            numbered = l.numbered;
            forward = l.forward;
            next = next;
          }
        ];
    current = elim k.current [
      | inl (st, x) ↦ inl (st, record { current = x.current; kept = x.kept; counted = x.counted })
      | inr x ↦ inr x
    ];
  }
