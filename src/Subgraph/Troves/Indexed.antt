-- ===== src/Subgraph/Troves/Indexed.antt =====
-- The counters of `Global` when a Trove is saved.
use mathlib.Core.Path.{subst, fun_ext}
use native.Mathlib.Decide.{ℕ_discrete}
use liquity.Common.{
  some-injective, ℕ, suc, ◌≡◌, ◌≢◌, ◌∙◌, sym, ap, refl, arith, Bool, true, false, ◌&&◌, none, some,
  ◌⊎◌, inl, inr,
}
use liquity.Subgraph.{
  Global, increase_number_of_open_troves, Status, open_trove, closed_by_owner,
  closed_by_liquidation, closed_by_redemption, set_trove_status,
}
use liquity.Subgraph.Counters.{IsOrderly, Matches, with_one, set-Matches}
use liquity.Subgraph.Decimals.{BigDecimals, IsComparable, decimalize}
use liquity.Subgraph.Entities.{TroveOperation, Trove, Population}
use liquity.Subgraph.Tables.{Table, load, save, load-save_self, load-save_ne}
use liquity.Subgraph.Troves.{status_after, new_trove, updated_trove, save_trove}
use liquity.Subgraph.Troves.Counts.{
  count, length, without, count-without, count-save, count-save_new, length-save, length-save_new,
}

pub both_left : (x y : Bool) → x && y ≡ true → x ≡ true
both_left true y e = refl
both_left false y e = e

-- Another way to count, with the same numbers.
recount :
    (g : Global) (f f' : Status → ℕ) (n n' : ℕ) → f' ≡ f → n' ≡ n → Matches g f n → Matches g f' n'
recount g f f' n n' e q m =
    subst (λ k. Matches g f' k) (sym q) (subst (λ k. Matches g k n) (sym e) m)

created :
    (g : Global) (f : Status → ℕ) (n : ℕ)
    → Matches g f n
    → Matches (increase_number_of_open_troves g) (with_one f open_trove) (suc n)
created g f n m = ground arith

module _ (b : BigDecimals) where
  open b use {D}

  -- A Trove is open, or it is empty.
  abbrev pub IsSettled : Trove D → Type 0
  IsSettled t =
      (t.status ≡ open_trove) ⊎ ((t.collateral ≡ decimalize b 0) × (t.debt ≡ decimalize b 0))

  -- Every counter is the number of the Troves of its status.
  pub record IsIndexed (p : Population D) : Type 0 where
    pub counted : Matches p.counters (count p.troves) (length p.troves)
    pub settled : (k : ℕ) (t : Trove D) → load k p.troves ≡ some t → IsSettled t

  to_open :
      (op : TroveOperation) (coll : ℕ) (before : Status)
      → coll ≢ 0
      → IsOrderly before (status_after op coll)
  to_open op coll open_trove nz = refl
  to_open op coll closed_by_owner nz = ground arith
  to_open op coll closed_by_liquidation nz = ground arith
  to_open op coll closed_by_redemption nz = ground arith

  pub orderly :
      (comparable : IsComparable b) (op : TroveOperation) (coll debt : ℕ) (t : Trove D)
      → (coll ≡ 0 → debt ≡ 0)
      → IsSettled t
      → b.equals (decimalize b coll) t.collateral && b.equals (decimalize b debt) t.debt ≡ false
      → IsOrderly t.status (status_after op coll)
  orderly comparable op coll debt t h (inl o) e = rw o refl
  orderly comparable op coll debt t h (inr (c, d)) e = elim (ℕ_discrete coll 0) [
    | yes z ↦
        let at_zero : (n : ℕ) (x : D)
            → n ≡ 0
            → x ≡ decimalize b 0
            → b.equals (decimalize b n) x ≡ true =
          λ n x p q.
            (comparable.equals_iff (decimalize b n) x).1 (ap (λ k. decimalize b k) p ∙ sym q) in
        absurd (ground (arith, at_zero coll t.collateral z c, at_zero debt t.debt (h z) d))
    | no nz ↦ to_open op coll t.status nz
  ]

  settled_after :
      (op : TroveOperation) (coll debt stake : ℕ) (t : Trove D) (p : Population D)
      → (coll ≡ 0 → debt ≡ 0)
      → IsSettled (updated_trove b op coll debt stake p t)
  unfolding updated_trove
  settled_after op coll debt stake t p h = elim (ℕ_discrete coll 0) [
    | yes z ↦ inr (ap (decimalize b) z, ap (decimalize b) (h z))
    | no nz ↦ inl (ground arith)
  ]

  settled-save :
      (a : ℕ) (new : Trove D) (ts : Table (Trove D))
      → IsSettled new
      → ((k : ℕ) (t : Trove D) → load k ts ≡ some t → IsSettled t)
      → (k : ℕ) (t : Trove D) → load k (save a new ts) ≡ some t
      → IsSettled t
  settled-save a new ts n all k t e = elim (ℕ_discrete k a) [
    | yes same_key ↦
        let found : some new ≡ some t =
          sym (load-save_self a new ts) ∙ ap (λ x. load x (save a new ts)) (sym same_key) ∙ e in
        subst IsSettled (some-injective found) n
    | no ne ↦ all k t (sym (load-save_ne k a new ts ne) ∙ e)
  ]

  -- A Trove that is known gets its new status.
  pub save_known :
      (op : TroveOperation) (a coll debt stake : ℕ) (t : Trove D) (p : Population D)
      → load a p.troves ≡ some t
      → IsOrderly t.status (status_after op coll)
      → (coll ≡ 0 → debt ≡ 0)
      → IsIndexed p
      → IsIndexed (save_trove b op a coll debt stake t p)
  unfolding save_trove updated_trove
  save_known op a coll debt stake t p found o h i =
      let ts = p.troves in
      let new = updated_trove b op coll debt stake p t in
      let before : count ts ≡ with_one (count (without a ts)) t.status =
        fun_ext (λ x. count-without a t ts x found) in
      let after : count (save a new ts) ≡ with_one (count (without a ts)) (status_after op coll) =
        fun_ext (λ x. count-save a t new ts x found) in
      let m = subst (λ f. Matches p.counters f (length ts)) before i.counted in
      let m' =
        set-Matches (count (without a ts)) (length ts) t.status (status_after op coll) p.counters o
          m in
      record {
        counted =
            recount (set_trove_status (status_after op coll) t.status p.counters)
              (with_one (count (without a ts)) (status_after op coll)) (count (save a new ts))
              (length ts) (length (save a new ts)) after (length-save a t new ts found) m';
        settled = settled-save a new ts (settled_after op coll debt stake t p h) i.settled;
      }

  -- A new Trove has been counted, and is saved as one that is open.
  pub save_new :
      (op : TroveOperation) (a coll debt stake : ℕ) (p : Population D)
      → load a p.troves ≡ none
      → coll ≢ 0
      → IsIndexed p
      → IsIndexed (
          save_trove b op a coll debt stake
            (new_trove b a)
            (record p { counters = increase_number_of_open_troves p.counters }))
  unfolding save_trove updated_trove set_trove_status
  save_new op a coll debt stake p found nz i =
      let ts = p.troves in
      let new = updated_trove b op coll debt stake p (new_trove b a) in
      let is_open : status_after op coll ≡ open_trove = ground arith in
      let g = increase_number_of_open_troves p.counters in
      let after : count (save a new ts) ≡ with_one (count ts) open_trove =
        fun_ext
          (λ x. count-save_new a new ts x found ∙ ap (λ s. with_one (count ts) s x) is_open) in
      record {
        counted =
            recount (set_trove_status (status_after op coll) open_trove g)
              (with_one (count ts) open_trove) (count (save a new ts)) (suc (length ts))
              (length (save a new ts)) after (length-save_new a new ts found)
              (rw is_open (created p.counters (count ts) (length ts) i.counted));
        settled =
            settled-save a new ts
              (settled_after op coll debt stake (new_trove b a) p (λ z. absurd (nz z))) i.settled;
      }
