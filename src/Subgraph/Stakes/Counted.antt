-- ===== src/Subgraph/Stakes/Counted.antt =====
-- The counters of stakes under `updateStake`.
use native.Mathlib.Decide.{ℕ_discrete}
use mathlib.Core.Path.{subst}
use liquity.Common.{
  some-injective, ℕ, suc, ◌+◌, ◌≡◌, ◌≢◌, ◌≤◌, ◌∙◌, sym, ap, refl, arith, Bool, true, false, none,
  some, inl, inr, Option-cases,
}
use liquity.Subgraph.Decimals.{BigDecimals, IsComparable, decimalize, decimal_zero}
use liquity.Subgraph.Entities.{Event, StakeOperation, User, Stake, Stakes, Store}
use liquity.Subgraph.History.{init_change}
use liquity.Subgraph.Stakes.{
  restake, is_none, get_user_stake, create_stake, stake_of, get_operation_type, count_stakes,
  change_stake, update_stake,
}
use liquity.Subgraph.Stakes.Counts.{
  count_active, length, count-save, count-save_new, length-save, length-save_new, weight,
  count_stakes-amount, count_stakes-first, weight-le,
}
use liquity.Subgraph.Tables.{Table, load, save, load-save_self, load-save_ne}

module _ (b : BigDecimals) where
  open b use {D}

  -- The counters count the stakes, and those with something staked; and every amount is one that an
  -- event brought.
  pub record IsCounted (s : Stakes D) : Type 0 where
    pub total : s.total_number_of_lqty_stakes ≡ length b s.stakes
    pub active_stakes : s.number_of_active_lqty_stakes ≡ count_active b s.stakes
    pub brought :
        (k : ℕ) (x : Stake D) → load k s.stakes ≡ some x → (n : ℕ) × (x.amount ≡ decimalize b n)

  -- Counting leaves the stakes, and the total unless a first stake is counted.
  count_stakes-stakes :
      (first : Bool) (op : StakeOperation) (s : Stakes D)
      → (count_stakes b first op s).stakes ≡ s.stakes
  unfolding count_stakes
  count_stakes-stakes first op s = ground arith

  count_stakes-total :
      (op : StakeOperation) (s : Stakes D)
      → (count_stakes b false op s).total_number_of_lqty_stakes ≡ s.total_number_of_lqty_stakes
  unfolding count_stakes
  count_stakes-total op s = ground arith

  restake-stakes :
      (e : Event) (a : ℕ) (next : D) (first : Bool) (x : Stake D) (users : Table (User D))
      (s : Store D)
      → (restake b e a next first (x, users) s).stakes
        ≡ record (count_stakes b first (get_operation_type b x.amount next) s.stakes) {
          stakes =
              save a
                (record x { amount = next })
                (count_stakes b first (get_operation_type b x.amount next) s.stakes).stakes;
        }
  unfolding restake change_stake init_change
  restake-stakes e a next first x users s = refl

  -- A stake that is kept has an amount that an event brought.
  brought-save :
      (a n : ℕ) (new : Stake D) (t : Table (Stake D))
      → new.amount ≡ decimalize b n
      → ((k : ℕ) (x : Stake D) → load k t ≡ some x → (m : ℕ) × (x.amount ≡ decimalize b m))
      → (k : ℕ) (x : Stake D) → load k (save a new t) ≡ some x
      → (m : ℕ) × (x.amount ≡ decimalize b m)
  brought-save a n new t is all k x e = elim (ℕ_discrete k a) [
    | yes same ↦
        let found : some new ≡ some x =
          sym (load-save_self a new t) ∙ ap (λ j. load j (save a new t)) (sym same) ∙ e in
        (n, ap (λ (y : Stake D). y.amount) (sym (some-injective found)) ∙ is)
    | no ne ↦ all k x (sym (load-save_ne k a new t ne) ∙ e)
  ]

  restake_known :
      (comparable : IsComparable b) (e : Event) (a n : ℕ) (x : Stake D) (users : Table (User D))
      (s : Store D)
      → load a s.stakes.stakes ≡ some x
      → x.amount ≢ decimalize b n
      → IsCounted s.stakes
      → IsCounted (restake b e a (decimalize b n) false (x, users) s).stakes
  restake_known comparable e a n x users s found ne c =
      let next = decimalize b n in
      let new = record x { amount = next } in
      let op = get_operation_type b x.amount next in
      let st = s.stakes in
      let kept = count_stakes-stakes false op st in
      let (m, is_m) = c.brought a x found in
      let counted = (count_stakes b false op st).number_of_active_lqty_stakes in
      let le : weight b x.amount ≤ st.number_of_active_lqty_stakes =
        omega (arith, weight-le b a x st.stakes found, c.active_stakes) in
      let active_after : counted ≡ count_active b (save a new st.stakes) = omega (
        arith,
        count_stakes-amount b comparable m n x.amount st is_m ne le,
        count-save b a x new st.stakes found,
        c.active_stakes,
      ) in
      subst IsCounted (sym (restake-stakes e a next false x users s)) (record {
        total =
            count_stakes-total op st
            ∙ c.total
            ∙ sym (ap (λ t. length b (save a new t)) kept ∙ length-save b a x new st.stakes found);
        active_stakes = active_after ∙ sym (ap (λ t. count_active b (save a new t)) kept);
        brought =
            subst
              (λ t.
                (k : ℕ) (y : Stake D)
                → load k (save a new t) ≡ some y
                → (j : ℕ) × (y.amount ≡ decimalize b j))
              (sym kept) (brought-save a n new st.stakes refl c.brought);
      })

  restake_new :
      (comparable : IsComparable b) (e : Event) (a n : ℕ) (x : Stake D) (users : Table (User D))
      (s : Store D)
      → load a s.stakes.stakes ≡ none
      → x.amount ≡ decimal_zero b
      → n ≢ 0
      → IsCounted s.stakes
      → IsCounted (restake b e a (decimalize b n) true (x, users) s).stakes
  restake_new comparable e a n x users s found is_new nz c =
      let next = decimalize b n in
      let new = record x { amount = next } in
      let op = get_operation_type b x.amount next in
      let st = s.stakes in
      let kept = count_stakes-stakes true op st in
      let (total, active_count) =
        subst
          (λ y.
            let counted = count_stakes b true (get_operation_type b y next) st in
            (counted.total_number_of_lqty_stakes ≡ suc st.total_number_of_lqty_stakes)
            × (counted.number_of_active_lqty_stakes
                ≡ st.number_of_active_lqty_stakes + weight b next))
          (sym is_new) (count_stakes-first b comparable n st nz) in
      subst IsCounted (sym (restake-stakes e a next true x users s)) (record {
        total =
            total
            ∙ ap suc c.total
            ∙ sym
                (ap (λ t. length b (save a new t)) kept ∙ length-save_new b a new st.stakes found);
        active_stakes =
            active_count
            ∙ ap (λ k. k + weight b next) c.active_stakes
            ∙ sym (
                ap (λ t. count_active b (save a new t)) kept
                ∙ count-save_new b a new st.stakes found);
        brought =
            subst
              (λ t.
                (k : ℕ) (y : Stake D)
                → load k (save a new t) ≡ some y
                → (j : ℕ) × (y.amount ≡ decimalize b j))
              (sym kept) (brought-save a n new st.stakes refl c.brought);
      })

  stake_of-some :
      (a : ℕ) (x : Stake D) (s : Store D)
      → (get_user_stake b a s).0 ≡ some x
      → (stake_of b a s).0 ≡ x
  unfolding stake_of
  stake_of-some a x s e = ground arith

  stake_of-none :
      (a : ℕ) (s : Store D)
      → (get_user_stake b a s).0 ≡ none
      → (stake_of b a s).0.amount ≡ decimal_zero b
  unfolding stake_of create_stake
  stake_of-none a s e = ground arith

  -- An event that changes an amount, or a first one that is not 0, keeps the counters right: the
  -- total is the number of stakes, and the active ones are those whose amount is not 0; if the user's
  -- entity names just the stake that there is. Of the decimals it is asked how they compare, and that
  -- an unsigned number is 0 or positive as a decimal just as it is itself.
  pub update_stake-IsCounted :
      (comparable : IsComparable b) (e : Event) (a n : ℕ) (s : Store D)
      → (get_user_stake b a s).0 ≡ load a s.stakes.stakes
      → ((x : Stake D) → load a s.stakes.stakes ≡ some x → x.amount ≢ decimalize b n)
      → (load a s.stakes.stakes ≡ none → n ≢ 0)
      → IsCounted s.stakes
      → IsCounted (update_stake b e a n s).stakes
  unfolding update_stake
  update_stake-IsCounted comparable e a n s linked changes fresh c =
      elim (Option-cases (load a s.stakes.stakes)) [
        | inl f ↦
            let none_found : (get_user_stake b a s).0 ≡ none = linked ∙ f in
            subst
              (λ o.
                IsCounted (restake b e a (decimalize b n) (is_none b o) (stake_of b a s) s).stakes)
              (sym none_found)
              (restake_new comparable e a n (stake_of b a s).0 (stake_of b a s).1 s f
                (stake_of-none a s none_found) (fresh f) c)
        | inr (x, f) ↦
            let x_found : (get_user_stake b a s).0 ≡ some x = linked ∙ f in
            let same = stake_of-some a x s x_found in
            subst
              (λ o.
                IsCounted (restake b e a (decimalize b n) (is_none b o) (stake_of b a s) s).stakes)
              (sym x_found)
              (restake_known comparable e a n (stake_of b a s).0 (stake_of b a s).1 s
                (f ∙ ap some (sym same))
                (λ q. changes x f (ap (λ (y : Stake D). y.amount) (sym same) ∙ q)) c)
      ]
