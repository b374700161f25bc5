-- ===== src/Subgraph/Troves/Counts.antt =====
-- How many Troves have a status, when one of them is saved.
use liquity.Common.{ℕ, suc, ◌+◌, ◌≡◌, refl, arith, none, some, [], ◌∷◌, ◌==◌, if◌then◌else◌}
use liquity.Subgraph.{Status, same}
use liquity.Subgraph.Counters.{with_one}
use liquity.Subgraph.Entities.{Trove}
use liquity.Subgraph.Tables.{Table, load, save}

module _ {D : Type 0} where
  -- How many Troves have a status.
  abbrev pub count : Table (Trove D) → Status → ℕ
  count [] x = 0
  count ((_, t) ∷ ts) x = count ts x + (if same x t.status then 1 else 0)

  abbrev pub length : Table (Trove D) → ℕ
  length [] = 0
  length (_ ∷ ts) = suc (length ts)

  -- The Troves but one.
  pub without : ℕ → Table (Trove D) → Table (Trove D)
  without k [] = []
  without k ((j, t) ∷ ts) = if j == k then ts else (j, t) ∷ without k ts

  pub count-without :
      (k : ℕ) (t : Trove D) (ts : Table (Trove D)) (x : Status)
      → load k ts ≡ some t
      → count ts x ≡ with_one (count (without k ts)) t.status x
  unfolding without
  count-without k t [] x e = cc
  count-without k t (y ∷ ts) x e = ground (arith, count-without k t ts x)

  pub count-save :
      (k : ℕ) (t new : Trove D) (ts : Table (Trove D)) (x : Status)
      → load k ts ≡ some t
      → count (save k new ts) x ≡ with_one (count (without k ts)) new.status x
  unfolding without
  count-save k t new [] x e = cc
  count-save k t new (y ∷ ts) x e = ground (arith, count-save k t new ts x)

  pub count-save_new :
      (k : ℕ) (new : Trove D) (ts : Table (Trove D)) (x : Status)
      → load k ts ≡ none
      → count (save k new ts) x ≡ with_one (count ts) new.status x
  count-save_new k new [] x e = refl
  count-save_new k new (y ∷ ts) x e = ground (arith, count-save_new k new ts x)

  pub length-save :
      (k : ℕ) (t new : Trove D) (ts : Table (Trove D))
      → load k ts ≡ some t
      → length (save k new ts) ≡ length ts
  length-save k t new [] e = cc
  length-save k t new (y ∷ ts) e = ground (arith, length-save k t new ts)

  pub length-save_new :
      (k : ℕ) (new : Trove D) (ts : Table (Trove D))
      → load k ts ≡ none
      → length (save k new ts) ≡ suc (length ts)
  length-save_new k new [] e = refl
  length-save_new k new (y ∷ ts) e = ground (arith, length-save_new k new ts)
