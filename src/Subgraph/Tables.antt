-- ===== src/Subgraph/Tables.antt =====
-- The store of the indexer: `load` and `save` of the entities of one type, by their identifiers.
use liquity.Common.{ℕ, ◌≡◌, ◌≢◌, Option, none, some, List, [], ◌∷◌, arith, ◌==◌, if◌then◌else◌}

abbrev pub Table {ℓ} : Type ℓ → Type ℓ
Table V = List (ℕ × V)

module _ {ℓ} {V : Type ℓ} where
  abbrev pub load : ℕ → Table V → Option V
  load k [] = none
  load k ((j, v) ∷ t) = if j == k then some v else load k t

  abbrev pub save : ℕ → V → Table V → Table V
  save k v [] = (k, v) ∷ []
  save k v ((j, w) ∷ t) = if j == k then (k, v) ∷ t else (j, w) ∷ save k v t

  pub load-save_self : (k : ℕ) (v : V) (t : Table V) → load k (save k v t) ≡ some v
  load-save_self k v [] = ground arith
  load-save_self k v (e ∷ t) = ground (arith, load-save_self k v t)

  pub load-save_ne : (j k : ℕ) (v : V) (t : Table V) → j ≢ k → load j (save k v t) ≡ load j t
  load-save_ne j k v [] h = ground arith
  load-save_ne j k v (e ∷ t) h = ground (arith, load-save_ne j k v t h)
