-- ===== src/Examples/Indexes.antt =====
-- A run of the counters of the indexer, and their theorem at a concrete input.
use liquity.Common.{◌≡◌, refl, [], ◌∷◌}
use liquity.Subgraph.{
  new_global, open_trove, closed_by_liquidation, set_trove_status, Index, create_trove,
}
use liquity.Subgraph.Counters.{with_status, Reach, here, next, creates, sets}

abbrev no_index : Index
no_index = record { global = new_global; troves = [] }

-- Two Troves are created; the first one is liquidated, and opened again.
abbrev both_created : Index
both_created = create_trove (create_trove no_index)

abbrev liquidated : Index
liquidated = with_status both_created (open_trove ∷ []) open_trove closed_by_liquidation []

abbrev reopened : Index
reopened = with_status liquidated (open_trove ∷ []) closed_by_liquidation open_trove []

two_troves : both_created.troves ≡ open_trove ∷ open_trove ∷ []
unfolding create_trove
two_troves = refl

open_again : reopened.global.number_of_open_troves ≡ 2
unfolding create_trove set_trove_status
open_again = refl

reopening : Reach no_index reopened
reopening =
    next
      (next (next (next here creates) creates)
        (sets (open_trove ∷ []) open_trove closed_by_liquidation [] two_troves refl))
      (sets (open_trove ∷ []) closed_by_liquidation open_trove [] refl refl)
