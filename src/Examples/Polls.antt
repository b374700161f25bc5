-- ===== src/Examples/Polls.antt =====
-- A run of the poller, and its theorems at concrete inputs.
use liquity.Common.{◌+◌, ◌≤◌, ◌≡◌, ◌≢◌, ◌⊎◌, refl, true, false, none, some, [], ◌∷◌}
use liquity.BlockPolledStore.{
  load, Poller, start, block_listener, expire, handle, stop, answered, hears, expires, answers,
  Reach, here, next,
}
use liquity.BlockPolledStore.Stopped.{length, with_state, replies}
use liquity.BlockPolledStore.Polling.{IsPolling, Reach-IsPolling, stop-due}

-- Blocks 7 and 8 are announced, and block 8 is fetched and answered, before the first fetch is.
abbrev heard : Poller
heard = block_listener 8 (block_listener 7 (start 0))

abbrev fetched : Poller
fetched = expire 1 heard

abbrev loaded : Poller
loaded = handle (some 8) true (answered fetched [] (none ∷ []))

heard_pending : heard.timer.timeouts.pending ≡ 1 ∷ []
unfolding block_listener
heard_pending = refl

fetched_fetching : fetched.fetching ≡ some 8 ∷ none ∷ []
unfolding block_listener expire
fetched_fetching = refl

loaded_calls : loaded.calls ≡ load (some 8) true ∷ []
unfolding block_listener expire handle
loaded_calls = refl

loading_run : Reach (start 0) loaded
unfolding block_listener expire
loading_run =
    next (next (next (next here (hears 7 refl)) (hears 8 refl)) (expires 1 refl))
      (answers [] (none ∷ []) (some 8) true refl)

Reach-IsPolling_example : IsPolling loaded
Reach-IsPolling_example = Reach-IsPolling {n = 0} {s = loaded} loading_run

-- At the stop the first fetch is under way; it is answered, and ignored, as the store is loaded.
abbrev at_stop : Poller
at_stop = stop loaded

abbrev late : Poller
late = handle none true (answered at_stop [] [])

late_run : Reach at_stop late
unfolding block_listener expire handle stop
late_run = next here (answers [] [] none true refl)

stop-due_example :
    (late.subscribed ≡ false)
    × (late.timer.timeouts.pending ≡ [])
    × (replies {s = at_stop} {t = late} late_run + length late.fetching ≡ length loaded.fetching)
    × (with_state late.calls ≤ replies {s = at_stop} {t = late} late_run + with_state loaded.calls)
    × ((late.calls ≡ loaded.calls) ⊎ (replies {s = at_stop} {t = late} late_run ≢ 0))
stop-due_example = stop-due {n = 0} {s = loaded} {t = late} loading_run late_run
