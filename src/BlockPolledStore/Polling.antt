-- ===== src/BlockPolledStore/Polling.antt =====
-- `_doStart`: the order of the calls that it makes, and what happens after a stop.
use liquity.Common.{
  ℕ, ◌+◌, ◌≤◌, ◌≡◌, ◌≢◌, ◌⊎◌, inl, inr, refl, sym, ◌∙◌, arith, Bool, true, false, ◌||◌, Option,
  none, some, List, [], ◌∷◌, if◌then◌else◌,
}
use liquity.LiquityStore.Store.{Timer, is_pending, clear_timeout, fire}
use liquity.BlockPolledStore.Stopped.{length, with_state, replies, Reach-IsStopped, Reach-quiet}
use liquity.LiquityStore.Store.Schedule.{
  HasOneTimeout, cancel-pending, schedule-HasOneTimeout, fire-HasOneTimeout, clear_only,
}
use liquity.BlockPolledStore.{
  Call, load, update, refresh, Poller, scheduled, load_state, update_state, refreshed, refreshes,
  start, block_listener, expire, handle, stop, answered, Step, hears, expires, answers, rejects,
  stops, Reach, here, next,
}

-- Whether a `_load` has succeeded.
abbrev pub was_loaded : List Call → Bool
was_loaded [] = false
was_loaded (load b works ∷ cs) = works || was_loaded cs
was_loaded (update b ∷ cs) = was_loaded cs
was_loaded (refresh ∷ cs) = was_loaded cs

-- No `_load` comes after one that has succeeded, and no `_update` before.
abbrev pub IsOrdered : List Call → Type 0
IsOrdered [] = Unit
IsOrdered (load b works ∷ cs) = (was_loaded cs ≡ false) × IsOrdered cs
IsOrdered (update b ∷ cs) = (was_loaded cs ≡ true) × IsOrdered cs
IsOrdered (refresh ∷ cs) = (was_loaded cs ≡ true) × IsOrdered cs

-- At most one timeout is set, and only with a block to fetch; the store has at most one update
-- scheduled, and only once it is loaded; and the calls are in order.
pub record IsPolling (s : Poller) : Type 0 where
  pub debounced : HasOneTimeout s.timer
  pub known : (s.timer.timeouts.pending ≡ []) ⊎ (s.latest_block ≢ none)
  pub own_debounced : HasOneTimeout s.own
  pub own_loaded : (s.own.timeouts.pending ≡ []) ⊎ (s.loaded ≡ true)
  pub recorded : s.loaded ≡ was_loaded s.calls
  pub ordered : IsOrdered s.calls

scheduled-HasOneTimeout :
    (works : Bool) (t : Timer) → HasOneTimeout t → HasOneTimeout (scheduled works t)
scheduled-HasOneTimeout true t h = schedule-HasOneTimeout t h
scheduled-HasOneTimeout false t h = h

-- A load that is made while nothing has been loaded.
loading-own :
    (works loaded : Bool) (t : Timer)
    → loaded ≡ false
    → (t.timeouts.pending ≡ []) ⊎ (loaded ≡ true)
    → ((scheduled works t).timeouts.pending ≡ []) ⊎ (works ≡ true)
loading-own true loaded t e h = inr refl
loading-own false loaded t e (inl h) = inl h
loading-own false loaded t e (inr h) = cc

loading :
    (b : Option ℕ) (works : Bool) (s : Poller)
    → s.loaded ≡ false
    → IsPolling s
    → IsPolling (load_state b works s)
unfolding load_state
loading b works s e h = record {
  debounced = h.debounced;
  known = h.known;
  own_debounced = scheduled-HasOneTimeout works s.own h.own_debounced;
  own_loaded = loading-own works s.loaded s.own e h.own_loaded;
  recorded = let p = h.recorded in ground arith;
  ordered = (sym h.recorded ∙ e, h.ordered);
}

updating :
    (b : Option ℕ) (works : Bool) (s : Poller)
    → s.loaded ≡ true
    → IsPolling s
    → IsPolling (update_state b works s)
unfolding update_state
updating b works s e h = record {
  debounced = h.debounced;
  known = h.known;
  own_debounced = scheduled-HasOneTimeout works s.own h.own_debounced;
  own_loaded = inr e;
  recorded = h.recorded;
  ordered = (sym h.recorded ∙ e, h.ordered);
}

-- An update is pending only in a store that is loaded.
pending-loaded :
    (id : ℕ) (l : List ℕ) (loaded : Bool)
    → is_pending id l ≡ true
    → (l ≡ []) ⊎ (loaded ≡ true)
    → loaded ≡ true
pending-loaded id l loaded p (inr e) = e
pending-loaded id [] loaded p (inl e) = absurd cc
pending-loaded id (k ∷ l) loaded p (inl e) = cc

refreshed-IsPolling :
    (id : ℕ) (works : Bool) (s : Poller)
    → is_pending id s.own.timeouts.pending ≡ true
    → IsPolling s
    → IsPolling (refreshed id works s)
unfolding refreshed
refreshed-IsPolling id works s p h =
    let loaded = pending-loaded id s.own.timeouts.pending s.loaded p h.own_loaded in
    record {
      debounced = h.debounced;
      known = h.known;
      own_debounced =
          scheduled-HasOneTimeout works (fire id s.own)
            (fire-HasOneTimeout s.own id p h.own_debounced);
      own_loaded = inr loaded;
      recorded = h.recorded;
      ordered = (sym h.recorded ∙ loaded, h.ordered);
    }

by_condition :
    (c : Bool) (x y : Poller)
    → (c ≡ true → IsPolling x)
    → (c ≡ false → IsPolling y)
    → IsPolling (if c then x else y)
by_condition true x y p q = p refl
by_condition false x y p q = q refl

handle-IsPolling :
    (b : Option ℕ) (works : Bool) (s : Poller) → IsPolling s → IsPolling (handle b works s)
unfolding handle
handle-IsPolling none works s h = by_condition s.loaded _ _ (λ _. h) (λ e. loading none works s e h)
handle-IsPolling (some b) works s h =
    by_condition s.loaded _ _ (λ e. updating (some b) works s e h)
      (λ e. loading (some b) works s e h)

expire-pending :
    (id : ℕ) (t : Timer)
    → HasOneTimeout t
    → is_pending id t.timeouts.pending ≡ true
    → clear_timeout id t.timeouts.pending ≡ []
expire-pending id t (inl e) p = clear_only id t.timeouts.pending (inl e) p
expire-pending id t (inr (k, e, f)) p = clear_only id t.timeouts.pending (inr (k, f)) p

Step-IsPolling : {s t : Poller} → Step s t → IsPolling s → IsPolling t
unfolding block_listener expire stop
Step-IsPolling {s} (hears tag on) h = record {
  debounced = schedule-HasOneTimeout s.timer h.debounced;
  known = inr (λ n. cc);
  own_debounced = h.own_debounced;
  own_loaded = h.own_loaded;
  recorded = h.recorded;
  ordered = h.ordered;
}
Step-IsPolling {s} (expires id p) h = record {
  debounced = inl (expire-pending id s.timer h.debounced p);
  known = inl (expire-pending id s.timer h.debounced p);
  own_debounced = h.own_debounced;
  own_loaded = h.own_loaded;
  recorded = h.recorded;
  ordered = h.ordered;
}
Step-IsPolling {s} (answers front back b works e) h =
    handle-IsPolling b works (answered s front back) (record {
      debounced = h.debounced;
      known = h.known;
      own_debounced = h.own_debounced;
      own_loaded = h.own_loaded;
      recorded = h.recorded;
      ordered = h.ordered;
    })
Step-IsPolling {s} (rejects front back b e) h = record {
  debounced = h.debounced;
  known = h.known;
  own_debounced = h.own_debounced;
  own_loaded = h.own_loaded;
  recorded = h.recorded;
  ordered = h.ordered;
}
Step-IsPolling {s} (refreshes id works p) h = refreshed-IsPolling id works s p h
Step-IsPolling {s} stops h = record {
  debounced = inl (cancel-pending s.timer h.debounced);
  known = inl (cancel-pending s.timer h.debounced);
  own_debounced = inl (cancel-pending s.own h.own_debounced);
  own_loaded = inl (cancel-pending s.own h.own_debounced);
  recorded = h.recorded;
  ordered = h.ordered;
}

-- From the start on, whatever blocks are announced, in whatever order the fetches are answered or
-- rejected, and whenever the store's own timer fires: at most one timeout is set, and when it fires a
-- block is known; the store has at most one update of its own scheduled, and none before it is
-- loaded; the poller knows whether the store is loaded; and `_load` is called only as long as no call
-- of it has succeeded, and `_update` only after that, so that neither of their assertions about
-- loading fails.
pub Reach-IsPolling : {n : ℕ} {s : Poller} → Reach (start n) s → IsPolling s
Reach-IsPolling here = record {
  debounced = inl refl;
  known = inl refl;
  own_debounced = inl refl;
  own_loaded = inl refl;
  recorded = refl;
  ordered = tt;
}
Reach-IsPolling (next r step) = Step-IsPolling step (Reach-IsPolling r)

-- Once a poller that was started has been stopped, nothing is fetched any more, whatever happens: the
-- fetches that are answered or rejected after the stop, with those that are left, are as many as were
-- under way at the stop. No more calls of `_load` or `_update` are made with a state than these
-- answers and rejections; and as long as there are none of them, nothing at all is called, by the
-- store's own timer either.
pub stop-due :
    {n : ℕ} {s t : Poller}
    → Reach (start n) s
    → (after : Reach (stop s) t)
    → (t.subscribed ≡ false)
      × (t.timer.timeouts.pending ≡ [])
      × (replies after + length t.fetching ≡ length s.fetching)
      × (with_state t.calls ≤ replies after + with_state s.calls)
      × ((t.calls ≡ s.calls) ⊎ (replies after ≢ 0))
unfolding stop
stop-due {s = s} r after =
    let polling = Reach-IsPolling r in
    let stopped = cancel-pending s.timer polling.debounced in
    let quiet = cancel-pending s.own polling.own_debounced in
    let (still, left, calls) = Reach-IsStopped (refl, stopped) after in
    (
      still.0,
      still.1,
      left,
      calls,
      elim (Reach-quiet (refl, stopped) quiet after) [
        | inl (same, _) ↦ inl same
        | inr some_reply ↦ inr some_reply
      ],
    )
