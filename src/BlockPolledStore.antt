-- ===== src/BlockPolledStore.antt =====
-- packages/lib-ethers/src/BlockPolledLiquityStore.ts: `_doStart`, which fetches the state at every
-- new block, and `_reduceExtra`, with the timer that the store of packages/lib-base/src/LiquityStore.ts
-- sets on every load and update. What `_get` fetches is no part of the model: a fetch is the block
-- that it asks for, `none` for the first one, and it is answered, in any order, or rejected.
pub mod Stopped
pub mod Polling
use liquity.Common.{
  ℕ, ◌≡◌, ◌==◌, Bool, true, false, Option, none, some, List, [], ◌∷◌, ◌++◌, if◌then◌else◌, ltb,
}
use liquity.Trove.Change.{or_else}
use liquity.LiquityStore.Store.{
  Timer, is_pending, clear_timeout, cancel_update_if_scheduled, schedule_update, fire,
}

-- A call of `_load`, with whether it succeeds, or of `_update`, each with the block of its state; or
-- the call of `_update` that the store's own timer makes, without a state.
pub data Call : Type 0 where
  load : Option ℕ → Bool → Call
  update : Option ℕ → Call
  refresh : Call

-- The variables of `_doStart`, and what it shares with its environment: the timer `timerId` (a
-- variable that is cleared and set as the store's own timer is), whether the provider has the block
-- listener, the fetches that are not answered, `_loaded`, the calls made so far, last one first, and
-- the store's own timer, `_updateTimeoutId`.
pub record Poller : Type 0 where
  pub latest_block : Option ℕ
  pub timer : Timer
  pub subscribed : Bool
  pub fetching : List (Option ℕ)
  pub loaded : Bool
  pub calls : List Call
  pub own : Timer

-- `_doStart`
abbrev pub start : ℕ → Poller
start next_id = record {
  latest_block = none;
  timer = record {
    update_timeout_id = none;
    timeouts = record { pending = []; next_id = next_id };
  };
  own = record { update_timeout_id = none; timeouts = record { pending = []; next_id = next_id } };
  subscribed = true;
  fetching = none ∷ [];
  loaded = false;
  calls = [];
}

-- `Math.max(blockTag, latestBlock ?? blockTag)`
abbrev pub later_block : ℕ → Option ℕ → ℕ
later_block tag none = tag
later_block tag (some b) = if ltb tag b then b else tag

-- `blockListener`
unfoldable pub block_listener : ℕ → Poller → Poller
unfolding schedule_update
block_listener tag s = record s {
  latest_block = some (later_block tag s.latest_block);
  timer = schedule_update s.timer;
}

-- The timeout fires; `timerId` stays. Without a latest block the assertion fails and nothing is
-- fetched.
abbrev pub fetch : Option ℕ → List (Option ℕ) → List (Option ℕ)
fetch none fs = fs
fetch (some b) fs = some b ∷ fs

unfoldable pub expire : ℕ → Poller → Poller
unfolding clear_timeout
expire id s = record s {
  timer = record s.timer {
    timeouts = record s.timer.timeouts { pending = clear_timeout id s.timer.timeouts.pending };
  };
  fetching = fetch s.latest_block s.fetching;
}

-- `_load` and `_update` schedule the store's own update, unless they throw before.
abbrev pub scheduled : Bool → Timer → Timer
scheduled works t = if works then schedule_update t else t

load_state : Option ℕ → Bool → Poller → Poller
unfolding schedule_update
load_state block works s = record s {
  loaded = works;
  calls = load block works ∷ s.calls;
  own = scheduled works s.own;
}

update_state : Option ℕ → Bool → Poller → Poller
unfolding schedule_update
update_state block works s = record s {
  calls = update block ∷ s.calls;
  own = scheduled works s.own;
}

-- What follows the answer: `handleBlock`, and for the first fetch the callback of its promise.
-- `works` tells whether `_load` or `_update` succeeds.
unfoldable pub handle : Option ℕ → Bool → Poller → Poller
unfolding load_state update_state
handle none works s = if s.loaded then s else load_state none works s
handle (some b) works s =
    if s.loaded then update_state (some b) works s else load_state (some b) works s

-- The store's own timeout fires, and `_update` is called without a state; it schedules the next one,
-- unless it throws.
unfoldable pub refreshed : ℕ → Bool → Poller → Poller
unfolding fire schedule_update
refreshed id works s = record s { calls = refresh ∷ s.calls; own = scheduled works (fire id s.own) }

-- The function that `start` returns: it calls the one that `_doStart` returns, and cancels the
-- store's own update.
unfoldable pub stop : Poller → Poller
unfolding cancel_update_if_scheduled
stop s = record s {
  subscribed = false;
  timer = cancel_update_if_scheduled s.timer;
  own = cancel_update_if_scheduled s.own;
}

-- One fetch among the others is over.
abbrev pub answered : Poller → List (Option ℕ) → List (Option ℕ) → Poller
answered s front back = record s { fetching = front ++ back }

-- What may happen to a poller, in any order.
pub data Step (s : Poller) : Poller → Type 0 where
  hears : (tag : ℕ) → s.subscribed ≡ true → Step s (block_listener tag s)
  expires : (id : ℕ) → is_pending id s.timer.timeouts.pending ≡ true → Step s (expire id s)
  answers :
      (front back : List (Option ℕ)) (block : Option ℕ) (works : Bool)
      → s.fetching ≡ front ++ block ∷ back
      → Step s (handle block works (answered s front back))
  rejects :
      (front back : List (Option ℕ)) (block : Option ℕ)
      → s.fetching ≡ front ++ block ∷ back
      → Step s (answered s front back)
  refreshes :
      (id : ℕ) (works : Bool)
      → is_pending id s.own.timeouts.pending ≡ true
      → Step s (refreshed id works s)
  stops : Step s (stop s)

pub data Reach (s : Poller) : Poller → Type 0 where
  here : Reach s s
  next : {t u : Poller} → Reach s t → Step t u → Reach s u

-- `BlockPolledLiquityStoreExtraState` and `Partial` of it, for a type of fees factories.
pub record ExtraState (F : Type 0) : Type 0 where
  pub block_tag : Option ℕ
  pub block_timestamp : ℕ
  pub fees_factory : F

pub record ExtraUpdate (F : Type 0) : Type 0 where
  pub block_tag : Option ℕ
  pub block_timestamp : Option ℕ
  pub fees_factory : Option F

-- `a ?? b`, where b is defined
abbrev or_old {ℓ} : {A : Type ℓ} → Option A → A → A
or_old none b = b
or_old (some a) b = a

-- `_reduceExtra`
unfoldable pub reduce_extra : {F : Type 0} → ExtraState F → ExtraUpdate F → ExtraState F
reduce_extra old new = record {
  block_tag = or_else new.block_tag old.block_tag;
  block_timestamp = or_old new.block_timestamp old.block_timestamp;
  fees_factory = or_old new.fees_factory old.fees_factory;
}
