-- ===== src/Subgraph/History.antt =====
-- packages/subgraph/src/entities: SystemState.ts, Change.ts and Transaction.ts. The system's states
-- are numbered, and every change goes from one to the next.
pub mod Links
pub mod Chained
pub mod Prices
use liquity.Common.{
  ℕ, suc, ◌≡◌, Bool, true, false, not, ◌&&◌, ◌||◌, Option, none, some, if◌then◌else◌, Result, ok,
  err, ◌>>=◌, null_value,
}
use liquity.Subgraph.Decimals.{BigDecimals, decimal_zero, decimalize}
use liquity.Subgraph.Entities.{Event, SystemState, Details, price_change, History, Ledger, Store}
use liquity.Subgraph.Tables.{load, save}

-- `getTransaction`, but for its result, the hash
unfoldable pub get_transaction : Event → Ledger → Ledger
get_transaction e l = elim (load e.hash l.transactions) [
  | some _ ↦ l
  | none ↦ record {
    transaction_count = suc l.transaction_count;
    transactions =
        save e.hash
          (record {
            sequence_number = l.transaction_count;
            block_number = e.block_number;
            timestamp = e.timestamp;
          })
          l.transactions;
  }
]

module _ (b : BigDecimals) where
  open b use {D, from_numeral, plus, minus, times, div, truncate, equals, greater}

  abbrev pub new_system_state : ℕ → SystemState D
  new_system_state n = record {
    sequence_number = n;
    price = none;
    total_collateral = decimal_zero b;
    total_debt = decimal_zero b;
    total_collateral_ratio = none;
    tokens_in_stability_pool = decimal_zero b;
    coll_surplus_pool_balance = decimal_zero b;
    total_lqty_tokens_staked = decimal_zero b;
  }

  -- `save` of a state that becomes the current one, under the next number
  unfoldable pub bump_system_state : SystemState D → History D → History D
  bump_system_state st h = record h {
    system_state_count = suc h.system_state_count;
    system_states =
        save h.system_state_count (record st { sequence_number = h.system_state_count })
          h.system_states;
    current_system_state = some h.system_state_count;
  }

  -- `SystemState.load(getGlobal().currentSystemState)`
  abbrev pub load_current : History D → Option (SystemState D)
  load_current h = elim h.current_system_state [ none ↦ none | some id ↦ load id h.system_states ]

  unfoldable pub get_current_system_state : History D → SystemState D × History D
  get_current_system_state h = elim (load_current h) [
    | some st ↦ (st, h)
    | none ↦ (
      new_system_state h.system_state_count,
      bump_system_state (new_system_state h.system_state_count) h,
    )
  ]

  unfoldable pub get_current_price : History D → Result (D × History D)
  get_current_price h =
      let (st, h') = get_current_system_state h in
      elim st.price [ none ↦ err null_value | some price ↦ ok (price, h') ]

  -- `beginChange` and what `initChange` reads, for the sequence number and the state before
  unfoldable pub start_change : History D → (ℕ × ℕ) × History D
  start_change h =
      let (st, h') = get_current_system_state (record h { change_count = suc h.change_count }) in
      ((h.change_count, st.sequence_number), h')

  -- `initChange`: the transaction first
  unfoldable pub init_change : Event → Store D → (ℕ × ℕ) × Store D
  init_change e s =
      let (started, h) = start_change s.history in
      (started, record s { ledger = get_transaction e s.ledger; history = h })

  -- `finishChange`, and the change's `save`
  unfoldable pub finish_change : ℕ × ℕ → ℕ → Details D → History D → History D
  finish_change (n, before) transaction details h =
      let (st, h') = get_current_system_state h in
      record h' {
        changes =
            save n
              (record {
                sequence_number = n;
                transaction = transaction;
                system_state_before = before;
                system_state_after = st.sequence_number;
                details = details;
              })
              h'.changes;
      }

  -- `updatePrice`, when the price is known
  unfoldable pub change_price : Event → D → D → SystemState D → Store D → Store D
  change_price e old_price new_price st s =
      let (started, s') = init_change e s in
      record s' {
        history =
            finish_change started e.hash (price_change (minus new_price old_price))
              (bump_system_state (record st { price = some new_price }) s'.history);
      }

  -- `updatePrice` after the current state is read, by the old price
  unfoldable pub update_price_from : Event → D → SystemState D → Option D → Store D → Store D
  update_price_from e new_price st none s = record s {
    history = record s.history {
      system_states =
          save st.sequence_number (record st { price = some new_price }) s.history.system_states;
    };
  }
  update_price_from e new_price st (some old_price) s =
      if not (equals new_price old_price) then change_price e old_price new_price st s else s

  unfoldable pub update_price : Event → ℕ → Store D → Store D
  update_price e last_good_price s =
      let (st, h) = get_current_system_state s.history in
      update_price_from e (decimalize b last_good_price) st st.price (record s { history = h })
