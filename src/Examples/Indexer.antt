-- ===== src/Examples/Indexer.antt =====
-- A run of the indexer's handlers, and their theorems at concrete inputs.
use liquity.Common.{
  ℕ, ◌*◌, ◌≡◌, refl, arith, none, some, List, [], ◌∷◌, Bool, true, false, Result, ok, err,
}
use liquity.Common.Int.{ℤ, pos, ◌+ℤ◌, ◌-ℤ◌}
use liquity.Examples.Decimals.{integers, integers-IsExact, integers-IsComparable}
use liquity.Subgraph.{set_trove_status}
use liquity.Subgraph.Accrual.{with_fee, note_fee, set_borrowing_fee_of_last_trove_change}
use liquity.Subgraph.Closings.{get_user, get_current_liquidation, get_current_redemption}
use liquity.Subgraph.Decimals.{decimalize, scaling_factor, calculate_collateral_ratio}
use liquity.Subgraph.Deposits.{
  get_stability_deposit, update_stability_deposit_by_operation, update_stability_deposit,
  withdraw_collateral_gain_from_stability_deposit, swap_tmp_deposit_update, update_if_waiting,
  handle_user_deposit_changed, handle_eth_gain_withdrawn,
}
use liquity.Subgraph.Deposits.Ordered.{settled, deposit_events_commute}
use liquity.Subgraph.Entities.{Event, open_trove_op, Store, new_store, SystemState}
use liquity.Subgraph.Handlers.{
  Emitted, last_good_price_updated, trove_updated_by_borrower, borrowing_fee_paid,
  user_deposit_changed, eth_gain_withdrawn, stake_changed, open_trove as opening,
  adjust_trove as adjusting, handle_borrowing_fee_paid, handle, handle_all,
}
use liquity.Subgraph.Handlers.Chained.{indexed-IsChained}
use liquity.Subgraph.History.{
  get_transaction, bump_system_state, get_current_system_state, get_current_price, start_change,
  init_change, finish_change, update_price_from, update_price, change_price,
}
use liquity.Subgraph.History.Links.{IsChained}
use liquity.Subgraph.Stakes.{
  get_user_stake, create_stake, stake_of, get_operation_type, count_stakes, change_stake, restake,
  update_stake,
}
use liquity.Subgraph.Stakes.Counted.{IsCounted, update_stake-IsCounted}
use liquity.Subgraph.SystemState.{
  apply_trove_change, save_totals, update_system_state_by_trove_change,
}
use liquity.Subgraph.Tokens.{
  Token, Erc20, get_token, balance_of, set_balance, take_from, give_to, update_balance,
}
use liquity.Subgraph.Tokens.Supply.{Transfer, sum, after, supply-sum}
use liquity.Subgraph.Troves.{
  get_trove, change_of, link, link_liquidation, link_redemption, updated_trove, save_trove,
  record_trove_change, change_trove, update_found, update_trove,
}
use liquity.Subgraph.Troves.Counted.{update_trove-IsIndexed}
use liquity.Subgraph.Troves.Indexed.{IsIndexed}
use liquity.Subgraph.Troves.Moves.{paid}
use liquity.Subgraph.Troves.Totals.{IsBalanced, update_trove-IsBalanced}

abbrev transaction : ℕ → Event
transaction n = record { hash = n; from = 1; block_number = n; timestamp = n; address = 9 }

abbrev ether : ℕ → ℕ
ether n = n * scaling_factor

abbrev no_entities : Store ℤ
no_entities = new_store (pos 0)

-- A price, a new Trove with its fee, a deposit, a stake, and an adjustment.
abbrev events : List (Event × Emitted)
events =
    (transaction 5, last_good_price_updated (ether 200))
    ∷ (transaction 6, trove_updated_by_borrower 1 (ether 3) (ether 300) (ether 3) opening)
    ∷ (transaction 6, borrowing_fee_paid (ether 2))
    ∷ (transaction 7, user_deposit_changed 1 (ether 50))
    ∷ (transaction 7, eth_gain_withdrawn 1 0 0)
    ∷ (transaction 8, stake_changed 2 (ether 4))
    ∷ (transaction 9, trove_updated_by_borrower 1 (ether 3) (ether 250) (ether 3) adjusting)
    ∷ []

abbrev or_else : Result (Store ℤ) → Store ℤ → Store ℤ
or_else (ok s) _ = s
or_else (err _) s = s

abbrev run : Result (Store ℤ)
run = handle_all integers events no_entities

abbrev final : Store ℤ
final = or_else run no_entities

abbrev is_ok : Result (Store ℤ) → Bool
is_ok (ok _) = true
is_ok (err _) = false

ok_of : (r : Result (Store ℤ)) (d : Store ℤ) → is_ok r ≡ true → r ≡ ok (or_else r d)
ok_of (ok s) d e = refl
ok_of (err x) d e = cc

succeeds : is_ok run ≡ true
unfolding handle_all handle update_price get_current_system_state bump_system_state
    update_price_from change_price init_change get_transaction start_change finish_change
    update_trove get_trove get_user update_found change_trove get_current_price change_of
    calculate_collateral_ratio link link_liquidation link_redemption get_current_liquidation
    get_current_redemption record_trove_change update_system_state_by_trove_change
    apply_trove_change save_totals save_trove updated_trove set_trove_status
    handle_borrowing_fee_paid set_borrowing_fee_of_last_trove_change note_fee with_fee
    handle_user_deposit_changed handle_eth_gain_withdrawn swap_tmp_deposit_update update_if_waiting
    update_stability_deposit withdraw_collateral_gain_from_stability_deposit get_stability_deposit
    update_stability_deposit_by_operation update_stake restake stake_of get_user_stake create_stake
    get_operation_type change_stake count_stakes ◌+ℤ◌ ◌-ℤ◌
succeeds = refl

change_count : final.history.change_count ≡ 4
unfolding handle_all handle update_price get_current_system_state bump_system_state
    update_price_from change_price init_change get_transaction start_change finish_change
    update_trove get_trove get_user update_found change_trove get_current_price change_of
    calculate_collateral_ratio link link_liquidation link_redemption get_current_liquidation
    get_current_redemption record_trove_change update_system_state_by_trove_change
    apply_trove_change save_totals save_trove updated_trove set_trove_status
    handle_borrowing_fee_paid set_borrowing_fee_of_last_trove_change note_fee with_fee
    handle_user_deposit_changed handle_eth_gain_withdrawn swap_tmp_deposit_update update_if_waiting
    update_stability_deposit withdraw_collateral_gain_from_stability_deposit get_stability_deposit
    update_stability_deposit_by_operation update_stake restake stake_of get_user_stake create_stake
    get_operation_type change_stake count_stakes ◌+ℤ◌ ◌-ℤ◌
change_count = refl

indexed-IsChained_example : IsChained final.history
indexed-IsChained_example = indexed-IsChained integers events final (ok_of run no_entities succeeds)

-- The store once a price is known, and then with one Trove.
abbrev priced : Store ℤ
priced = update_price integers (transaction 5) (ether 200) no_entities

abbrev open_one : Result (Store ℤ)
open_one =
    update_trove integers (transaction 6) open_trove_op 1 (ether 3) (ether 300) (ether 3) priced

abbrev opened : Store ℤ
opened = or_else open_one priced

opens : is_ok open_one ≡ true
unfolding update_price get_current_system_state bump_system_state update_price_from init_change
    get_transaction start_change finish_change update_trove get_trove get_user update_found
    change_trove get_current_price change_of calculate_collateral_ratio link link_liquidation
    link_redemption get_current_liquidation get_current_redemption record_trove_change
    update_system_state_by_trove_change apply_trove_change save_totals save_trove updated_trove
    set_trove_status ◌+ℤ◌ ◌-ℤ◌
opens = refl

one_open : opened.population.counters.number_of_open_troves ≡ 1
unfolding update_price get_current_system_state bump_system_state update_price_from init_change
    get_transaction start_change finish_change update_trove get_trove get_user update_found
    change_trove get_current_price change_of calculate_collateral_ratio link link_liquidation
    link_redemption get_current_liquidation get_current_redemption record_trove_change
    update_system_state_by_trove_change apply_trove_change save_totals save_trove updated_trove
    set_trove_status ◌+ℤ◌ ◌-ℤ◌
one_open = refl

priced-IsIndexed : IsIndexed integers priced.population
unfolding update_price get_current_system_state bump_system_state update_price_from
priced-IsIndexed = record { counted = (refl, refl, refl, refl, refl); settled = λ k t e. absurd cc }

update_trove-IsIndexed_example : IsIndexed integers opened.population
update_trove-IsIndexed_example =
    update_trove-IsIndexed integers integers-IsComparable (transaction 6) open_trove_op 1 (ether 3)
      (ether 300) (ether 3) priced opened (λ e. absurd (omega arith)) (λ _. omega arith)
      priced-IsIndexed (ok_of open_one priced opens)

abbrev first_state : SystemState ℤ
first_state = record {
  sequence_number = 0;
  price = some (decimalize integers (ether 200));
  total_collateral = pos 0;
  total_debt = pos 0;
  total_collateral_ratio = none;
  tokens_in_stability_pool = pos 0;
  coll_surplus_pool_balance = pos 0;
  total_lqty_tokens_staked = pos 0;
}

priced-IsBalanced : IsBalanced integers first_state priced
unfolding update_price get_current_system_state bump_system_state update_price_from
priced-IsBalanced = record {
  is_current = record { current = refl; kept = refl; counted = omega arith };
  collateral = refl;
  debt = refl;
}

update_trove-IsBalanced_example : (st : SystemState ℤ) × IsBalanced integers st opened
update_trove-IsBalanced_example =
    update_trove-IsBalanced integers integers-IsExact (transaction 6) open_trove_op 1 (ether 3)
      (ether 300) (ether 3) first_state priced opened (paid refl) priced-IsBalanced
      (ok_of open_one priced opens)

deposit_events_commute_example :
    (handle_user_deposit_changed integers
        (transaction 7)
        1
        50
        (handle_eth_gain_withdrawn integers (transaction 7) 1 2 3 priced)
      ≡ settled integers (transaction 7) 1 50 2 3 priced)
    × (handle_eth_gain_withdrawn integers
          (transaction 7)
          1
          2
          3
          (handle_user_deposit_changed integers (transaction 7) 1 50 priced)
        ≡ settled integers (transaction 7) 1 50 2 3 priced)
unfolding update_price get_current_system_state bump_system_state update_price_from
deposit_events_commute_example =
    deposit_events_commute integers (transaction 7) 1 50 2 3 priced refl

update_stake-IsCounted_example :
    IsCounted integers (update_stake integers (transaction 8) 2 4 no_entities).stakes
unfolding get_user_stake get_user
update_stake-IsCounted_example =
    update_stake-IsCounted integers integers-IsComparable (transaction 8) 2 4 no_entities refl
      (λ x e. absurd cc) (λ _. omega arith)
      (record { total = refl; active_stakes = refl; brought = λ k x e. absurd cc })

one_staked :
    (update_stake integers (transaction 8) 2 4 no_entities).stakes.number_of_active_lqty_stakes ≡ 1
unfolding update_stake restake stake_of get_user_stake get_user create_stake get_operation_type
    change_stake count_stakes init_change get_transaction start_change finish_change
    get_current_system_state bump_system_state ◌+ℤ◌ ◌-ℤ◌
one_staked = refl

abbrev lusd : Erc20
lusd = record { name_of = λ _. "LUSD Stablecoin"; symbol_of = λ _. "LUSD" }

-- The latest one first: 30 are minted to 1, who sends 10 to 2 and 5 to itself.
abbrev transfers : List Transfer
transfers =
    record { token = 9; from = 1; to = 1; value = 5 }
    ∷ record { token = 9; from = 1; to = 2; value = 10 }
    ∷ record { token = 9; from = 0; to = 1; value = 30 }
    ∷ []

abbrev minted : Token
minted = get_token lusd 9 (after integers lusd transfers)

supply : minted.total_supply ≡ pos 30
unfolding after update_balance get_token take_from give_to balance_of set_balance get_user ◌+ℤ◌ ◌-ℤ◌
supply = refl

supply-sum_example : minted.total_supply ≡ sum minted.balances
supply-sum_example = supply-sum integers lusd transfers 9
