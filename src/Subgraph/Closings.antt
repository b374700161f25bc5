-- ===== src/Subgraph/Closings.antt =====
-- packages/subgraph/src/entities: User.ts (`getUser`), Liquidation.ts and Redemption.ts. A liquidation
-- or a redemption is begun by the first change of a Trove that is part of it.
use liquity.Common.{ℕ, suc, ltb, false, Option, none, some}
use liquity.Subgraph.Decimals.{BigDecimals, decimal_zero, decimalize}
use liquity.Subgraph.Entities.{Event, Liquidation, Redemption, User, Closings, Store}
use liquity.Subgraph.History.{get_transaction}
use liquity.Subgraph.Tables.{Table, load, save}

module _ (b : BigDecimals) where
  open b use {D, plus}

  abbrev new_user : User D
  new_user = record {
    trove = none;
    stability_deposit = none;
    stake = none;
    frontend = none;
    coll_surplus = decimal_zero b;
  }

  -- `getUser`, with the users that it leaves
  unfoldable pub get_user : ℕ → Table (User D) → User D × Table (User D)
  get_user id users = elim (load id users) [
    | some u ↦ (u, users)
    | none ↦ (new_user, save id new_user users)
  ]

  abbrev new_liquidation : Event → ℕ → Liquidation D
  new_liquidation e n = record {
    sequence_number = n;
    transaction = e.hash;
    liquidator = e.from;
    liquidated_collateral = decimal_zero b;
    liquidated_debt = decimal_zero b;
    coll_gas_compensation = decimal_zero b;
    token_gas_compensation = decimal_zero b;
  }

  abbrev new_redemption : Event → ℕ → Redemption D
  new_redemption e n = record {
    sequence_number = n;
    transaction = e.hash;
    redeemer = e.from;
    tokens_attempted_to_redeem = decimal_zero b;
    tokens_actually_redeemed = decimal_zero b;
    collateral_redeemed = decimal_zero b;
    is_partial = false;
    fee = decimal_zero b;
  }

  abbrev load_liquidation : Closings D → Option (Liquidation D)
  load_liquidation c = elim c.current_liquidation [ none ↦ none | some id ↦ load id c.liquidations ]

  abbrev load_redemption : Closings D → Option (Redemption D)
  load_redemption c = elim c.current_redemption [ none ↦ none | some id ↦ load id c.redemptions ]

  -- What a new liquidation or redemption leaves: its transaction and its user are created with it.
  abbrev attributed : Event → Closings D → Store D → Store D
  attributed e c s = record s {
    closings = c;
    ledger = get_transaction e s.ledger;
    users = (get_user e.from s.users).1;
  }

  unfoldable pub get_current_liquidation : Event → Store D → Liquidation D × Store D
  get_current_liquidation e s =
      let c = s.closings in
      let n = c.liquidation_count in
      elim (load_liquidation c) [
        | some l ↦ (l, s)
        | none ↦ (
          new_liquidation e n,
          attributed e
              (record c {
                liquidation_count = suc n;
                liquidations = save n (new_liquidation e n) c.liquidations;
                current_liquidation = some n;
              })
              s,
        )
      ]

  unfoldable pub get_current_redemption : Event → Store D → Redemption D × Store D
  get_current_redemption e s =
      let c = s.closings in
      let n = c.redemption_count in
      elim (load_redemption c) [
        | some r ↦ (r, s)
        | none ↦ (
          new_redemption e n,
          attributed e
              (record c {
                redemption_count = suc n;
                redemptions = save n (new_redemption e n) c.redemptions;
                current_redemption = some n;
              })
              s,
        )
      ]

  unfoldable pub finish_current_liquidation : Event → ℕ → ℕ → ℕ → ℕ → Store D → Store D
  finish_current_liquidation e coll debt coll_compensation lusd_compensation s =
      let (l, s') = get_current_liquidation e s in
      let c = s'.closings in
      record s' {
        closings = record c {
          liquidations =
              save l.sequence_number
                (record l {
                  liquidated_collateral = decimalize b coll;
                  liquidated_debt = decimalize b debt;
                  coll_gas_compensation = decimalize b coll_compensation;
                  token_gas_compensation = decimalize b lusd_compensation;
                })
                c.liquidations;
          current_liquidation = none;
        };
      }

  unfoldable pub finish_current_redemption : Event → ℕ → ℕ → ℕ → ℕ → Store D → Store D
  finish_current_redemption e attempted actual eth_sent eth_fee s =
      let (r, s') = get_current_redemption e s in
      let c = s'.closings in
      record s' {
        closings = record c {
          redemptions =
              save r.sequence_number
                (record r {
                  tokens_attempted_to_redeem = decimalize b attempted;
                  tokens_actually_redeemed = decimalize b actual;
                  collateral_redeemed = decimalize b eth_sent;
                  is_partial = ltb actual attempted;
                  fee = decimalize b eth_fee;
                })
                c.redemptions;
          current_redemption = none;
          total_redemption_fees_paid = plus c.total_redemption_fees_paid (decimalize b eth_fee);
        };
      }
