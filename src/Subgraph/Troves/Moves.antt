-- ===== src/Subgraph/Troves/Moves.antt =====
-- What the operations on a Trove move in the totals of the system's state.
use mathlib.Core.Path.{subst}
use liquity.Common.{ℕ, ◌≡◌, ◌∙◌, sym, ap, true, false, ◌||◌, some, ok}
use liquity.Subgraph.Decimals.{BigDecimals, IsExact, decimalize, decimal_zero}
use liquity.Subgraph.Entities.{TroveOperation, liquidate_in_normal_mode, SystemState, Trove, Store}
use liquity.Subgraph.SystemState.{is_borrower_operation, is_redemption, apply_trove_change}
use liquity.Subgraph.Tables.{load}
use liquity.Subgraph.Troves.Applied.{change_at, apply_paid, apply_covered}
use liquity.Subgraph.Troves.Sums.{plus_change, minus_parts, minus_first}

module _ (b : BigDecimals) where
  open b use {D, plus, minus, greater}

  -- The operations that leave no debt to redistribute: those of owners, redemptions, and liquidations
  -- in normal mode that the stability pool covers.
  pub data IsCovered (st : SystemState D) (s : Store D) (op : TroveOperation) (a coll debt : ℕ)
      : Type 0 where
    paid : is_borrower_operation op || is_redemption op ≡ true → IsCovered st s op a coll debt
    offset :
        (t : Trove D)
        → load a s.population.troves ≡ some t
        → greater t.debt st.tokens_in_stability_pool ≡ false
        → op ≡ liquidate_in_normal_mode
        → coll ≡ 0
        → debt ≡ 0
        → IsCovered st s op a coll debt

  -- The totals, with a Trove of its own collateral and debt apart
  pub record AreTotals (st : SystemState D) (own_collateral own_debt rc rd : D) : Type 0 where
    pub collateral : st.total_collateral ≡ plus own_collateral rc
    pub debt : st.total_debt ≡ plus own_debt rd

  paid_totals :
      (exact : IsExact b) (op : TroveOperation) (a coll debt : ℕ) (t : Trove D) (price : D)
      (st st1 : SystemState D) (rc rd : D)
      → is_borrower_operation op || is_redemption op ≡ true
      → AreTotals st t.collateral t.debt rc rd
      → apply_trove_change b (change_at b op a t coll debt price) st ≡ ok st1
      → AreTotals st1 (decimalize b coll) (decimalize b debt) rc rd
  paid_totals exact op a coll debt t price st st1 rc rd p w e =
      let (c, d) = apply_paid b op a coll debt t price st st1 p e in
      record {
        collateral =
            c
            ∙ ap (λ x. plus x (minus (decimalize b coll) t.collateral)) w.collateral
            ∙ plus_change b exact t.collateral (decimalize b coll) rc;
        debt =
            d
            ∙ ap (λ x. plus x (minus (decimalize b debt) t.debt)) w.debt
            ∙ plus_change b exact t.debt (decimalize b debt) rd;
      }

  -- Nothing is left of what is taken out of the sum.
  nothing_left : (exact : IsExact b) (n : ℕ) (r : D) → n ≡ 0 → r ≡ plus (decimalize b n) r
  nothing_left exact n r z =
      sym (exact.plus_zero r)
      ∙ exact.plus_comm r (decimal_zero b)
      ∙ ap (λ x. plus x r) (sym (ap (λ k. decimalize b k) z ∙ exact.comparable.zero_decimal))

  covered_totals :
      (exact : IsExact b) (a coll debt : ℕ) (t : Trove D) (price : D) (st st1 : SystemState D)
      (rc rd : D)
      → greater t.debt st.tokens_in_stability_pool ≡ false
      → coll ≡ 0
      → debt ≡ 0
      → AreTotals st t.collateral t.debt rc rd
      → apply_trove_change b (change_at b liquidate_in_normal_mode a t coll debt price) st ≡ ok st1
      → AreTotals st1 (decimalize b coll) (decimalize b debt) rc rd
  covered_totals exact a coll debt t price st st1 rc rd covered zc zd w e =
      let (g, c, d) = apply_covered b a coll debt t price st st1 covered e in
      record {
        collateral =
            c
            ∙ minus_parts b exact st.total_collateral g t.collateral
            ∙ ap (λ x. minus x t.collateral) w.collateral
            ∙ minus_first b exact t.collateral rc
            ∙ nothing_left exact coll rc zc;
        debt =
            d
            ∙ ap (λ x. minus x t.debt) w.debt
            ∙ minus_first b exact t.debt rd
            ∙ nothing_left exact debt rd zd;
      }

  pub moves_of :
      (exact : IsExact b) (op : TroveOperation) (a coll debt : ℕ) (t : Trove D) (st : SystemState D)
      (s : Store D) (rc rd : D)
      → ((x : Trove D) → load a s.population.troves ≡ some x → x ≡ t)
      → IsCovered st s op a coll debt
      → AreTotals st t.collateral t.debt rc rd
      → (price : D) (st1 : SystemState D)
      → apply_trove_change b (change_at b op a t coll debt price) st ≡ ok st1
      → AreTotals st1 (decimalize b coll) (decimalize b debt) rc rd
  moves_of exact op a coll debt t st s rc rd same (paid p) w price st1 e =
      paid_totals exact op a coll debt t price st st1 rc rd p w e
  moves_of exact op a coll debt t st s rc rd same (offset x f g o zc zd) w price st1 e =
      covered_totals exact a coll debt t price st st1 rc rd
        (subst (λ (y : Trove D). greater y.debt st.tokens_in_stability_pool ≡ false) (same x f) g)
        zc zd w
        (subst (λ o'. apply_trove_change b (change_at b o' a t coll debt price) st ≡ ok st1) o e)
