-- ===== src/Trove/Change/RoundTrip.antt =====
-- `whatChanged` and `apply`: applying the change between two Troves leads from one to the other.
use native.Mathlib.Decide.{dec_lt, ℕ_discrete}
use liquity.Common.{
  Error, sym, ap, ◌∙◌, ◌+◌, ◌-◌, ◌≤◌, ◌<◌, ◌≡◌, ◌≢◌, refl, ◌↔◌, inl, inr, arith, Bool, true, false,
  Option, none, some, Result, ok, err, ltb, ◌==◌, if◌then◌else◌, Bool-cases, ◌&&◌,
  net_debt_below_reserve,
}
use liquity.Decimal.{Decimal, non_zero?}
use liquity.Constants.{lusd_liquidation_reserve}
use liquity.Trove.{Trove, trove, empty_trove, is_empty}
use liquity.Trove.Change.{
  CollateralChange, deposit_collateral, withdraw_collateral, DebtChange, borrow_lusd, repay_lusd,
  AdjustmentParams, collateral_only, debt_only, both, Zeroed, invalid_creation, creation, closure,
  adjustment, debt_zero, collateral_zero, or_else, TroveChange, apply_fee, unapply_fee, debt_change,
  collateral_change, created, closed, adjusted, what_changed,
}
use liquity.Trove.Change.Fee.{Overshoots, apply_fee-unapply_fee}
use liquity.Trove.Change.Apply.{apply, settle, apply_adjustment-settle}

debt_change_lem :
    (t that : Trove) (rate : Decimal)
    → debt_change t that rate
      ≡ ok (
          if ltb t.debt that.debt
          then borrow_lusd (unapply_fee rate (that.debt - t.debt))
          else repay_lusd (t.debt - that.debt))
unfolding debt_change
debt_change_lem t that rate = ground arith

collateral_change_lem :
    (t that : Trove)
    → collateral_change t that
      ≡ ok (
          if ltb t.collateral that.collateral
          then deposit_collateral (that.collateral - t.collateral)
          else withdraw_collateral (t.collateral - that.collateral))
unfolding collateral_change
collateral_change_lem t that = ground arith

-- r is the Trove that was asked for, but for the rounding of the fee on newly borrowed LUSD.
abbrev pub Reaches : Decimal → Trove → Trove → Trove → Type 0
Reaches rate t that r =
    (r.collateral ≡ that.collateral)
    × Overshoots rate that.debt r.debt
    × (that.debt ≤ t.debt → r.debt ≡ that.debt)

-- A change was found, and applying it reaches the Trove that was asked for.
abbrev pub Recovers : Decimal → Trove → Trove → Result (Option TroveChange) → Type 0
Recovers rate t that found =
    (c : Option TroveChange) × (found ≡ ok c)
    × (r : Trove) × (apply t c rate ≡ ok r)
    × Reaches rate t that r

created-Recovers :
    (t that : Trove) (rate : Decimal) → is_empty t ≡ true → Recovers rate t that (created that rate)
unfolding created apply
created-Recovers t that rate e = elim (Bool-cases (ltb that.debt lusd_liquidation_reserve)) [
  | inl below ↦ (some (invalid_creation that), ground arith, that, ground arith, ground arith)
  | inr above ↦
      let borrowed = unapply_fee rate (that.debt - lusd_liquidation_reserve) in
      (
        some (creation (record { deposit = that.collateral; borrow = borrowed })),
        ground arith,
        trove that.collateral (lusd_liquidation_reserve + apply_fee rate borrowed),
        ground arith,
        ground (arith, apply_fee-unapply_fee rate (that.debt - lusd_liquidation_reserve)),
      )
]

closed-Recovers :
    (t that : Trove) (rate : Decimal)
    → is_empty t ≡ false
    → is_empty that ≡ true
    → lusd_liquidation_reserve ≤ t.debt
    → Recovers rate t that (closed t)
unfolding closed apply
closed-Recovers t that rate e f h = (
  some (
      closure (record {
        withdraw = t.collateral;
        repay = non_zero? (t.debt - lusd_liquidation_reserve);
      })),
  ground arith,
  empty_trove,
  ground arith,
  ground arith,
)

module _ (t that : Trove) (rate : Decimal) where
  -- What the change to `that` is, once its subtractions are known not to throw.
  abbrev pub debt_part : DebtChange
  debt_part =
      if ltb t.debt that.debt
      then borrow_lusd (unapply_fee rate (that.debt - t.debt))
      else repay_lusd (t.debt - that.debt)

  abbrev pub collateral_part : CollateralChange
  collateral_part =
      if ltb t.collateral that.collateral
      then deposit_collateral (that.collateral - t.collateral)
      else withdraw_collateral (t.collateral - that.collateral)

  Settles : AdjustmentParams → Option Zeroed → Type 0
  Settles p z = Reaches rate t that (settle t p z rate)

  debt_only-Settles :
      t.collateral ≡ that.collateral → Settles (debt_only debt_part) (debt_zero that)
  unfolding Settles
  debt_only-Settles e = ground (arith, apply_fee-unapply_fee rate (that.debt - t.debt))

  collateral_only-Settles :
      t.debt ≡ that.debt → Settles (collateral_only collateral_part) (collateral_zero that)
  unfolding Settles
  collateral_only-Settles e = ground arith

  both-Settles :
      Settles (both debt_part collateral_part) (or_else (debt_zero that) (collateral_zero that))
  unfolding Settles
  both-Settles = ground (arith, apply_fee-unapply_fee rate (that.debt - t.debt))

  settled :
      (p : AdjustmentParams) (z : Option Zeroed)
      → Settles p z
      → adjusted t that rate ≡ ok (some (adjustment p z))
      → Recovers rate t that (adjusted t that rate)
  unfolding Settles apply
  settled p z s e =
      (some (adjustment p z), e, settle t p z rate, apply_adjustment-settle t p z rate, s)

  pub adjusted-debt_only :
      t.collateral ≡ that.collateral
      → adjusted t that rate ≡ ok (some (adjustment (debt_only debt_part) (debt_zero that)))
  unfolding adjusted
  adjusted-debt_only e = ground (arith, debt_change_lem t that rate)

  pub adjusted-collateral_only :
      t.collateral ≢ that.collateral
      → t.debt ≡ that.debt
      → adjusted t that rate
        ≡ ok (some (adjustment (collateral_only collateral_part) (collateral_zero that)))
  unfolding adjusted
  adjusted-collateral_only n e = ground (arith, collateral_change_lem t that)

  abbrev pub both_zero : Option Zeroed
  both_zero = or_else (debt_zero that) (collateral_zero that)

  pub adjusted-both :
      t.collateral ≢ that.collateral
      → t.debt ≢ that.debt
      → adjusted t that rate ≡ ok (some (adjustment (both debt_part collateral_part) both_zero))
  unfolding adjusted
  adjusted-both n m = ground (arith, debt_change_lem t that rate, collateral_change_lem t that)

  adjusted-Recovers : Recovers rate t that (adjusted t that rate)
  adjusted-Recovers = elim (ℕ_discrete t.collateral that.collateral) [
    | yes same ↦
        settled (debt_only debt_part) (debt_zero that) (debt_only-Settles same)
          (adjusted-debt_only same)
    | no n ↦ elim (ℕ_discrete t.debt that.debt) [
      | yes same ↦
          settled (collateral_only collateral_part) (collateral_zero that)
            (collateral_only-Settles same) (adjusted-collateral_only n same)
      | no m ↦ settled (both debt_part collateral_part) both_zero both-Settles (adjusted-both n m)
    ]
  ]

-- A Trove can be closed if its debt covers the liquidation reserve.
abbrev pub IsClosable : Trove → Trove → Type 0
IsClosable t that = is_empty t ≡ false → is_empty that ≡ true → lusd_liquidation_reserve ≤ t.debt

module _ (t that : Trove) (rate : Decimal) where
  abbrev pub unchanged : Bool
  unchanged = (t.collateral == that.collateral) && (t.debt == that.debt)

  if_same : unchanged ≡ true → what_changed t that rate ≡ ok none
  unfolding what_changed
  if_same e = ground arith

  if_opening : unchanged ≡ false → is_empty t ≡ true → what_changed t that rate ≡ created that rate
  unfolding what_changed
  if_opening e f = ground arith

  if_closing :
      unchanged ≡ false
      → is_empty t ≡ false
      → is_empty that ≡ true
      → what_changed t that rate ≡ closed t
  unfolding what_changed
  if_closing e f g = ground arith

  pub if_adjusting :
      unchanged ≡ false
      → is_empty t ≡ false
      → is_empty that ≡ false
      → what_changed t that rate ≡ adjusted t that rate
  unfolding what_changed
  if_adjusting e f g = ground arith

-- Unless a non-empty Trove with less debt than the liquidation reserve is to be closed,
-- `whatChanged` finds a change, and `apply` accepts it: it leads to a Trove with exactly the wanted
-- collateral and at least the wanted debt, which it exceeds by less than 1 + rate in the last of its
-- 18 digits, and not at all if the debt does not grow.
pub what_changed-apply :
    (t that : Trove) (rate : Decimal)
    → IsClosable t that
    → (c : Option TroveChange) × (what_changed t that rate ≡ ok c)
      × (r : Trove) × (apply t c rate ≡ ok r)
      × Reaches rate t that r
what_changed-apply t that rate closable =
    elim (Bool-cases ((t.collateral == that.collateral) && (t.debt == that.debt))) [
      | inl same ↦ unfold apply in (none, if_same t that rate same, t, refl, ground arith)
      | inr other ↦ elim (Bool-cases (is_empty t)) [
        | inl opening ↦
            rw (if_opening t that rate other opening) (created-Recovers t that rate opening)
        | inr from ↦ elim (Bool-cases (is_empty that)) [
          | inl closing ↦
              rw (if_closing t that rate other from closing)
                (closed-Recovers t that rate from closing (closable from closing))
          | inr to ↦ rw (if_adjusting t that rate other from to) (adjusted-Recovers t that rate)
        ]
      ]
    ]

found-not-IsClosable :
    (t that : Trove) (rate : Decimal) (x : Error)
    → what_changed t that rate ≡ err x
    → ¬ IsClosable t that
found-not-IsClosable t that rate x e closable =
    let (c, found, _, _, _) = what_changed-apply t that rate closable in cc (found, e)

closing-err :
    (t that : Trove) (rate : Decimal)
    → is_empty t ≡ false
    → is_empty that ≡ true
    → t.debt < lusd_liquidation_reserve
    → what_changed t that rate ≡ err net_debt_below_reserve
unfolding what_changed
closing-err t that rate from closing below = ground (arith, from, closing, below)

one_error :
    {x y : Error} {found : Result (Option TroveChange)} → found ≡ err x → found ≡ err y → x ≡ y
one_error e f = cc

-- `whatChanged` throws an error just when a non-empty Trove with less debt than the liquidation
-- reserve is to be closed, and the error is that the net debt would be below the reserve: no other
-- exception leaves it, and in all other cases it returns.
pub what_changed-err_iff :
    (t that : Trove) (rate : Decimal) (x : Error)
    → (what_changed t that rate ≡ err x) ↔ (
        (x ≡ net_debt_below_reserve)
        × (is_empty t ≡ false)
        × (is_empty that ≡ true)
        × (t.debt < lusd_liquidation_reserve))
what_changed-err_iff t that rate x = (
  λ e. elim (Bool-cases (is_empty t)) [
    | inl opening ↦ absurd (found-not-IsClosable t that rate x e (λ f. cc))
    | inr from ↦ elim (Bool-cases (is_empty that)) [
      | inr to ↦ absurd (found-not-IsClosable t that rate x e (λ _ f. cc))
      | inl closing ↦ elim (dec_lt t.debt lusd_liquidation_reserve) [
        | yes below ↦
            (one_error e (closing-err t that rate from closing below), from, closing, below)
        | no above ↦ absurd (found-not-IsClosable t that rate x e (λ _ _. omega arith))
      ]
    ]
  ],
  λ h. closing-err t that rate h.1 h.2 h.3 ∙ ap (λ y. err y) (sym h.0),
)
