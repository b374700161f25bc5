-- ===== src/Validation/Accepted.antt =====
-- `validateTroveChange`: the rules that decide whether a change is accepted.
use liquity.Common.{
  ◌-◌, ◌≤◌, ◌≡◌, ◌≢◌, ◌↔◌, ◌∙◌, sym, ap, ok-injective, arith, refl, true, false, Option, none, some,
  ok,
}
use liquity.Decimal.{Decimal}
use liquity.Constants.{lusd_minimum_debt, lusd_minimum_net_debt}
use liquity.Trove.{
  Trove, trove, collateral_ratio, collateral_ratio_is_below_minimum,
  collateral_ratio_is_below_critical, plus,
}
use liquity.Trove.Laws.{subtract_lem}
use liquity.Trove.Ratio.{is_openable-eq-not-below}
use liquity.Trove.Change.{
  CreationParams, ClosureParams, AdjustmentParams, TroveChange, invalid_creation, creation, closure,
  adjustment, what_changed,
}
use liquity.Trove.Change.Apply.{apply}
use liquity.Trove.Change.RoundTrip.{IsClosable, Reaches, what_changed-apply}
use liquity.Validation.{
  Selected, Context, deposited_of, withdrawn_of, borrowed_of, repaid_of, validate_creation,
  validate_adjustment, validate_closure, Verdict, accepted, unchanged, validate_in, context,
  validate_change, validate_trove_change,
}

-- All Troves after the change: the total, with the resulting Trove in place of the original one.
abbrev pub total_after : Selected → Trove → Trove → Trove
total_after s original resulting =
    plus (trove (s.total.collateral - original.collateral) (s.total.debt - original.debt)) resulting

-- An amount, if there is one, is at most a bound.
abbrev pub IsWithin : Decimal → Option Decimal → Type 0
IsWithin bound none = Unit
IsWithin bound (some a) = a ≤ bound

-- In normal mode: the Trove at least at the minimum ratio, and the total at the critical one.
abbrev pub NormalRules : Context → Type 0
NormalRules c =
    (collateral_ratio_is_below_minimum c.resulting_trove c.selected.price ≡ false)
    × (c.would_trigger_recovery_mode ≡ false)

abbrev pub CreationRules : CreationParams → Context → Type 0
CreationRules p c =
    (lusd_minimum_net_debt ≤ p.borrow)
    × (p.deposit ≤ c.selected.account_balance)
    × (c.recovery_mode ≡ true
        → collateral_ratio_is_below_critical c.resulting_trove c.selected.price ≡ false)
    × (c.recovery_mode ≡ false → NormalRules c)

abbrev pub ClosureRules : ClosureParams → Context → Type 0
ClosureRules p c =
    (c.selected.number_of_troves ≢ 1)
    × (c.recovery_mode ≡ false)
    × IsWithin c.selected.lusd_balance p.repay
    × (c.would_trigger_recovery_mode ≡ false)

-- In recovery mode: nothing is withdrawn, and who borrows stays at the critical ratio or above it and
-- does not lower the ratio of the Trove.
abbrev pub BorrowRules : Option Decimal → Context → Type 0
BorrowRules none c = Unit
BorrowRules (some a) c =
    (collateral_ratio_is_below_critical c.resulting_trove c.selected.price ≡ false)
    × (collateral_ratio c.original_trove c.selected.price
        ≤ collateral_ratio c.resulting_trove c.selected.price)

abbrev pub RepayRules : Option Decimal → Context → Type 0
RepayRules none c = Unit
RepayRules (some a) c = (lusd_minimum_debt ≤ c.resulting_trove.debt) × (a ≤ c.selected.lusd_balance)

abbrev pub AdjustmentRules : AdjustmentParams → Context → Type 0
AdjustmentRules p c =
    IsWithin c.selected.account_balance (deposited_of p)
    × RepayRules (repaid_of p) c
    × (c.recovery_mode ≡ true → (withdrawn_of p ≡ none) × BorrowRules (borrowed_of p) c)
    × (c.recovery_mode ≡ false → NormalRules c)

abbrev pub Rules : TroveChange → Context → Type 0
Rules (invalid_creation t) c = ⊥
Rules (creation p) c = CreationRules p c
Rules (closure p) c = ClosureRules p c
Rules (adjustment p z) c = AdjustmentRules p c

validate_creation_iff :
    (p : CreationParams) (c : Context) → (validate_creation p c ≡ none) ↔ CreationRules p c
unfolding validate_creation
validate_creation_iff p c =
    ground (arith, is_openable-eq-not-below c.resulting_trove c.selected.price)

validate_closure_iff :
    (p : ClosureParams) (c : Context) → (validate_closure p c ≡ none) ↔ ClosureRules p c
unfolding validate_closure
validate_closure_iff p c = ground arith

validate_adjustment_iff :
    (p : AdjustmentParams) (c : Context) → (validate_adjustment p c ≡ none) ↔ AdjustmentRules p c
unfolding validate_adjustment
validate_adjustment_iff p c = ground arith

-- A change is accepted just when it keeps the rules.
validate_in_iff :
    (change : TroveChange) (c : Context) → (validate_in change c ≡ accepted change) ↔ Rules change c
unfolding validate_in
validate_in_iff (invalid_creation t) c = ground arith
validate_in_iff (creation p) c = ground (arith, validate_creation_iff p c)
validate_in_iff (closure p) c = ground (arith, validate_closure_iff p c)
validate_in_iff (adjustment p z) c = ground (arith, validate_adjustment_iff p c)

-- No other change than the one that is validated is accepted.
validate_in-same :
    (change other : TroveChange) (c : Context)
    → validate_in change c ≡ accepted other
    → change ≡ other
unfolding validate_in
validate_in-same (invalid_creation t) other c e = cc
validate_in-same (creation p) other c e = ground arith
validate_in-same (closure p) other c e = ground arith
validate_in-same (adjustment p z) other c e = ground arith

-- The context of a change that leads from one Trove to another.
abbrev pub outcome : Selected → Trove → Trove → Context
outcome s original resulting = record {
  selected = s;
  original_trove = original;
  resulting_trove = resulting;
  recovery_mode = collateral_ratio_is_below_critical s.total s.price;
  would_trigger_recovery_mode =
      collateral_ratio_is_below_critical (total_after s original resulting) s.price;
}

abbrev judged : Option TroveChange → Context → Verdict
judged none c = unchanged
judged (some change) c = validate_in change c

judge :
    (original : Trove) (rate : Decimal) (s : Selected) (c : Option TroveChange) (r : Trove)
    → apply original c rate ≡ ok r
    → validate_change original rate s c ≡ ok (judged c (outcome s original r))
unfolding validate_change context
judge original rate s none r e = refl
judge original rate s (some change) r e = rw (e, subtract_lem s.total original) refl

-- What holds of a verdict's change, if it accepts one.
abbrev pub Keeps : Trove → Trove → Decimal → Selected → Verdict → Type 0
Keeps original adjusted rate s v =
    (change : TroveChange)
    → v ≡ accepted change
    → (r : Trove) × (apply original (some change) rate ≡ ok r)
      × Reaches rate original adjusted r
      × Rules change (outcome s original r)

judged-Keeps :
    (original adjusted : Trove) (rate : Decimal) (s : Selected) (c : Option TroveChange) (r : Trove)
    → apply original c rate ≡ ok r
    → Reaches rate original adjusted r
    → Keeps original adjusted rate s (judged c (outcome s original r))
judged-Keeps original adjusted rate s none r e reaches change a = cc
judged-Keeps original adjusted rate s (some found) r e reaches change a =
    let same = validate_in-same found change (outcome s original r) a in
    (
      r,
      rw same at e,
      reaches,
      (validate_in_iff change (outcome s original r)).0
          (ap (λ x. validate_in x (outcome s original r)) (sym same) ∙ a),
    )

-- Unless a non-empty Trove with less debt than the liquidation reserve is to be closed, validation
-- never throws. If it accepts a change, that change can be applied, leads to the Trove that was
-- asked for but for the fee's rounding, and keeps the rules for the Trove that it leads to: those
-- on minimum debt, on balances, on the number of Troves, and on collateral ratios in either mode.
pub validate_trove_change-Keeps :
    (original adjusted : Trove) (rate : Decimal) (s : Selected)
    → IsClosable original adjusted
    → (v : Verdict) × (validate_trove_change original adjusted rate s ≡ ok v)
      × Keeps original adjusted rate s v
unfolding validate_trove_change
validate_trove_change-Keeps original adjusted rate s closable =
    let (c, found, r, e, reaches) = what_changed-apply original adjusted rate closable in
    (
      judged c (outcome s original r),
      rw found (judge original rate s c r e),
      judged-Keeps original adjusted rate s c r e reaches,
    )

-- A change that `whatChanged` finds and `apply` accepts is accepted by the validation if, and only
-- if, it keeps the rules for the Trove that it leads to.
pub validate_trove_change_iff :
    (original adjusted : Trove) (rate : Decimal) (s : Selected) (change : TroveChange) (r : Trove)
    → what_changed original adjusted rate ≡ ok (some change)
    → apply original (some change) rate ≡ ok r
    → (validate_trove_change original adjusted rate s ≡ ok (accepted change))
      ↔ Rules change (outcome s original r)
unfolding validate_trove_change
validate_trove_change_iff original adjusted rate s change r found e =
    let p = judge original rate s (some change) r e in
    let q = validate_in_iff change (outcome s original r) in
    rw (found, p) ((λ k. q.0 (ok-injective k)), (λ k. ap (λ v. ok v) (q.1 k)))

Rules-after :
    (change : TroveChange) (c : Context)
    → c.recovery_mode ≡ false
    → Rules change c
    → c.would_trigger_recovery_mode ≡ false
Rules-after (invalid_creation t) c h r = absurd r
Rules-after (creation p) c h r = ground arith
Rules-after (closure p) c h r = ground arith
Rules-after (adjustment p z) c h r = ground arith

-- In normal mode an accepted change never brings the system into recovery mode, unless a non-empty
-- Trove with less debt than the liquidation reserve is to be closed: the change can be applied, and
-- after it the total, with the resulting Trove in place of the original one, is not below the
-- critical ratio.
pub accepted-stays_normal :
    (original adjusted : Trove) (rate : Decimal) (s : Selected) (change : TroveChange)
    → IsClosable original adjusted
    → validate_trove_change original adjusted rate s ≡ ok (accepted change)
    → collateral_ratio_is_below_critical s.total s.price ≡ false
    → (r : Trove) × (apply original (some change) rate ≡ ok r)
      × (collateral_ratio_is_below_critical (total_after s original r) s.price ≡ false)
accepted-stays_normal original adjusted rate s change closable a normal =
    let (v, e, keeps) = validate_trove_change-Keeps original adjusted rate s closable in
    let (r, done, _, rules) = keeps change (ok-injective (sym e ∙ a)) in
    (r, done, Rules-after change (outcome s original r) normal rules)
