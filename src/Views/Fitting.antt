-- ===== src/Views/Fitting.antt =====
-- The view of a Trove fits the Trove's status.
use liquity.Common.{◌≡◌, ◌⊎◌, inl, inr, refl, arith, Bool, true, false}
use liquity.Trove.User.{
  UserTroveStatus, non_existent, open_trove, closed_by_owner, closed_by_liquidation,
  closed_by_redemption,
}
use liquity.Views.{
  TroveView, none_view, liquidated_view, redeemed_view, opening_view, adjusting_view, closing_view,
  active_view, TroveEvent, open_trove_pressed, adjust_trove_pressed, close_trove_pressed,
  cancel_adjust_trove_pressed, trove_adjusted, trove_closed, trove_surplus_collateral_claimed,
  transitions, transition, trove_status_events, get_initial_view, on_status,
}

-- The views that may be shown for a status. After a liquidation or a redemption, the surplus may
-- have been claimed, and the user may be about to open another Trove.
abbrev pub fits : UserTroveStatus → TroveView → Bool
fits open_trove active_view = true
fits open_trove adjusting_view = true
fits open_trove closing_view = true
fits open_trove _ = false
fits non_existent none_view = true
fits non_existent opening_view = true
fits non_existent _ = false
fits closed_by_owner none_view = true
fits closed_by_owner opening_view = true
fits closed_by_owner _ = false
fits closed_by_liquidation liquidated_view = true
fits closed_by_liquidation none_view = true
fits closed_by_liquidation opening_view = true
fits closed_by_liquidation _ = false
fits closed_by_redemption redeemed_view = true
fits closed_by_redemption none_view = true
fits closed_by_redemption opening_view = true
fits closed_by_redemption _ = false

-- The events that tell of what the user pressed, or of an adjustment or a claim that was confirmed.
pub data IsOfUser : TroveEvent → Type 0 where
  opens : IsOfUser open_trove_pressed
  adjusts : IsOfUser adjust_trove_pressed
  closes : IsOfUser close_trove_pressed
  cancels : IsOfUser cancel_adjust_trove_pressed
  adjusted : IsOfUser trove_adjusted
  claimed : IsOfUser trove_surplus_collateral_claimed

-- How a status changes: a Trove that is not open is opened, and one that is open is closed.
pub data Becomes : UserTroveStatus → UserTroveStatus → Type 0 where
  created : Becomes non_existent open_trove
  reopened : Becomes closed_by_owner open_trove
  reopened_liquidated : Becomes closed_by_liquidation open_trove
  reopened_redeemed : Becomes closed_by_redemption open_trove
  closed : Becomes open_trove closed_by_owner
  liquidated : Becomes open_trove closed_by_liquidation
  redeemed : Becomes open_trove closed_by_redemption

-- The status that the views know of: a closing that is confirmed is known before the store's status
-- tells of it.
abbrev pub as_told : (confirmed : Bool) → UserTroveStatus → UserTroveStatus
as_told true _ = closed_by_owner
as_told false s = s

-- A status, whether a closing is confirmed that it does not tell of yet, and a view; and what may
-- happen to them. The confirmation of a closing dispatches `TROVE_CLOSED`, before the status changes
-- or after it.
pub data Step
    : UserTroveStatus → Bool → TroveView → UserTroveStatus → Bool → TroveView → Type 0 where
  acts :
      {s : UserTroveStatus} {c : Bool} {v : TroveView} {e : TroveEvent}
      → IsOfUser e
      → Step s c v s c (transition v e)
  confirms :
      {c : Bool} {v : TroveView} → Step open_trove c v open_trove true (transition v trove_closed)
  confirms_late :
      {c : Bool} {v : TroveView}
      → Step closed_by_owner c v closed_by_owner c (transition v trove_closed)
  changes :
      {s t : UserTroveStatus} {c : Bool} {v : TroveView}
      → Becomes s t
      → Step s c v t false (on_status t v)

pub data Reach (s : UserTroveStatus) : UserTroveStatus → Bool → TroveView → Type 0 where
  here : Reach s s false (get_initial_view s)
  next :
      {t u : UserTroveStatus} {c d : Bool} {v w : TroveView}
      → Reach s t c v
      → Step t c v u d w
      → Reach s u d w

initial-fits : (s : UserTroveStatus) → fits s (get_initial_view s) ≡ true
unfolding get_initial_view
initial-fits s = ground (arith)

user-fits :
    (s : UserTroveStatus) (v : TroveView) (e : TroveEvent)
    → IsOfUser e
    → fits s v ≡ true
    → fits s (transition v e) ≡ true
unfolding transition transitions
user-fits s v e opens h = ground arith
user-fits s v e adjusts h = ground arith
user-fits s v e closes h = ground arith
user-fits s v e cancels h = ground arith
user-fits s v e adjusted h = ground arith
user-fits s v e claimed h = ground arith

-- A closing that is confirmed leaves no view of an open Trove.
closing-fits :
    (s : UserTroveStatus) (v : TroveView)
    → (s ≡ open_trove) ⊎ (s ≡ closed_by_owner)
    → fits s v ≡ true
    → fits closed_by_owner (transition v trove_closed) ≡ true
unfolding transition transitions
closing-fits s v k h = ground arith

status-fits :
    (s t : UserTroveStatus) (v : TroveView)
    → Becomes s t
    → fits s v ≡ true
    → fits t (on_status t v) ≡ true
unfolding on_status trove_status_events transition transitions
status-fits s t v created h = ground arith
status-fits s t v reopened h = ground arith
status-fits s t v reopened_liquidated h = ground arith
status-fits s t v reopened_redeemed h = ground arith
status-fits s t v closed h = ground arith
status-fits s t v liquidated h = ground arith
status-fits s t v redeemed h = ground arith

told-fits :
    (s t : UserTroveStatus) (c : Bool) (v : TroveView)
    → Becomes s t
    → fits (as_told c s) v ≡ true
    → fits t (on_status t v) ≡ true
unfolding on_status trove_status_events transition transitions
told-fits s t false v b h = status-fits s t v b h
told-fits s t true v created h = ground arith
told-fits s t true v reopened h = ground arith
told-fits s t true v reopened_liquidated h = ground arith
told-fits s t true v reopened_redeemed h = ground arith
told-fits s t true v closed h = ground arith
told-fits s t true v liquidated h = ground arith
told-fits s t true v redeemed h = ground arith

Step-fits :
    {s t : UserTroveStatus} {c d : Bool} {v w : TroveView}
    → Step s c v t d w
    → fits (as_told c s) v ≡ true
    → fits (as_told d t) w ≡ true
Step-fits {s} {c = c} {v = v} (acts {e = e} u) h = user-fits (as_told c s) v e u h
Step-fits {v = v} (confirms {c = false}) h = closing-fits open_trove v (inl refl) h
Step-fits {v = v} (confirms {c = true}) h = closing-fits closed_by_owner v (inr refl) h
Step-fits {v = v} (confirms_late {c = false}) h = closing-fits closed_by_owner v (inr refl) h
Step-fits {v = v} (confirms_late {c = true}) h = closing-fits closed_by_owner v (inr refl) h
Step-fits {s} {t} {c} {v = v} (changes b) h = told-fits s t c v b h

-- As long as every opening and every closing of the Trove is seen, through its status, the view fits
-- that status, whatever the user presses and however the Trove is closed; but from the confirmation
-- of a closing until the status tells of it, the view fits a Trove that its owner has closed.
pub Reach-fits :
    {s t : UserTroveStatus} {c : Bool} {v : TroveView} → Reach s t c v → fits (as_told c t) v ≡ true
Reach-fits {s} here = initial-fits s
Reach-fits (next r st) = Step-fits st (Reach-fits r)
