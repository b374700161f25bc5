-- ===== src/Views.antt =====
-- packages/dev-frontend/src/components: which view of a Trove, and of a stability deposit, is shown.
-- Trove/context/TroveViewProvider.tsx and Stability/context/StabilityViewProvider.tsx, without React:
-- the provider's effect dispatches the event of a status when the status changes.
pub mod Fitting
use liquity.Common.{Bool, true, false, Option, none, some, if◌then◌else◌}
use liquity.StabilityDeposit.{StabilityDeposit, is_empty}
use liquity.Trove.User.{
  UserTroveStatus, non_existent, open_trove, closed_by_owner, closed_by_liquidation,
  closed_by_redemption,
}

-- `TroveView`
pub data TroveView : Type 0 where
  none_view liquidated_view redeemed_view opening_view adjusting_view closing_view active_view :
      TroveView

-- `TroveEvent`
pub data TroveEvent : Type 0 where
  open_trove_pressed adjust_trove_pressed close_trove_pressed cancel_adjust_trove_pressed :
      TroveEvent
  trove_adjusted trove_opened trove_closed trove_liquidated trove_redeemed
        trove_surplus_collateral_claimed :
      TroveEvent

-- `transitions`
unfoldable pub transitions : TroveView → TroveEvent → Option TroveView
transitions none_view open_trove_pressed = some opening_view
transitions none_view trove_opened = some active_view
transitions liquidated_view open_trove_pressed = some opening_view
transitions liquidated_view trove_surplus_collateral_claimed = some none_view
transitions liquidated_view trove_opened = some active_view
transitions redeemed_view open_trove_pressed = some opening_view
transitions redeemed_view trove_surplus_collateral_claimed = some none_view
transitions redeemed_view trove_opened = some active_view
transitions opening_view cancel_adjust_trove_pressed = some none_view
transitions opening_view trove_opened = some active_view
transitions adjusting_view cancel_adjust_trove_pressed = some active_view
transitions adjusting_view trove_adjusted = some active_view
transitions adjusting_view trove_closed = some none_view
transitions adjusting_view trove_liquidated = some liquidated_view
transitions adjusting_view trove_redeemed = some redeemed_view
transitions closing_view cancel_adjust_trove_pressed = some active_view
transitions closing_view trove_closed = some none_view
transitions closing_view trove_adjusted = some active_view
transitions closing_view trove_liquidated = some liquidated_view
transitions closing_view trove_redeemed = some redeemed_view
transitions active_view adjust_trove_pressed = some adjusting_view
transitions active_view close_trove_pressed = some closing_view
transitions active_view trove_closed = some none_view
transitions active_view trove_liquidated = some liquidated_view
transitions active_view trove_redeemed = some redeemed_view
transitions _ _ = none

-- `a ?? view`
abbrev or_stay {ℓ} : {A : Type ℓ} → Option A → A → A
or_stay none view = view
or_stay (some next) view = next

-- `transition`
unfoldable pub transition : TroveView → TroveEvent → TroveView
unfolding transitions
transition view event = or_stay (transitions view event) view

-- `troveStatusEvents`
unfoldable pub trove_status_events : UserTroveStatus → Option TroveEvent
trove_status_events non_existent = none
trove_status_events open_trove = some trove_opened
trove_status_events closed_by_owner = some trove_closed
trove_status_events closed_by_liquidation = some trove_liquidated
trove_status_events closed_by_redemption = some trove_redeemed

-- `getInitialView`
unfoldable pub get_initial_view : UserTroveStatus → TroveView
get_initial_view closed_by_liquidation = liquidated_view
get_initial_view closed_by_redemption = redeemed_view
get_initial_view open_trove = active_view
get_initial_view _ = none_view

abbrev pub dispatch_if : Option TroveEvent → TroveView → TroveView
dispatch_if none view = view
dispatch_if (some event) view = transition view event

-- The effect that runs when the status has changed.
unfoldable pub on_status : UserTroveStatus → TroveView → TroveView
unfolding trove_status_events transition
on_status status view = dispatch_if (trove_status_events status) view

-- `StabilityView`, `StabilityEvent`
pub data StabilityView : Type 0 where
  no_deposit_view depositing_view deposit_active_view deposit_adjusting_view : StabilityView

pub data StabilityEvent : Type 0 where
  deposit_pressed cancel_pressed deposit_confirmed rewards_claimed adjust_deposit_pressed
        deposit_emptied :
      StabilityEvent

-- The table of StabilityViewProvider.tsx, with `transition`.
unfoldable pub stability_transition : StabilityView → StabilityEvent → StabilityView
stability_transition no_deposit_view deposit_pressed = depositing_view
stability_transition depositing_view cancel_pressed = no_deposit_view
stability_transition depositing_view deposit_confirmed = deposit_active_view
stability_transition deposit_active_view rewards_claimed = deposit_active_view
stability_transition deposit_active_view adjust_deposit_pressed = deposit_adjusting_view
stability_transition deposit_active_view deposit_emptied = no_deposit_view
stability_transition deposit_adjusting_view cancel_pressed = deposit_active_view
stability_transition deposit_adjusting_view deposit_confirmed = deposit_active_view
stability_transition deposit_adjusting_view deposit_emptied = no_deposit_view
stability_transition view _ = view

unfoldable pub initial_stability_view : StabilityDeposit → StabilityView
unfolding is_empty
initial_stability_view d = if is_empty d then no_deposit_view else deposit_active_view
