-- ===== src/Constants.antt =====
-- packages/lib-base/src/constants.ts
use liquity.Common.{◌*◌, ◌^◌}
use liquity.Decimal.{Decimal, add}

-- 1.5
abbrev pub critical_collateral_ratio : Decimal
critical_collateral_ratio = 15 * 10 ^ 17

-- 1.1
abbrev pub minimum_collateral_ratio : Decimal
minimum_collateral_ratio = 11 * 10 ^ 17

-- 0.1
abbrev pub lusd_liquidation_reserve : Decimal
lusd_liquidation_reserve = 10 ^ 17

-- 5
abbrev pub lusd_minimum_net_debt : Decimal
lusd_minimum_net_debt = 5 * 10 ^ 18

unfoldable pub lusd_minimum_debt : Decimal
unfolding add
lusd_minimum_debt = add lusd_liquidation_reserve lusd_minimum_net_debt

-- 0.005
abbrev pub minimum_borrowing_rate : Decimal
minimum_borrowing_rate = 5 * 10 ^ 15

-- 0.05
abbrev pub maximum_borrowing_rate : Decimal
maximum_borrowing_rate = 5 * 10 ^ 16

-- 0.005
abbrev pub minimum_redemption_rate : Decimal
minimum_redemption_rate = 5 * 10 ^ 15
