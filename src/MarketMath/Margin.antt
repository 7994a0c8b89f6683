-- ===== src/MarketMath/Margin.antt =====
-- Notional value and margin requirements (packages/market-math/src/margin.ts, constants.ts).
use pnlx.Base.{Bool, false, ◌||◌, if◌then◌else◌}
use pnlx.Base.Int.{ℤ, pos, ◌*ℤ◌, ◌/ℤ◌, negate, ltb_ℤ, leb_ℤ}

abbrev pub price_scale : ℤ
price_scale = pos 100000000

abbrev pub rate_scale : ℤ
rate_scale = pos 1000000

unfoldable pub abs : ℤ → ℤ
abs value = if ltb_ℤ value (pos 0) then negate value else value

unfoldable pub notional : ℤ → ℤ → ℤ
notional size price = (abs size *ℤ price) /ℤ price_scale

unfoldable pub initial_margin : ℤ → ℤ → ℤ → ℤ
initial_margin size price rate = (notional size price *ℤ rate) /ℤ rate_scale

unfoldable pub maintenance_margin : ℤ → ℤ → ℤ → ℤ
maintenance_margin size price rate = (notional size price *ℤ rate) /ℤ rate_scale

unfoldable pub has_initial_margin : ℤ → ℤ → ℤ → ℤ → Bool
has_initial_margin size price margin initial_rate =
    leb_ℤ (initial_margin size price initial_rate) margin

unfoldable pub has_max_leverage : ℤ → ℤ → ℤ → ℤ → Bool
has_max_leverage size price margin max_leverage =
    if leb_ℤ margin (pos 0) || leb_ℤ max_leverage (pos 0)
    then false
    else leb_ℤ (notional size price) (margin *ℤ max_leverage)
