-- ===== src/MarketMath/Liquidation.antt =====
-- Equity and the liquidation test (packages/market-math/src/liquidation.ts).
use pnlx.Base.{Bool}
use pnlx.Base.Int.{ℤ, ◌+ℤ◌, ◌-ℤ◌, ltb_ℤ}
use pnlx.Protocol.Orders.{Side}
use pnlx.MarketMath.Margin.{maintenance_margin}
use pnlx.MarketMath.Pnl.{unrealized_pnl}

unfoldable pub equity : Side → ℤ → ℤ → ℤ → ℤ → ℤ → ℤ
equity side size entry_price mark_price margin funding_payment =
    margin +ℤ unrealized_pnl side size entry_price mark_price -ℤ funding_payment

pub record LiquidationInput : Type 0 where
  pub side : Side
  pub size : ℤ
  pub entry_price : ℤ
  pub mark_price : ℤ
  pub margin : ℤ
  pub funding_payment : ℤ
  pub maintenance_rate : ℤ

unfoldable pub is_liquidatable : LiquidationInput → Bool
is_liquidatable input =
    ltb_ℤ
      (equity input.side input.size input.entry_price input.mark_price input.margin
        input.funding_payment)
      (maintenance_margin input.size input.mark_price input.maintenance_rate)
