-- ===== src/Matcher/Risk.antt =====
-- The risk checks of a fill (server/src/workers/batch-matcher/risk-engine.ts).
use pnlx.Base.{not}
use pnlx.Base.Int.{ℤ, leb_ℤ}
use pnlx.Base.Result.{Result, ◌>>◌, throw_if}
use pnlx.Protocol.Markets.{MarketConfig}
use pnlx.MarketMath.Margin.{has_initial_margin, has_max_leverage, maintenance_margin}

pub record FillRiskInput : Type 0 where
  pub margin : ℤ
  pub market : MarketConfig
  pub price : ℤ
  pub size : ℤ

unfoldable pub assert_fill : FillRiskInput → Result (Unit {0})
assert_fill i = do
  throw_if (not (has_initial_margin i.size i.price i.margin i.market.initial_margin_rate))
      "insufficient initial margin"
  throw_if (not (has_max_leverage i.size i.price i.margin i.market.max_leverage))
      "max leverage exceeded"
  throw_if (leb_ℤ i.margin (maintenance_margin i.size i.price i.market.maintenance_margin_rate))
      "insufficient maintenance buffer"
