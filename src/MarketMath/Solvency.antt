-- ===== src/MarketMath/Solvency.antt =====
-- A position above its maintenance margin can be closed (packages/market-math/src/liquidation.ts,
-- pnl.ts).
use pnlx.Base.{◌≡◌, false, arith}
use pnlx.Base.Int.{ℤ, pos, ◌+ℤ◌, ◌-ℤ◌, ◌≤ℤ◌, ◌<ℤ◌, -ℤ_parts}
use pnlx.Base.Int.Signs.{mul-nonneg, div-nonneg}
use pnlx.Base.Result.{ok}
use pnlx.MarketMath.Margin.{maintenance_margin, notional}
use pnlx.MarketMath.Pnl.{CloseSettlementInput, CloseSettlement, settle_close, unrealized_pnl}
use pnlx.MarketMath.Liquidation.{LiquidationInput, equity, is_liquidatable}
use pnlx.MarketMath.FeeSplit.{notional_nonneg}

pub maintenance_margin_nonneg :
    (size price rate : ℤ)
    → pos 0 ≤ℤ price
    → pos 0 ≤ℤ rate
    → pos 0 ≤ℤ maintenance_margin size price rate
unfolding maintenance_margin
maintenance_margin_nonneg size price rate hp hr =
    div-nonneg _ 1000000 (mul-nonneg (notional size price) rate (notional_nonneg size price hp) hr)

-- The close, in full and without a fee, of the position that a liquidation test looks at.
abbrev pub full_close : LiquidationInput → CloseSettlementInput
full_close i = record {
  side = i.side;
  close_size = i.size;
  entry_price = i.entry_price;
  mark_price = i.mark_price;
  margin = i.margin;
  funding_payment = i.funding_payment;
  fee = pos 0;
}

-- A position of positive size and with no negative margin, that is not liquidatable at a mark price
-- and maintenance rate that are not negative, can be closed in full without a fee: the settlement
-- does not throw, and pays out at least the maintenance margin.
pub settle_close_of_not-liquidatable :
    (i : LiquidationInput)
    → is_liquidatable i ≡ false
    → pos 0 <ℤ i.size
    → pos 0 ≤ℤ i.margin
    → pos 0 ≤ℤ i.mark_price
    → pos 0 ≤ℤ i.maintenance_rate
    → (s : CloseSettlement) × (settle_close (full_close i) ≡ ok s)
      × (maintenance_margin i.size i.mark_price i.maintenance_rate ≤ℤ s.new_margin)
unfolding is_liquidatable equity settle_close
settle_close_of_not-liquidatable i h hs hm hp hr =
    let pnl = unrealized_pnl i.side i.size i.entry_price i.mark_price in
    let left = i.margin +ℤ pnl -ℤ i.funding_payment in
    let floor = maintenance_margin_nonneg i.size i.mark_price i.maintenance_rate hp hr in
    (
      record { realized_pnl = pnl; new_margin = left -ℤ pos 0 },
      ground (arith, floor, -ℤ_parts left (pos 0)),
      ground (arith, -ℤ_parts left (pos 0)),
    )
