-- ===== src/MarketMath/Examples.antt =====
-- The theorems on packages/market-math/src at concrete amounts.
use pnlx.Base.{ℕ, ◌≡◌, refl, Option, some}
use pnlx.Base.Int.{ℤ, pos, negsuc, ◌+ℤ◌, ◌-ℤ◌, ◌≤ℤ◌, ◌<ℤ◌, negate, pos-mul, int_laws}
use pnlx.Base.Result.{ok}
use pnlx.Base.{arith, true, false}
use pnlx.Protocol.Orders.{long, short}
use pnlx.MarketMath.Margin.{notional, maintenance_margin}
use pnlx.MarketMath.Fees.{FillFees, fill_fees}
use pnlx.MarketMath.Pnl.{unrealized_pnl, CloseSettlementInput, CloseSettlement, settle_close}
use pnlx.MarketMath.Funding.{FundingIndexDeltaInput, funding_payment, funding_index_delta}
use pnlx.MarketMath.Liquidation.{LiquidationInput, is_liquidatable}
use pnlx.MarketMath.Vamm.{VammState, invariant, route_residual}
use pnlx.MarketMath.FeeSplit.{IsSplit, fill_fees-IsSplit}
use pnlx.MarketMath.ZeroSum.{
  unrealized_pnl_opposite, funding_payment_opposite, paired_close_conserves,
}
use pnlx.MarketMath.Bounds.{funding_index_delta_bounds, route_residual_product}
use pnlx.MarketMath.Solvency.{full_close, settle_close_of_not-liquidatable}

fill_fees-IsSplit_example :
    (f : FillFees) × (fill_fees (pos 100000000) (pos 5000000) ≡ ok f)
    × IsSplit (notional (pos 100000000) (pos 5000000)) f
fill_fees-IsSplit_example =
    fill_fees-IsSplit (pos 100000000) (pos 5000000) (omega arith) (omega arith)

unrealized_pnl_opposite_example :
    unrealized_pnl short (pos 150000000) (pos 7) (pos 4)
    ≡ negate (unrealized_pnl long (pos 150000000) (pos 7) (pos 4))
unrealized_pnl_opposite_example = unrealized_pnl_opposite (pos 150000000) (pos 7) (pos 4)

funding_payment_opposite_example :
    funding_payment (negate (pos 150000000)) (pos 9) (pos 2)
    ≡ negate (funding_payment (pos 150000000) (pos 9) (pos 2))
funding_payment_opposite_example = funding_payment_opposite (pos 150000000) (pos 9) (pos 2)

abbrev closed_long : CloseSettlementInput
closed_long = record {
  side = long;
  close_size = pos 200000000;
  entry_price = pos 1000;
  mark_price = pos 1300;
  margin = pos 5000;
  funding_payment = pos 40;
  fee = pos 10;
}

abbrev closed_short : CloseSettlementInput
closed_short = record {
  side = short;
  close_size = pos 200000000;
  entry_price = pos 1000;
  mark_price = pos 1300;
  margin = pos 4000;
  funding_payment = negsuc 39;
  fee = pos 5;
}

abbrev long_settlement : CloseSettlement
long_settlement = record { realized_pnl = pos 600; new_margin = pos 5550 }

abbrev short_settlement : CloseSettlement
short_settlement = record { realized_pnl = negsuc 599; new_margin = pos 3435 }

closed_long-ok : settle_close closed_long ≡ ok long_settlement
unfolding settle_close unrealized_pnl ◌-ℤ◌ ◌+ℤ◌ pnlx.Base.Int.◌/ℤ◌ pnlx.Base.Int.◌*ℤ◌
    pnlx.MarketMath.Pnl.price_delta
closed_long-ok = refl

closed_short-ok : settle_close closed_short ≡ ok short_settlement
unfolding settle_close unrealized_pnl ◌-ℤ◌ ◌+ℤ◌ pnlx.Base.Int.◌/ℤ◌ pnlx.Base.Int.◌*ℤ◌
    pnlx.MarketMath.Pnl.price_delta
closed_short-ok = refl

funding-opposite : negsuc 39 ≡ negate (pos 40)
unfolding ◌-ℤ◌
funding-opposite = refl

paired_close_conserves_example : pos 5550 +ℤ pos 3435 +ℤ pos 10 +ℤ pos 5 ≡ pos 5000 +ℤ pos 4000
paired_close_conserves_example =
    paired_close_conserves closed_long closed_short long_settlement short_settlement refl refl refl
      refl refl funding-opposite closed_long-ok closed_short-ok

abbrev open_position : LiquidationInput
open_position = record {
  side = long;
  size = pos 100000000;
  entry_price = pos 1000;
  mark_price = pos 950;
  margin = pos 200;
  funding_payment = pos 3;
  maintenance_rate = pos 50000;
}

open_position-healthy : is_liquidatable open_position ≡ false
unfolding is_liquidatable pnlx.MarketMath.Liquidation.equity ◌-ℤ◌ ◌+ℤ◌ unrealized_pnl
    pnlx.Base.Int.◌/ℤ◌ pnlx.Base.Int.◌*ℤ◌ pnlx.MarketMath.Pnl.price_delta maintenance_margin
    notional pnlx.MarketMath.Margin.abs
open_position-healthy = refl

settle_close_of_not-liquidatable_example :
    (s : CloseSettlement) × (settle_close (full_close open_position) ≡ ok s)
    × (maintenance_margin (pos 100000000) (pos 950) (pos 50000) ≤ℤ s.new_margin)
settle_close_of_not-liquidatable_example =
    settle_close_of_not-liquidatable open_position open_position-healthy (omega arith) (omega arith)
      (omega arith) (omega arith)

abbrev steep_premium : FundingIndexDeltaInput
steep_premium = record {
  elapsed_ms = pos 1000;
  interval_ms = pos 1000;
  mark_price = pos 100000000;
  max_funding_delta = some (pos 500);
  premium_rate = pos 900000;
}

steep_premium-ok : funding_index_delta steep_premium ≡ ok (pos 500)
unfolding funding_index_delta pnlx.MarketMath.Funding.clamp_funding pnlx.Base.Int.◌/ℤ◌
    pnlx.Base.Int.◌*ℤ◌
steep_premium-ok = refl

funding_index_delta_bounds_example : (negate (pos 500) ≤ℤ pos 500) × (pos 500 ≤ℤ pos 500)
funding_index_delta_bounds_example =
    funding_index_delta_bounds steep_premium (pos 500) (pos 500) refl steep_premium-ok

abbrev pool : VammState
pool = record { base_reserve = pos 1000; quote_reserve = pos 5000 }

abbrev traded_pool : VammState
traded_pool = record { base_reserve = pos 700; quote_reserve = pos 7142 }

traded_pool-ok : route_residual pool (pos 300) ≡ ok traded_pool
unfolding route_residual ◌-ℤ◌ pnlx.Base.Int.◌/ℤ◌ pnlx.Base.Int.◌*ℤ◌
traded_pool-ok = refl

route_residual_product_example :
    (pos 0 <ℤ pos 700)
    × (invariant traded_pool ≤ℤ invariant pool)
    × (invariant pool <ℤ invariant traded_pool +ℤ pos 700)
route_residual_product_example =
    route_residual_product pool traded_pool (pos 300) (omega arith) (omega arith) traded_pool-ok
