-- ===== src/MarketMath/Pnl.antt =====
-- Profit and loss, and the settlement of a close (packages/market-math/src/pnl.ts).
use pnlx.Base.Int.{ℤ, pos, ◌+ℤ◌, ◌-ℤ◌, ◌*ℤ◌, ◌/ℤ◌, ltb_ℤ, leb_ℤ}
use pnlx.Base.Result.{Result, ok, ◌>>◌, throw_if}
use pnlx.Protocol.Orders.{Side, long, short}
use pnlx.MarketMath.Margin.{price_scale}

unfoldable pub price_delta : Side → ℤ → ℤ → ℤ
price_delta long entry_price mark_price = mark_price -ℤ entry_price
price_delta short entry_price mark_price = entry_price -ℤ mark_price

unfoldable pub unrealized_pnl : Side → ℤ → ℤ → ℤ → ℤ
unrealized_pnl side size entry_price mark_price =
    (size *ℤ price_delta side entry_price mark_price) /ℤ price_scale

pub record CloseSettlementInput : Type 0 where
  pub side : Side
  pub close_size : ℤ
  pub entry_price : ℤ
  pub mark_price : ℤ
  pub margin : ℤ
  pub funding_payment : ℤ
  pub fee : ℤ

pub record CloseSettlement : Type 0 where
  pub realized_pnl : ℤ
  pub new_margin : ℤ

unfoldable pub settle_close : CloseSettlementInput → Result CloseSettlement
settle_close input = do
  throw_if (leb_ℤ input.close_size (pos 0)) "close size must be positive"
  throw_if (ltb_ℤ input.margin (pos 0)) "margin cannot be negative"
  throw_if (ltb_ℤ input.fee (pos 0)) "fee cannot be negative"
  let realized_pnl = unrealized_pnl input.side input.close_size input.entry_price input.mark_price
  let new_margin = input.margin +ℤ realized_pnl -ℤ input.funding_payment -ℤ input.fee
  throw_if (ltb_ℤ new_margin (pos 0)) "close settlement is insolvent"
  ok (record { realized_pnl = realized_pnl; new_margin = new_margin })
