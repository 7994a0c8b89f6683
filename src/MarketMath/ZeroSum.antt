-- ===== src/MarketMath/ZeroSum.antt =====
-- What one side of a position wins the other loses (packages/market-math/src/pnl.ts, funding.ts).
use pnlx.Base.{◌≡◌, arith}
use pnlx.Base.Int.{ℤ, pos, ◌+ℤ◌, ◌-ℤ◌, ◌*ℤ◌, ◌≤ℤ◌, negate, int_laws}
use pnlx.Base.Int.Signs.{mul-negate, negate-mul, div-negate, negate-sub}
use pnlx.Base.Result.{ok}
use pnlx.Protocol.Orders.{long, short}
use pnlx.MarketMath.Pnl.{
  unrealized_pnl, price_delta, CloseSettlementInput, CloseSettlement, settle_close,
}
use pnlx.MarketMath.Funding.{funding_payment}

-- The short side's profit is the long side's loss, to the last unit of rounding.
pub unrealized_pnl_opposite :
    (size entry mark : ℤ)
    → unrealized_pnl short size entry mark ≡ negate (unrealized_pnl long size entry mark)
unfolding unrealized_pnl price_delta
unrealized_pnl_opposite size entry mark =
    rw (negate-sub mark entry, mul-negate size (mark -ℤ entry))
      (div-negate (size *ℤ (mark -ℤ entry)) 100000000)

-- The funding payment of the opposite position is the opposite payment, to the last unit of rounding.
pub funding_payment_opposite :
    (size current last : ℤ)
    → funding_payment (negate size) current last ≡ negate (funding_payment size current last)
unfolding funding_payment
funding_payment_opposite size current last =
    rw (negate-mul size (current -ℤ last)) (div-negate (size *ℤ (current -ℤ last)) 100000000)

-- A settlement that returns has moved the margin by profit, funding and fee.
pub settle_close-new_margin :
    (i : CloseSettlementInput) (s : CloseSettlement)
    → settle_close i ≡ ok s
    → (s.new_margin
        ≡ i.margin
          +ℤ unrealized_pnl i.side i.close_size i.entry_price i.mark_price
          -ℤ i.funding_payment
          -ℤ i.fee)
      × (pos 0 ≤ℤ s.new_margin)
unfolding settle_close
settle_close-new_margin i s h = ground arith

-- Where a long and a short position of one size and one entry price are both closed at one mark
-- price, with opposite funding payments, their new margins add up to their old ones less the fees:
-- a paired close neither makes nor loses collateral.
pub paired_close_conserves :
    (l s : CloseSettlementInput) (a b : CloseSettlement)
    → l.side ≡ long
    → s.side ≡ short
    → s.close_size ≡ l.close_size
    → s.entry_price ≡ l.entry_price
    → s.mark_price ≡ l.mark_price
    → s.funding_payment ≡ negate l.funding_payment
    → settle_close l ≡ ok a
    → settle_close s ≡ ok b
    → a.new_margin +ℤ b.new_margin +ℤ l.fee +ℤ s.fee ≡ l.margin +ℤ s.margin
paired_close_conserves l s a b el es ez ee em ef ha hb =
    rw
      (
        (settle_close-new_margin l a ha).0,
        (settle_close-new_margin s b hb).0,
        ez,
        ee,
        em,
        ef,
        el,
        es,
        unrealized_pnl_opposite l.close_size l.entry_price l.mark_price,
      )
      (omega int_laws)
