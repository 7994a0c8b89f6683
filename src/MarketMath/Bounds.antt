-- ===== src/MarketMath/Bounds.antt =====
-- Bounds: the funding delta stays within its limit (packages/market-math/src/funding.ts), and the
-- virtual pool never gains more than rounding allows (packages/market-math/src/vamm.ts).
use pnlx.Base.{◌*◌, ◌/◌, ◌≡◌, arith, some}
use pnlx.Base.Int.{
  ℤ, pos, negsuc, ◌+ℤ◌, ◌-ℤ◌, ◌*ℤ◌, ◌/ℤ◌, ◌≤ℤ◌, ◌<ℤ◌, negate, pos-mul, +ℤ_parts, -ℤ_parts, pos-add,
}
use pnlx.Base.{Option, none, false}
use pnlx.Base.Int.Signs.{mul-nonneg}
use pnlx.MarketMath.Margin.{rate_scale}
use pnlx.Base.Result.{ok}
use pnlx.MarketMath.Funding.{
  FundingIndexDeltaInput, negative_limit, clamp_funding, funding_index_delta,
}
use pnlx.MarketMath.Vamm.{VammState, invariant, after_trade, route_residual}

clamp_funding_bounds :
    (limit raw : ℤ)
    → pos 0 ≤ℤ limit
    → (negate limit ≤ℤ clamp_funding (some limit) raw) × (clamp_funding (some limit) raw ≤ℤ limit)
unfolding clamp_funding
clamp_funding_bounds limit raw h = ground (arith, -ℤ_parts (pos 0) limit)

clamp_funding-within :
    (m : Option ℤ) (limit raw : ℤ)
    → m ≡ some limit
    → negative_limit m ≡ false
    → (negate limit ≤ℤ clamp_funding m raw) × (clamp_funding m raw ≤ℤ limit)
clamp_funding-within none limit raw e h = cc
clamp_funding-within (some l) limit raw e h = ground (arith, clamp_funding_bounds l raw)

quotient_bounds :
    (k n : ℤ) → pos 0 ≤ℤ k → pos 0 <ℤ n → (n *ℤ (k /ℤ n) ≤ℤ k) × (k <ℤ n *ℤ (k /ℤ n) +ℤ n)
unfolding ◌/ℤ◌
quotient_bounds (pos k) (pos n) h p = rw (pos-mul n (k / n), pos-add (n * (k / n)) n) (omega arith)
quotient_bounds (pos k) (negsuc n) h p = absurd (omega arith)
quotient_bounds (negsuc k) n h p = absurd (omega arith)

-- Where a limit is given, a funding delta that is computed lies between minus the limit and the
-- limit, whatever the premium and the elapsed time.
pub funding_index_delta_bounds :
    (i : FundingIndexDeltaInput) (limit delta : ℤ)
    → i.max_funding_delta ≡ some limit
    → funding_index_delta i ≡ ok delta
    → (negate limit ≤ℤ delta) × (delta ≤ℤ limit)
unfolding funding_index_delta
funding_index_delta_bounds i limit delta e h = ground (
  arith,
  clamp_funding-within i.max_funding_delta limit
      ((i.mark_price *ℤ i.premium_rate *ℤ i.elapsed_ms) /ℤ (rate_scale *ℤ i.interval_ms)) e,
)

after_trade_product :
    (s t : VammState) (next_base : ℤ)
    → pos 0 <ℤ s.base_reserve
    → pos 0 ≤ℤ s.quote_reserve
    → after_trade s next_base ≡ ok t
    → (pos 0 <ℤ t.base_reserve)
      × (invariant t ≤ℤ invariant s)
      × (invariant s <ℤ invariant t +ℤ t.base_reserve)
unfolding after_trade invariant
after_trade_product s t next_base hb hq h = ground (
  arith,
  quotient_bounds (s.base_reserve *ℤ s.quote_reserve) next_base
      (mul-nonneg s.base_reserve s.quote_reserve (omega arith) hq),
)

-- A trade that the virtual pool takes leaves a positive base reserve, and the product of the
-- reserves does not grow and falls by less than the new base reserve.
pub route_residual_product :
    (s t : VammState) (d : ℤ)
    → pos 0 <ℤ s.base_reserve
    → pos 0 ≤ℤ s.quote_reserve
    → route_residual s d ≡ ok t
    → (pos 0 <ℤ t.base_reserve)
      × (invariant t ≤ℤ invariant s)
      × (invariant s <ℤ invariant t +ℤ t.base_reserve)
unfolding route_residual
route_residual_product s t d hb hq h = ground (
  arith,
  after_trade_product s t (s.base_reserve -ℤ d) hb hq,
  +ℤ_parts (invariant s) s.base_reserve,
)
