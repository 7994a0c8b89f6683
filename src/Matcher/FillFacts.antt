-- ===== src/Matcher/FillFacts.antt =====
-- What is known of a fill that was made (server/src/workers/batch-matcher/risk-engine.ts and
-- batch-matcher.service.ts).
use pnlx.Base.{ℕ, ◌≡◌, arith}
use pnlx.Base.Int.{ℤ, pos, ◌+ℤ◌, ◌*ℤ◌, ◌≤ℤ◌, ◌<ℤ◌}
use pnlx.Base.Result.{ok}
use pnlx.Crypto.Primitives.{Primitives}
use pnlx.Protocol.Markets.{MarketConfig}
use pnlx.Protocol.Settlements.{Fill}
use pnlx.MarketMath.Margin.{
  initial_margin, maintenance_margin, notional, has_initial_margin, has_max_leverage,
}
use pnlx.Matcher.Model.{MatchInput}
use pnlx.Matcher.Risk.{FillRiskInput, assert_fill}
use pnlx.Matcher.Book.{BookOrder}
use pnlx.Matcher.Fills.{create_fill, allocate_margin}

-- The margin covers the requirements of the market.
pub record IsMargined (market : MarketConfig) (size price margin : ℤ) : Type 0 where
  pub initial : initial_margin size price market.initial_margin_rate ≤ℤ margin
  pub leverage : notional size price ≤ℤ margin *ℤ market.max_leverage
  pub positive : pos 0 <ℤ margin
  pub maintenance : maintenance_margin size price market.maintenance_margin_rate <ℤ margin

pub assert_fill-IsMargined :
    (i : FillRiskInput) → assert_fill i ≡ ok tt → IsMargined i.market i.size i.price i.margin
unfolding assert_fill has_initial_margin has_max_leverage
assert_fill-IsMargined i h = ground arith

module _ (p : Primitives) (input : MatchInput) where
  pub record IsFillOf (order : BookOrder) (size price delta : ℤ) (part : Fill × BookOrder)
      : Type 0 where
    pub size_eq : part.0.size ≡ size
    pub side_eq : part.0.side ≡ order.side
    pub price_eq : part.0.price ≡ price
    pub intent_eq : part.0.intent_commitment ≡ order.intent.intent_commitment
    pub margin_eq : part.0.margin ≡ (allocate_margin order size).0 +ℤ delta
    pub left_eq : part.1 ≡ (allocate_margin order size).1
    pub margined : IsMargined input.market size price part.0.margin

  pub create_fill-IsFillOf :
      (order : BookOrder) (size price : ℤ) (index : ℕ) (delta : ℤ) {part : Fill × BookOrder}
      → create_fill p input order size price index delta ≡ ok part
      → IsFillOf order size price delta part
  unfolding create_fill
  create_fill-IsFillOf order size price index delta {part} h =
      let i : FillRiskInput = record {
        margin = (allocate_margin order size).0 +ℤ delta;
        market = input.market;
        price = price;
        size = size;
      } in
      let checked : assert_fill i ≡ ok tt = ground arith in
      let margin : part.0.margin ≡ (allocate_margin order size).0 +ℤ delta = ground arith in
      record {
        size_eq = ground arith;
        side_eq = ground arith;
        price_eq = ground arith;
        intent_eq = ground arith;
        margin_eq = margin;
        left_eq = ground arith;
        margined = rw margin (assert_fill-IsMargined i checked);
      }
