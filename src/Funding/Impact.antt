-- ===== src/Funding/Impact.antt =====
-- The average price at which a side of the private book fills the impact notional
-- (`impactExecutionPrice` of server/src/workers/funding-engine/funding-engine.service.ts).
use pnlx.Base.{Bool, ◌||◌, String, List, [], ◌∷◌, Option, none, some, if◌then◌else◌}
use pnlx.Base.Int.{ℤ, pos, negsuc, ◌+ℤ◌, ◌-ℤ◌, ◌*ℤ◌, ◌/ℤ◌, ltb_ℤ, leb_ℤ, ◌==ℤ◌}
use pnlx.Base.Result.{Result, ok, ◌>>◌, throw_if}
use pnlx.Base.Sort.{sort_by}
use pnlx.Protocol.Orders.{PrivateMatchIntent}
use pnlx.MarketMath.Margin.{abs, price_scale}

pub data BookSide : Type 0 where
  ask bid : BookSide

unfoldable pub ceil_div : ℤ → ℤ → ℤ
ceil_div value divisor = (value +ℤ divisor -ℤ pos 1) /ℤ divisor

-- What the loop has filled so far.
pub record ImpactFill : Type 0 where
  pub filled_notional : ℤ
  pub filled_size : ℤ
  pub price_size : ℤ

abbrev pub no_fill : ImpactFill
no_fill = record { filled_notional = pos 0; filled_size = pos 0; price_size = pos 0 }

-- An intent that has no size or no price is passed over.
unfoldable pub is_unusable : PrivateMatchIntent → Bool
unfolding abs
is_unusable intent = leb_ℤ (abs intent.signed_size) (pos 0) || leb_ℤ intent.limit_price (pos 0)

unfoldable pub take_size : ℤ → PrivateMatchIntent → ImpactFill → ℤ
unfolding abs ceil_div
take_size impact_notional intent t =
    let available = abs intent.signed_size in
    let requested =
      ceil_div ((impact_notional -ℤ t.filled_notional) *ℤ price_scale) intent.limit_price in
    if ltb_ℤ requested available then requested else available

unfoldable pub take_from : ℤ → PrivateMatchIntent → ImpactFill → ImpactFill
take_from size intent t = record {
  filled_notional = t.filled_notional +ℤ (size *ℤ intent.limit_price) /ℤ price_scale;
  filled_size = t.filled_size +ℤ size;
  price_size = t.price_size +ℤ size *ℤ intent.limit_price;
}

unfoldable pub impact_loop : ℤ → List PrivateMatchIntent → ImpactFill → ImpactFill
unfolding is_unusable take_size take_from
impact_loop impact_notional [] t = t
impact_loop impact_notional (intent ∷ intents) t =
    let size = take_size impact_notional intent t in
    let taken = take_from size intent t in
    let passed_over = impact_loop impact_notional intents t in
    let further = impact_loop impact_notional intents taken in
    if is_unusable intent || leb_ℤ size (pos 0)
    then passed_over
    else if leb_ℤ impact_notional taken.filled_notional
    then taken
    else further

-- The best price first; at one price the commitments' order in the locale, which is an argument.
abbrev pub compare_prices : BookSide → ℤ → ℤ → ℤ
compare_prices bid left right = if ltb_ℤ right left then negsuc 0 else pos 1
compare_prices ask left right = if ltb_ℤ left right then negsuc 0 else pos 1

unfoldable pub compare_impact :
    (String → String → ℤ) → BookSide → PrivateMatchIntent → PrivateMatchIntent → ℤ
compare_impact locale_compare side left right =
    if left.limit_price ==ℤ right.limit_price
    then locale_compare left.intent_commitment right.intent_commitment
    else compare_prices side left.limit_price right.limit_price

-- The average, if the notional was filled.
unfoldable pub average_price : ℤ → ImpactFill → Option ℤ
average_price impact_notional t =
    if ltb_ℤ t.filled_notional impact_notional || t.filled_size ==ℤ pos 0
    then none
    else some (t.price_size /ℤ t.filled_size)

unfoldable pub impact_execution_price :
    (String → String → ℤ) → List PrivateMatchIntent → ℤ → BookSide → Result (Option ℤ)
unfolding average_price
impact_execution_price locale_compare intents impact_notional side = do
  throw_if (leb_ℤ impact_notional (pos 0)) "impact notional must be positive"
  let ordered = sort_by (compare_impact locale_compare side) intents
  ok (average_price impact_notional (impact_loop impact_notional ordered no_fill))
