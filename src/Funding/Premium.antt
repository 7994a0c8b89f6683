-- ===== src/Funding/Premium.antt =====
-- Premium samples and the premium of a funding cycle
-- (server/src/workers/funding-engine/funding-engine.service.ts).
use pnlx.Base.{
  ℕ, ◌*◌, ◌/◌, ◌==◌, Bool, true, false, not, ◌||◌, ◌&&◌, String, List, [], ◌∷◌, Option, none, some,
  or_else, is_some, ltb, leb, length, filter_by, if◌then◌else◌,
}
use pnlx.Base.Int.{ℤ, pos, ◌+ℤ◌, ◌-ℤ◌, ◌*ℤ◌, ◌/ℤ◌, negate, ltb_ℤ, leb_ℤ, ◌==ℤ◌}
use pnlx.Base.Text.{◌===◌, ◌⧺◌, decimal}
use pnlx.Base.Result.{Result, ok, ◌>>=◌, ◌>>◌, throw_if}
use pnlx.Base.Sort.{sort_by}
use pnlx.Protocol.Orders.{PrivateMatchIntent}
use pnlx.Protocol.Markets.{
  MarketConfig, PremiumSource, fixed, impact_twap, FundingPremiumSampleRecord,
}
use pnlx.MarketMath.Margin.{rate_scale}
use pnlx.Funding.Config.{FundingEngineConfig, default_minimum_samples, default_premium_rate_cap}
use pnlx.Funding.Impact.{ask, bid, impact_execution_price}

unfoldable pub clamp_signed : ℤ → ℤ → Result ℤ
clamp_signed value cap = do
  throw_if (leb_ℤ cap (pos 0)) "funding premium cap must be positive"
  ok (if ltb_ℤ cap value then cap else if ltb_ℤ value (negate cap) then negate cap else value)

-- `Math.floor(sampledAt / intervalMs) * intervalMs`
unfoldable pub sample_bucket : ℕ → ℕ → Result ℕ
sample_bucket sampled_at interval_ms = do
  throw_if (interval_ms == 0) "funding sample interval must be positive"
  ok (sampled_at / interval_ms * interval_ms)

-- How far the bids stand above the oracle price, and the asks below; a price of zero is falsy.
unfoldable pub positive_premium : Option ℤ → ℤ → ℤ
positive_premium none oracle = pos 0
positive_premium (some price) oracle =
    if not (price ==ℤ pos 0) && ltb_ℤ oracle price
    then ((price -ℤ oracle) *ℤ rate_scale) /ℤ oracle
    else pos 0

unfoldable pub negative_premium : Option ℤ → ℤ → ℤ
negative_premium none oracle = pos 0
negative_premium (some price) oracle =
    if not (price ==ℤ pos 0) && ltb_ℤ price oracle
    then ((oracle -ℤ price) *ℤ rate_scale) /ℤ oracle
    else pos 0

unfoldable pub funding_premium_sample :
    (String → String → ℤ)
    → MarketConfig
    → List PrivateMatchIntent
    → ℕ
    → ℤ
    → ℤ
    → Result FundingPremiumSampleRecord
unfolding positive_premium negative_premium
funding_premium_sample locale_compare market intents sampled_at impact_margin premium_rate_cap = do
  throw_if (leb_ℤ market.oracle_price (pos 0)) "funding index price must be positive"
  throw_if (leb_ℤ market.initial_margin_rate (pos 0)) "funding initial margin rate must be positive"
  throw_if (leb_ℤ impact_margin (pos 0)) "funding impact margin must be positive"
  throw_if (leb_ℤ premium_rate_cap (pos 0)) "funding premium cap must be positive"
  let impact_notional = (impact_margin *ℤ rate_scale) /ℤ market.initial_margin_rate
  let bids = filter_by (λ i. ltb_ℤ (pos 0) i.signed_size) intents
  let asks = filter_by (λ i. ltb_ℤ i.signed_size (pos 0)) intents
  bid_price ← impact_execution_price locale_compare bids impact_notional bid
  ask_price ← impact_execution_price locale_compare asks impact_notional ask
  rate ←
      clamp_signed
        (positive_premium bid_price market.oracle_price
          -ℤ negative_premium ask_price market.oracle_price)
        premium_rate_cap
  ok (record {
    impact_ask_price = ask_price;
    impact_bid_price = bid_price;
    impact_notional = impact_notional;
    index_price = market.oracle_price;
    market_id = market.market_id;
    premium_rate = rate;
    sampled_at = sampled_at;
    source = "impact-orderbook";
  })

pub record FundingPremium : Type 0 where
  pub rate : ℤ
  pub reason : Option String
  pub sample_count : Option ℕ
  pub source : PremiumSource

abbrev pub is_fixed : PremiumSource → Bool
is_fixed fixed = true
is_fixed impact_twap = false

-- The samples of a market in the interval that ends at a time.
unfoldable pub samples_within :
    List FundingPremiumSampleRecord → ℕ → String → ℕ → List FundingPremiumSampleRecord
samples_within records interval_ms market_id applied_at =
    let cutoff = pos applied_at -ℤ pos interval_ms in
    sort_by (λ left right. pos left.sampled_at -ℤ pos right.sampled_at)
      (filter_by (λ r. ltb_ℤ cutoff (pos r.sampled_at) && leb r.sampled_at applied_at)
        (filter_by (λ r. r.market_id === market_id) records))

unfoldable pub sum_rates : List FundingPremiumSampleRecord → ℤ → ℤ
sum_rates [] sum = sum
sum_rates (r ∷ rs) sum = sum_rates rs (sum +ℤ r.premium_rate)

-- A division by zero throws, which needs a minimum of zero samples.
unfoldable pub twap_premium :
    FundingEngineConfig → List FundingPremiumSampleRecord → Result FundingPremium
unfolding sum_rates
twap_premium config samples = do
  let minimum = or_else config.minimum_samples default_minimum_samples
  let missing = ltb (length samples) minimum
  throw_if (not missing && length samples == 0) "Division by zero"
  rate ←
      (if missing
        then ok (pos 0)
        else clamp_signed (sum_rates samples (pos 0) /ℤ pos (length samples))
            (or_else config.premium_rate_cap default_premium_rate_cap))
  ok (record {
    rate = rate;
    reason =
        if missing
        then some
            ("insufficient premium samples: " ⧺ decimal (length samples) ⧺ "/" ⧺ decimal minimum)
        else none;
    sample_count = some (length samples);
    source = impact_twap;
  })

unfoldable pub fixed_premium : FundingEngineConfig → Option ℤ → Result FundingPremium
fixed_premium config override = do
  rate ←
      clamp_signed (or_else override config.premium_rate)
        (or_else config.premium_rate_cap default_premium_rate_cap)
  ok (record { rate = rate; reason = none; sample_count = none; source = fixed })

unfoldable pub current_funding_premium :
    List FundingPremiumSampleRecord
    → FundingEngineConfig
    → String
    → ℕ
    → Option ℤ
    → Result FundingPremium
unfolding samples_within twap_premium fixed_premium
current_funding_premium records config market_id applied_at override =
    if is_some override || is_fixed (or_else config.premium_mode fixed)
    then fixed_premium config override
    else twap_premium config (samples_within records config.interval_ms market_id applied_at)
