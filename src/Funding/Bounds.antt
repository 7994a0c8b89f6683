-- ===== src/Funding/Bounds.antt =====
-- The premium stays within its cap, and the impact price within the limit prices of the book
-- (server/src/workers/funding-engine/funding-engine.service.ts).
use pnlx.Base.{length, ◌≡◌, Option, ℕ, List, String, or_else, arith}
use pnlx.Base.Int.{ℤ, pos, ◌/ℤ◌, ◌≤ℤ◌, ◌<ℤ◌, negate, -ℤ_parts}
use pnlx.Base.Result.{ok}
use pnlx.Protocol.Orders.{PrivateMatchIntent}
use pnlx.Protocol.Markets.{MarketConfig, FundingPremiumSampleRecord}
use pnlx.Funding.Config.{FundingEngineConfig, default_premium_rate_cap}
use pnlx.Funding.Premium.{
  clamp_signed, sum_rates, samples_within, funding_premium_sample, FundingPremium, twap_premium,
  fixed_premium, current_funding_premium,
}

clamp_signed_bounds :
    (value cap rate : ℤ) → clamp_signed value cap ≡ ok rate → (negate cap ≤ℤ rate) × (rate ≤ℤ cap)
unfolding clamp_signed
clamp_signed_bounds value cap rate h = ground (arith, -ℤ_parts (pos 0) cap)

abbrev pub cap_of : FundingEngineConfig → ℤ
cap_of config = or_else config.premium_rate_cap default_premium_rate_cap

twap_premium_bounds :
    (config : FundingEngineConfig) (samples : List FundingPremiumSampleRecord) (p : FundingPremium)
    → pos 0 <ℤ cap_of config
    → twap_premium config samples ≡ ok p
    → (negate (cap_of config) ≤ℤ p.rate) × (p.rate ≤ℤ cap_of config)
unfolding twap_premium
twap_premium_bounds config samples p c h = ground (
  arith,
  clamp_signed_bounds (sum_rates samples (pos 0) /ℤ pos (length samples)) (cap_of config) p.rate,
  -ℤ_parts (pos 0) (cap_of config),
)

fixed_premium_bounds :
    (config : FundingEngineConfig) (override : Option ℤ) (p : FundingPremium)
    → fixed_premium config override ≡ ok p
    → (negate (cap_of config) ≤ℤ p.rate) × (p.rate ≤ℤ cap_of config)
unfolding fixed_premium
fixed_premium_bounds config override p h =
    ground
      (arith, clamp_signed_bounds (or_else override config.premium_rate) (cap_of config) p.rate)

-- Where the premium cap of the configuration, or its default, is positive, the premium of a funding
-- cycle lies between minus the cap and the cap, whether it is fixed, overridden or an average of
-- samples.
pub current_funding_premium_bounds :
    (records : List FundingPremiumSampleRecord) (config : FundingEngineConfig) (market_id : String)
    (applied_at : ℕ) (override : Option ℤ) (p : FundingPremium)
    → pos 0 <ℤ cap_of config
    → current_funding_premium records config market_id applied_at override ≡ ok p
    → (negate (cap_of config) ≤ℤ p.rate) × (p.rate ≤ℤ cap_of config)
unfolding current_funding_premium
current_funding_premium_bounds records config market_id applied_at override p c h = ground (
  arith,
  twap_premium_bounds config (samples_within records config.interval_ms market_id applied_at) p c,
  fixed_premium_bounds config override p,
)

-- A premium sample that is taken lies between minus the cap and the cap, whatever the book holds.
pub funding_premium_sample_bounds :
    (locale_compare : String → String → ℤ) (market : MarketConfig)
    (intents : List PrivateMatchIntent) (sampled_at : ℕ) (margin limit : ℤ)
    (r : FundingPremiumSampleRecord)
    → funding_premium_sample locale_compare market intents sampled_at margin limit ≡ ok r
    → (negate limit ≤ℤ r.premium_rate) × (r.premium_rate ≤ℤ limit)
unfolding funding_premium_sample
funding_premium_sample_bounds locale_compare market intents sampled_at margin limit r h =
    grind (arith, clamp_signed_bounds)
