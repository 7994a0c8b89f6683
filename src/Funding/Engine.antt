-- ===== src/Funding/Engine.antt =====
-- A funding cycle over the markets of the store, and a round of premium samples
-- (server/src/workers/funding-engine/funding-engine.service.ts). The time, the relay and the comparison
-- of texts in the locale are arguments.
use pnlx.Base.{
  ℕ, Bool, true, false, ◌&&◌, String, List, [], ◌∷◌, Option, none, some, map, or_else, filter_by,
  if◌then◌else◌,
}
use pnlx.Base.Int.{ℤ}
use pnlx.Base.Text.{◌===◌}
use pnlx.Base.Result.{Result, ok, err}
use pnlx.Base.Map
use pnlx.Protocol.Orders.{
  opened, partially_filled, filled, cancelled, OrderLifecycleRecord, PrivateMatchIntent,
}
use pnlx.Protocol.Markets.{MarketConfig, FundingPremiumSampleRecord}
use pnlx.Store.State.{Store}
use pnlx.Store.Monad.{Action, pure, gets, lift, map_each, ◌>>=◌, ◌>>◌}
use pnlx.Store.Markets.{add_funding_premium_samples}
use pnlx.Funding.Config.{
  FundingEngineConfig, RunFundingCycleInput, FundingPremiumSampleResult, FundingCycleResult,
  FundingRelay, default_sample_interval_ms, default_impact_margin, default_premium_rate_cap,
}
use pnlx.Funding.Premium.{sample_bucket, funding_premium_sample}
use pnlx.Funding.Cycle.{run_market}

-- One market, or all of them where no market is named.
unfoldable pub markets : Option String → Store → Result (List MarketConfig)
markets none s = ok (Map.values s.markets)
markets (some market_id) s =
    if market_id === "" then ok (Map.values s.markets) else elim (Map.get market_id s.markets) [
      | none ↦ err "unknown market"
      | some market ↦ ok (market ∷ [])
    ]

abbrev pub is_live : Option OrderLifecycleRecord → Bool
is_live none = false
is_live (some order) = elim order.status [
  | opened ↦ true
  | partially_filled ↦ true
  | filled ↦ false
  | cancelled ↦ false
]

unfoldable pub active_private_intents : String → Store → List PrivateMatchIntent
active_private_intents market_id s =
    filter_by
      (λ i. i.market_id === market_id && is_live (Map.get i.intent_commitment s.order_lifecycle))
      (Map.values s.private_match_intents)

-- The markets are read once; each is then funded on the store that the one before leaves.
unfoldable pub run_once :
    FundingEngineConfig → FundingRelay → ℕ → RunFundingCycleInput → Action FundingCycleResult
unfolding markets run_market
run_once config relay now input = do
  let applied_at = or_else input.applied_at now
  known ← gets (markets input.market_id)
  chosen ← lift known
  results ← map_each chosen (λ market. run_market config relay market applied_at input)
  pure (record { applied_at = applied_at; results = results })

unfoldable pub store_samples : List FundingPremiumSampleRecord → Action (Unit {0})
store_samples [] = pure tt
store_samples (r ∷ rs) = add_funding_premium_samples (r ∷ rs)

unfoldable pub sample_once :
    (String → String → ℤ)
    → FundingEngineConfig
    → ℕ
    → Option String
    → Option ℕ
    → Action (List FundingPremiumSampleResult)
unfolding markets active_private_intents store_samples
sample_once locale_compare config now market_id at = do
  sampled_at ← lift (
      sample_bucket (or_else at now) (or_else config.sample_interval_ms default_sample_interval_ms))
  known ← gets (markets market_id)
  chosen ← lift known
  records ← map_each chosen (λ market. do
    intents ← gets (active_private_intents market.market_id)
    lift (
        funding_premium_sample locale_compare market intents sampled_at
          (or_else config.impact_margin default_impact_margin)
          (or_else config.premium_rate_cap default_premium_rate_cap)))
  store_samples records
  pure (map (λ r. record { sample = r }) records)
