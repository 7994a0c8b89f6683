-- ===== src/Funding/Cycle.antt =====
-- The funding of one market on the store
-- (server/src/workers/funding-engine/funding-engine.service.ts). The time and the relay are arguments;
-- the interval of a configuration is a whole number of milliseconds.
use pnlx.Base.{
  ℕ, true, false, String, List, [], ◌∷◌, Option, none, some, or_else, filter_by, if◌then◌else◌,
}
use pnlx.Base.Int.{ℤ, pos, ◌+ℤ◌, ◌-ℤ◌, leb_ℤ, ◌==ℤ◌}
use pnlx.Base.Text.{◌===◌, truthy?}
use pnlx.Base.Map
use pnlx.Base.Sort.{sort_by}
use pnlx.Protocol.Markets.{MarketConfig, FundingUpdateRecord}
use pnlx.MarketMath.Funding.{FundingIndexDeltaInput, funding_index_delta}
use pnlx.Store.State.{Store}
use pnlx.Store.Monad.{Action, pure, lift, raise_if, ◌>>=◌, ◌>>◌}
use pnlx.Store.Markets.{update_market, add_funding_update}
use pnlx.Funding.Config.{
  FundingEngineConfig, RunFundingCycleInput, FundingCycleMarketResult, FundingSettlementProofInput,
  FundingRelay, assert_submitted_relay,
}
use pnlx.Funding.Premium.{FundingPremium, current_funding_premium}

-- The time since the newest of the updates, or the whole interval where there is none.
abbrev pub since_first : ℕ → ℕ → List FundingUpdateRecord → ℤ
since_first interval_ms applied_at [] = pos interval_ms
since_first interval_ms applied_at (last ∷ older) = pos applied_at -ℤ pos last.applied_at

unfoldable pub elapsed_since_last_funding : FundingEngineConfig → String → ℕ → Store → ℤ
elapsed_since_last_funding config market_id applied_at s =
    since_first config.interval_ms applied_at (
      sort_by (λ a b. pos b.applied_at -ℤ pos a.applied_at)
        (filter_by (λ u. u.market_id === market_id) (Map.values s.funding_updates)))

unfoldable pub premium_for_market :
    FundingEngineConfig → String → ℕ → Option ℤ → Action FundingPremium
premium_for_market config market_id applied_at override s = (
  current_funding_premium (Map.values s.funding_premium_samples) config market_id applied_at
      override,
  s,
)

abbrev pub funding_record : MarketConfig → ℤ → ℕ → FundingPremium → FundingUpdateRecord
funding_record market delta applied_at premium = record {
  applied_at = applied_at;
  funding_delta = delta;
  market_id = market.market_id;
  new_funding_index = market.funding_index +ℤ delta;
  old_funding_index = market.funding_index;
  premium_rate = some premium.rate;
  premium_sample_count = premium.sample_count;
  premium_source = some premium.source;
}

unfoldable pub apply_funding : MarketConfig → ℤ → ℕ → FundingPremium → Action FundingUpdateRecord
apply_funding market delta applied_at premium = do
  raise_if (delta ==ℤ pos 0) "funding delta cannot be zero"
  let update = funding_record market delta applied_at premium
  update_market (record market { funding_index = update.new_funding_index })
  add_funding_update update
  pure update

-- `settlements_onchain_required` without a relay ends the cycle.
unfoldable pub settle_onchain :
    FundingEngineConfig → FundingRelay → FundingSettlementProofInput → Action (Unit {0})
settle_onchain config none input s =
    raise_if config.settlements_onchain_required "settlements require on-chain relay" s
settle_onchain config (some settle) input s =
    (do
      relays ← lift (settle input)
      (if config.settlements_onchain_required
          then lift (assert_submitted_relay relays "settle")
          else pure tt))
      s

abbrev pub skip : ℤ → String → String → FundingCycleMarketResult
skip elapsed_ms market_id reason = record {
  elapsed_ms = elapsed_ms;
  market_id = market_id;
  reason = some reason;
  skipped = true;
  update = none;
}

abbrev pub max_delta : FundingEngineConfig → RunFundingCycleInput → Option ℤ
max_delta config input = elim input.max_funding_delta [
  | none ↦ config.max_funding_delta
  | some limit ↦ some limit
]

abbrev pub proof_input :
    FundingEngineConfig
    → MarketConfig
    → ℕ
    → RunFundingCycleInput
    → ℤ
    → FundingPremium
    → ℤ
    → FundingSettlementProofInput
proof_input config market applied_at input elapsed premium delta = record {
  applied_at = applied_at;
  elapsed_ms = elapsed;
  interval_ms = config.interval_ms;
  mark_price = market.oracle_price;
  market_id = market.market_id;
  max_funding_delta = max_delta config input;
  new_funding_index = market.funding_index +ℤ delta;
  old_funding_index = market.funding_index;
  premium_rate = premium.rate;
}

-- A delta that is not zero is settled on the chain, where there is one, and then stored.
unfoldable pub charge_market :
    FundingEngineConfig
    → FundingRelay
    → MarketConfig
    → ℕ
    → RunFundingCycleInput
    → ℤ
    → FundingPremium
    → ℤ
    → Action FundingCycleMarketResult
unfolding settle_onchain apply_funding
charge_market config relay market applied_at input elapsed premium delta = do
  settle_onchain config relay (proof_input config market applied_at input elapsed premium delta)
  update ← apply_funding market delta applied_at premium
  pure (record {
    elapsed_ms = elapsed;
    market_id = market.market_id;
    reason = none;
    skipped = false;
    update = some update;
  })

abbrev pub delta_input :
    FundingEngineConfig
    → MarketConfig
    → RunFundingCycleInput
    → ℤ
    → FundingPremium
    → FundingIndexDeltaInput
delta_input config market input elapsed premium = record {
  elapsed_ms = elapsed;
  interval_ms = pos config.interval_ms;
  mark_price = market.oracle_price;
  max_funding_delta = max_delta config input;
  premium_rate = premium.rate;
}

-- What a market's funding is once the premium is known.
unfoldable pub fund_market :
    FundingEngineConfig
    → FundingRelay
    → MarketConfig
    → ℕ
    → RunFundingCycleInput
    → ℤ
    → FundingPremium
    → Action FundingCycleMarketResult
unfolding charge_market
fund_market config relay market applied_at input elapsed premium = do
  delta ← lift (funding_index_delta (delta_input config market input elapsed premium))
  (if delta ==ℤ pos 0
      then pure (skip elapsed market.market_id "zero funding delta")
      else charge_market config relay market applied_at input elapsed premium delta)

-- A premium that gives a reason, and not an empty one, skips the market.
unfoldable pub fund_premium :
    FundingEngineConfig
    → FundingRelay
    → MarketConfig
    → ℕ
    → RunFundingCycleInput
    → ℤ
    → FundingPremium
    → Action FundingCycleMarketResult
unfolding fund_market
fund_premium config relay market applied_at input elapsed premium =
    if truthy? premium.reason
    then pure (skip elapsed market.market_id (or_else premium.reason ""))
    else fund_market config relay market applied_at input elapsed premium

unfoldable pub fund_elapsed :
    FundingEngineConfig
    → FundingRelay
    → MarketConfig
    → ℕ
    → RunFundingCycleInput
    → ℤ
    → Action FundingCycleMarketResult
unfolding premium_for_market fund_premium
fund_elapsed config relay market applied_at input elapsed =
    premium_for_market config market.market_id applied_at input.premium_rate
    >>= fund_premium config relay market applied_at input elapsed

unfoldable pub run_market :
    FundingEngineConfig
    → FundingRelay
    → MarketConfig
    → ℕ
    → RunFundingCycleInput
    → Action FundingCycleMarketResult
unfolding elapsed_since_last_funding fund_elapsed
run_market config relay market applied_at input s =
    let elapsed =
      or_else input.elapsed_ms (elapsed_since_last_funding config market.market_id applied_at s) in
    (if leb_ℤ elapsed (pos 0)
        then pure (skip elapsed market.market_id "no elapsed interval")
        else fund_elapsed config relay market applied_at input elapsed)
      s
