-- ===== src/Funding/Examples.antt =====
-- The funding engine at concrete inputs
-- (server/src/workers/funding-engine/funding-engine.service.ts).
use pnlx.Base.{◌≡◌, ◌⊎◌, refl, arith, Bool, true, false, String, List, [], ◌∷◌, Option, none, some}
use pnlx.Base.Int.{ℤ, pos, negsuc, ◌≤ℤ◌, negate}
use pnlx.Base.Text.{◌===◌}
use pnlx.Base.Result.{ok}
use pnlx.Base.Map
use pnlx.Protocol.Orders.{PrivateMatchIntent}
use pnlx.Protocol.Markets.{
  MarketConfig, fixed, impact_twap, FundingUpdateRecord, FundingPremiumSampleRecord,
}
use pnlx.Store.State.{Store, new_store}
use pnlx.Funding.Config.{FundingEngineConfig, RunFundingCycleInput, FundingCycleMarketResult}
use pnlx.Funding.Impact.{bid, ask, impact_execution_price}
use pnlx.Funding.Premium.{funding_premium_sample, FundingPremium, current_funding_premium}
use pnlx.Funding.Cycle.{run_market}
use pnlx.Funding.Bounds.{current_funding_premium_bounds, funding_premium_sample_bounds}
use pnlx.Funding.ImpactBounds.{impact_execution_price_bounds}
use pnlx.Funding.Cycles.{IsFunded, run_market-IsFunded}

abbrev config : FundingEngineConfig
config = record {
  impact_margin = none;
  interval_ms = 3600000;
  max_funding_delta = some (pos 1000000000);
  minimum_samples = some 1;
  premium_mode = some impact_twap;
  premium_rate = pos 0;
  premium_rate_cap = none;
  sample_interval_ms = none;
  settlements_onchain_required = false;
}

-- Equal strings keep their order.
abbrev same_order : String → String → ℤ
same_order s t = pos 0

abbrev market : MarketConfig
market = record {
  market_id = "eth";
  oracle_price = pos 100;
  max_leverage = pos 10;
  initial_margin_rate = pos 1000000;
  maintenance_margin_rate = pos 50000;
  funding_index = pos 7;
}

abbrev order : ℤ → ℤ → PrivateMatchIntent
order size price = record {
  batch_id = "b";
  intent_commitment = "0x1";
  limit_price = price;
  margin = pos 1;
  market_id = "eth";
  note_change_commitment = "0x1";
  note_nullifier = "0x1";
  owner_commitment = "0x1";
  signed_size = size;
  source_intent_commitment = none;
}

abbrev book : List PrivateMatchIntent
book = order (pos 100000000) (pos 120) ∷ order (pos 100000000) (pos 130) ∷ []

-- An impact notional of 200 takes all of the first bid and a part of the second.
abbrev sample : FundingPremiumSampleRecord
sample = record {
  impact_ask_price = none;
  impact_bid_price = some (pos 126);
  impact_notional = pos 200;
  index_price = pos 100;
  market_id = "eth";
  premium_rate = pos 5000;
  sampled_at = 3600000;
  source = "impact-orderbook";
}

sample-ok : funding_premium_sample same_order market book 3600000 (pos 200) (pos 5000) ≡ ok sample
unfolding funding_premium_sample impact_execution_price pnlx.Base.Int.◌/ℤ◌ pnlx.Base.Int.◌*ℤ◌
    pnlx.Funding.Premium.clamp_signed pnlx.Funding.Impact.impact_loop pnlx.Base.Int.◌-ℤ◌
    pnlx.Base.Sort.sort_by pnlx.Funding.Impact.compare_impact pnlx.Base.Int.◌+ℤ◌
sample-ok = refl

price-ok : impact_execution_price same_order book (pos 200) bid ≡ ok (some (pos 126))
unfolding impact_execution_price pnlx.Funding.Impact.impact_loop pnlx.Base.Sort.sort_by
    pnlx.Funding.Impact.compare_impact pnlx.Base.Int.◌/ℤ◌ pnlx.Base.Int.◌-ℤ◌ pnlx.Base.Int.◌+ℤ◌
    pnlx.Base.Int.◌*ℤ◌
price-ok = refl

premium-ok :
    current_funding_premium (sample ∷ []) config "eth" 3600001 none
    ≡ ok (record { rate = pos 5000; reason = none; sample_count = some 1; source = impact_twap })
unfolding current_funding_premium ◌===◌ pnlx.Base.Sort.sort_by pnlx.Base.Int.◌-ℤ◌
    pnlx.Funding.Premium.clamp_signed pnlx.Base.Int.◌/ℤ◌ pnlx.Base.Int.◌+ℤ◌
premium-ok = refl

current_funding_premium_bounds_example : (negate (pos 5000) ≤ℤ pos 5000) × (pos 5000 ≤ℤ pos 5000)
current_funding_premium_bounds_example =
    current_funding_premium_bounds (sample ∷ []) config "eth" 3600001 none
      (record { rate = pos 5000; reason = none; sample_count = some 1; source = impact_twap })
      (omega arith) premium-ok

funding_premium_sample_bounds_example : (negate (pos 5000) ≤ℤ pos 5000) × (pos 5000 ≤ℤ pos 5000)
funding_premium_sample_bounds_example =
    funding_premium_sample_bounds same_order market book 3600000 (pos 200) (pos 5000) sample
      sample-ok

impact_execution_price_bounds_example : (pos 120 ≤ℤ pos 126) × (pos 126 ≤ℤ pos 130)
impact_execution_price_bounds_example =
    impact_execution_price_bounds 120 130 same_order book (pos 200) (pos 126) bid
      ((omega arith, omega arith), ((omega arith, omega arith), tt)) price-ok

abbrev cycle : RunFundingCycleInput
cycle = record {
  applied_at = some 3600001;
  elapsed_ms = none;
  market_id = none;
  max_funding_delta = none;
  premium_rate = some (pos 1000000);
}

abbrev priced : MarketConfig
priced = record market { oracle_price = pos 1000000 }

-- The rate is capped, and the delta is its share of the price.
abbrev update : FundingUpdateRecord
update = record {
  applied_at = 3600001;
  funding_delta = pos 5000;
  market_id = "eth";
  new_funding_index = pos 5007;
  old_funding_index = pos 7;
  premium_rate = some (pos 5000);
  premium_sample_count = none;
  premium_source = some fixed;
}

abbrev funded : FundingCycleMarketResult
funded = record {
  elapsed_ms = pos 3600000;
  market_id = "eth";
  reason = none;
  skipped = false;
  update = some update;
}

abbrev before : Store
before = record new_store { markets = ("eth", priced) ∷ [] }

abbrev later : Store
later = record before {
  markets = ("eth", record priced { funding_index = pos 5007 }) ∷ [];
  funding_updates = ("eth:3600001:5007", update) ∷ [];
}

funded-ok : run_market config none priced 3600001 cycle before ≡ (ok funded, later)
unfolding run_market pnlx.Base.Sort.sort_by current_funding_premium
    pnlx.Funding.Premium.clamp_signed pnlx.MarketMath.Funding.funding_index_delta
    pnlx.MarketMath.Funding.clamp_funding pnlx.Base.Int.◌/ℤ◌ pnlx.Base.Int.◌*ℤ◌
    pnlx.Store.Markets.update_market Map.get ◌===◌ pnlx.Store.Markets.add_funding_update
    pnlx.Base.Int.◌+ℤ◌ Map.set pnlx.Store.Markets.funding_update_key pnlx.Base.Text.decimal
    pnlx.Base.Text.decimal_ℤ pnlx.Base.Int.◌-ℤ◌
funded-ok = refl

run_market-IsFunded_example : IsFunded config none priced 3600001 cycle before funded later
run_market-IsFunded_example =
    run_market-IsFunded config none priced 3600001 cycle before later funded funded-ok
