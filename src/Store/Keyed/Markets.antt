-- ===== src/Store/Keyed/Markets.antt =====
-- The calls on markets, funding and runs store no key or member twice
-- (server/src/shared/state/store.ts).
use pnlx.Base.{List, [], ◌∷◌, arith}
use pnlx.Base.Map
use pnlx.Base.Map.{Map}
use pnlx.Base.Entries.{Distinct}
use pnlx.Base.Text.{Hex}
use pnlx.Protocol.Orders.{OrderLifecycleRecord}
use pnlx.Protocol.Positions.{LiquidationAutomationJobRecord}
use pnlx.Protocol.Markets.{
  MarketConfig, FundingUpdateRecord, FundingPremiumSampleRecord, BatchExecutionRunRecord,
}
use pnlx.Store.Markets.{
  add_market, update_market, add_funding_update, add_funding_premium_samples,
  add_liquidation_automation_job, update_liquidation_automation_job, add_batch_execution_run,
  upsert_batch_execution_run, associate_batch_execution_run, associate_runs, assign_run,
  trim_batch_execution_runs, trim_funding_premium_samples, put_samples, funding_premium_sample_key,
}
use pnlx.Store.Keyed.{KeepsKeyed, set-Distinct, add-Distinct, filter-Distinct}

put_samples-Distinct :
    (rs : List FundingPremiumSampleRecord) (m : Map FundingPremiumSampleRecord)
    → Distinct (Map.keys m)
    → Distinct (Map.keys (put_samples rs m))
unfolding put_samples
put_samples-Distinct [] m d = d
put_samples-Distinct (r ∷ rs) m d =
    put_samples-Distinct rs (Map.set (funding_premium_sample_key r) r m)
      (set-Distinct (funding_premium_sample_key r) r m d)

trim_samples-Distinct :
    (m : Map FundingPremiumSampleRecord)
    → Distinct (Map.keys m)
    → Distinct (Map.keys (trim_funding_premium_samples m))
unfolding trim_funding_premium_samples
trim_samples-Distinct m d = filter-Distinct _ m d

trim_runs-Distinct :
    (m : Map BatchExecutionRunRecord)
    → Distinct (Map.keys m)
    → Distinct (Map.keys (trim_batch_execution_runs m))
unfolding trim_batch_execution_runs
trim_runs-Distinct [] d = tt
trim_runs-Distinct ((k, r) ∷ m) d = ground (arith, d, trim_runs-Distinct m)

associate_runs-Distinct :
    (id : Hex) (cs : List Hex) (m : Map OrderLifecycleRecord)
    → Distinct (Map.keys m)
    → Distinct (Map.keys (associate_runs id cs m))
unfolding associate_runs
associate_runs-Distinct id [] m d = d
associate_runs-Distinct id (c ∷ cs) m d =
    associate_runs-Distinct id cs (assign_run id c (Map.get c m) m) (grind (arith, d, set-Distinct))

pub add_market-KeepsKeyed : (m : MarketConfig) → KeepsKeyed (add_market m)
unfolding add_market
add_market-KeepsKeyed m = record { kept = λ s k. grind (arith, k, set-Distinct, add-Distinct) }

pub update_market-KeepsKeyed : (m : MarketConfig) → KeepsKeyed (update_market m)
unfolding update_market
update_market-KeepsKeyed m = record { kept = λ s k. grind (arith, k, set-Distinct, add-Distinct) }

pub add_funding_update-KeepsKeyed : (r : FundingUpdateRecord) → KeepsKeyed (add_funding_update r)
unfolding add_funding_update
add_funding_update-KeepsKeyed r = record {
  kept = λ s k. grind (arith, k, set-Distinct, add-Distinct);
}

pub add_funding_premium_samples-KeepsKeyed :
    (rs : List FundingPremiumSampleRecord) → KeepsKeyed (add_funding_premium_samples rs)
unfolding add_funding_premium_samples
add_funding_premium_samples-KeepsKeyed rs = record {
  kept = λ s k. grind (arith, k, put_samples-Distinct, trim_samples-Distinct);
}

pub add_liquidation_automation_job-KeepsKeyed :
    (r : LiquidationAutomationJobRecord) → KeepsKeyed (add_liquidation_automation_job r)
unfolding add_liquidation_automation_job
add_liquidation_automation_job-KeepsKeyed r = record {
  kept = λ s k. grind (arith, k, set-Distinct, add-Distinct);
}

pub update_liquidation_automation_job-KeepsKeyed :
    (r : LiquidationAutomationJobRecord) → KeepsKeyed (update_liquidation_automation_job r)
unfolding update_liquidation_automation_job
update_liquidation_automation_job-KeepsKeyed r = record {
  kept = λ s k. grind (arith, k, set-Distinct, add-Distinct);
}

pub add_batch_execution_run-KeepsKeyed :
    (r : BatchExecutionRunRecord) (cs : List Hex) → KeepsKeyed (add_batch_execution_run r cs)
unfolding add_batch_execution_run associate_batch_execution_run
add_batch_execution_run-KeepsKeyed r cs = record {
  kept = λ s k. grind (arith, k, set-Distinct, associate_runs-Distinct, trim_runs-Distinct);
}

pub upsert_batch_execution_run-KeepsKeyed :
    (r : BatchExecutionRunRecord) (cs : List Hex) → KeepsKeyed (upsert_batch_execution_run r cs)
unfolding upsert_batch_execution_run associate_batch_execution_run
upsert_batch_execution_run-KeepsKeyed r cs = record {
  kept = λ s k. grind (arith, k, set-Distinct, associate_runs-Distinct, trim_runs-Distinct);
}
