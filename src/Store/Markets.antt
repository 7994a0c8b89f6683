-- ===== src/Store/Markets.antt =====
-- Markets, funding records, automation jobs and the runs of the batch executor, with what is
-- retained of them (server/src/shared/state/store.ts).
use pnlx.Base.{
  ℕ, ◌+◌, Bool, true, false, not, ◌&&◌, ◌||◌, String, List, [], ◌∷◌, Option, none, some, ltb, leb,
  length, or_else, filter_by, if◌then◌else◌,
}
use mathlib.Core.List.{reverse}
use pnlx.Base.Int.{pos, ◌/ℤ◌}
use pnlx.Base.Text.{Hex, ◌⧺◌, truthy, same?, decimal, decimal_ℤ}
use pnlx.Base.Map
use pnlx.Base.Map.{Map}
use pnlx.Base.StringSet
use pnlx.Base.StringSet.{StringSet}
use pnlx.Protocol.Orders.{OrderStatus, OrderLifecycleRecord}
use pnlx.Protocol.Positions.{LiquidationAutomationJobRecord}
use pnlx.Protocol.Markets.{
  MarketConfig, FundingUpdateRecord, FundingPremiumSampleRecord, BatchExecutionRunRecord,
  BatchExecutionRunStatus, settled,
}
use pnlx.Store.State.{MarketSettlementVolumeRecord}
use pnlx.Store.Monad.{Action, gets, raise_if, modify, ◌>>=◌, ◌>>◌}

abbrev pub batch_execution_run_retention : ℕ
batch_execution_run_retention = 1000

abbrev pub funding_premium_sample_retention : ℕ
funding_premium_sample_retention = 120

unfoldable pub add_market : MarketConfig → Action (Unit {0})
add_market market = do
  known ← gets (λ s. Map.has market.market_id s.markets)
  raise_if known "market already exists"
  modify (λ s. record s { markets = Map.set market.market_id market s.markets })

unfoldable pub update_market : MarketConfig → Action (Unit {0})
update_market market = do
  known ← gets (λ s. Map.has market.market_id s.markets)
  raise_if (not known) "unknown market"
  modify (λ s. record s { markets = Map.set market.market_id market s.markets })

unfoldable pub funding_update_key : FundingUpdateRecord → String
funding_update_key r =
    r.market_id ⧺ ":" ⧺ decimal r.applied_at ⧺ ":" ⧺ decimal_ℤ r.new_funding_index

unfoldable pub add_funding_update : FundingUpdateRecord → Action (Unit {0})
add_funding_update r = do
  known ← gets (λ s. Map.has (funding_update_key r) s.funding_updates)
  raise_if known "funding update already exists"
  modify (λ s. record s { funding_updates = Map.set (funding_update_key r) r s.funding_updates })

unfoldable pub funding_premium_sample_key : FundingPremiumSampleRecord → String
funding_premium_sample_key r = r.market_id ⧺ ":" ⧺ decimal r.sampled_at

-- The keys of the newest samples: the entries from the last one back, a market's only while it has
-- fewer than the retained number.
unfoldable pub retained_keys :
    List (String × FundingPremiumSampleRecord) → Map ℕ → StringSet → StringSet
retained_keys [] counts retained = retained
retained_keys ((key, r) ∷ older) counts retained =
    let count = or_else (Map.get r.market_id counts) 0 in
    let full = leb funding_premium_sample_retention count in
    retained_keys older (if full then counts else Map.set r.market_id (count + 1) counts)
      (if full then retained else StringSet.add key retained)

unfoldable pub retained_funding_premium_samples :
    List (String × FundingPremiumSampleRecord) → List (String × FundingPremiumSampleRecord)
unfolding retained_keys
retained_funding_premium_samples entries =
    let retained = retained_keys (reverse entries) [] [] in
    filter_by (λ e. StringSet.has e.0 retained) entries

-- The keys of a map are distinct, so the deletions leave the entries that are retained.
unfoldable pub trim_funding_premium_samples :
    Map FundingPremiumSampleRecord → Map FundingPremiumSampleRecord
unfolding retained_funding_premium_samples
trim_funding_premium_samples samples =
    let retained = retained_funding_premium_samples samples in
    filter_by (λ e. Map.has e.0 retained) samples

unfoldable pub put_samples :
    List FundingPremiumSampleRecord
    → Map FundingPremiumSampleRecord
    → Map FundingPremiumSampleRecord
put_samples [] samples = samples
put_samples (r ∷ rs) samples = put_samples rs (Map.set (funding_premium_sample_key r) r samples)

unfoldable pub add_funding_premium_samples : List FundingPremiumSampleRecord → Action (Unit {0})
unfolding put_samples trim_funding_premium_samples
add_funding_premium_samples records = modify (λ s. record s {
  funding_premium_samples =
      trim_funding_premium_samples (put_samples records s.funding_premium_samples);
})

unfoldable pub add_liquidation_automation_job : LiquidationAutomationJobRecord → Action (Unit {0})
add_liquidation_automation_job r = do
  known ← gets (λ s. Map.has r.job_id s.liquidation_automation_jobs)
  raise_if known "liquidation automation job already exists"
  modify (λ s. record s {
    liquidation_automation_jobs = Map.set r.job_id r s.liquidation_automation_jobs;
  })

unfoldable pub update_liquidation_automation_job :
    LiquidationAutomationJobRecord → Action (Unit {0})
update_liquidation_automation_job r = do
  known ← gets (λ s. Map.has r.job_id s.liquidation_automation_jobs)
  raise_if (not known) "liquidation automation job not found"
  modify (λ s. record s {
    liquidation_automation_jobs = Map.set r.job_id r s.liquidation_automation_jobs;
  })

-- While there are too many runs the oldest one goes; the loop gives up at an empty key.
unfoldable pub trim_batch_execution_runs : Map BatchExecutionRunRecord → Map BatchExecutionRunRecord
trim_batch_execution_runs [] = []
trim_batch_execution_runs ((oldest, r) ∷ newer) =
    let trimmed = trim_batch_execution_runs newer in
    if ltb batch_execution_run_retention (length ((oldest, r) ∷ newer)) && truthy oldest
    then trimmed
    else (oldest, r) ∷ newer

abbrev pub is_open : OrderStatus → Bool
is_open OrderStatus.opened = true
is_open _ = false

abbrev pub assign_run :
    Hex → Hex → Option OrderLifecycleRecord → Map OrderLifecycleRecord → Map OrderLifecycleRecord
assign_run run_id commitment none m = m
assign_run run_id commitment (some order) m =
    if not (is_open order.status) || same? order.matching_run_id (some run_id)
    then m
    else Map.set commitment (record order { matching_run_id = some run_id }) m

unfoldable pub associate_runs : Hex → List Hex → Map OrderLifecycleRecord → Map OrderLifecycleRecord
associate_runs run_id [] m = m
associate_runs run_id (c ∷ cs) m = associate_runs run_id cs (assign_run run_id c (Map.get c m) m)

unfoldable pub associate_batch_execution_run : Hex → List Hex → Action (Unit {0})
unfolding associate_runs
associate_batch_execution_run run_id commitments =
    modify (λ s. record s { order_lifecycle = associate_runs run_id commitments s.order_lifecycle })

unfoldable pub upsert_batch_execution_run : BatchExecutionRunRecord → List Hex → Action (Unit {0})
unfolding associate_batch_execution_run trim_batch_execution_runs
upsert_batch_execution_run r commitments = do
  modify (λ s. record s { batch_execution_runs = Map.set r.run_id r s.batch_execution_runs })
  associate_batch_execution_run r.run_id commitments
  modify (λ s. record s { batch_execution_runs = trim_batch_execution_runs s.batch_execution_runs })

unfoldable pub add_batch_execution_run : BatchExecutionRunRecord → List Hex → Action (Unit {0})
unfolding associate_batch_execution_run trim_batch_execution_runs
add_batch_execution_run r commitments = do
  known ← gets (λ s. Map.has r.run_id s.batch_execution_runs)
  raise_if known "batch execution run already exists"
  modify (λ s. record s { batch_execution_runs = Map.set r.run_id r s.batch_execution_runs })
  associate_batch_execution_run r.run_id commitments
  modify (λ s. record s { batch_execution_runs = trim_batch_execution_runs s.batch_execution_runs })

abbrev pub is_settled : BatchExecutionRunStatus → Bool
is_settled settled = true
is_settled _ = false

-- The volume record of a settled run that has none yet.
unfoldable pub backfill_run :
    BatchExecutionRunRecord → Map MarketSettlementVolumeRecord → Map MarketSettlementVolumeRecord
backfill_run run volumes =
    if is_settled run.status
    then elim run.aggregate_volume [
      | none ↦ volumes
      | some volume ↦ elim run.completed_at [
        | none ↦ volumes
        | some time ↦ elim run.settlement_digest [
          | none ↦ volumes
          | some digest ↦
              if not (truthy digest) || Map.has digest volumes
              then volumes
              else Map.set digest
                  (record {
                    market_id = run.market_id;
                    matched_volume = volume /ℤ pos 2;
                    settled_at = time;
                    settlement_digest = digest;
                  })
                  volumes
        ]
      ]
    ]
    else volumes

unfoldable pub backfill_market_settlement_volumes :
    List BatchExecutionRunRecord
    → Map MarketSettlementVolumeRecord
    → Map MarketSettlementVolumeRecord
unfolding backfill_run
backfill_market_settlement_volumes [] volumes = volumes
backfill_market_settlement_volumes (run ∷ runs) volumes =
    backfill_market_settlement_volumes runs (backfill_run run volumes)
