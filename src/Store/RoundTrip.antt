-- ===== src/Store/RoundTrip.antt =====
-- A store that is read back from its snapshot is the store
-- (server/src/shared/state/protocol-snapshot.ts).
use pnlx.Base.{◌-◌, ◌≤◌, ◌≡◌, refl, List, [], ◌∷◌, length, drop, arith}
use pnlx.Base.Map
use pnlx.Base.Map.{Map}
use pnlx.Base.Entries.{Distinct, put_all-Distinct, add_all-Distinct}
use pnlx.Store.State.{Store}
use pnlx.Store.Markets.{retained_funding_premium_samples, backfill_market_settlement_volumes}
use pnlx.Store.Stored.{
  stored_intent, stored_match_intent, stored_settlement, restored_intent, restored_match_intent,
  restored_settlement,
}
use pnlx.Store.Snapshot.{
  retained_batch_execution_runs, map_values, snapshot_protocol_store, apply_protocol_store_snapshot,
}

-- No key stands twice in a map, and no member twice in a set.
pub record IsKeyed (s : Store) : Type 0 where
  pub margin_commitments_keyed : Distinct s.margin_commitments
  pub position_commitments_keyed : Distinct s.position_commitments
  pub spent_nullifiers_keyed : Distinct s.spent_nullifiers
  pub intents_keyed : Distinct (Map.keys s.intents)
  pub residual_orders_keyed : Distinct (Map.keys s.residual_orders)
  pub order_lifecycle_keyed : Distinct (Map.keys s.order_lifecycle)
  pub position_lifecycle_keyed : Distinct (Map.keys s.position_lifecycle)
  pub markets_keyed : Distinct (Map.keys s.markets)
  pub settlements_keyed : Distinct (Map.keys s.settlements)
  pub market_settlement_volumes_keyed : Distinct (Map.keys s.market_settlement_volumes)
  pub liquidations_keyed : Distinct (Map.keys s.liquidations)
  pub conditional_orders_keyed : Distinct (Map.keys s.conditional_orders)
  pub conditional_closes_keyed : Distinct (Map.keys s.conditional_closes)
  pub position_closes_keyed : Distinct (Map.keys s.position_closes)
  pub disclosures_keyed : Distinct (Map.keys s.disclosures)
  pub funding_updates_keyed : Distinct (Map.keys s.funding_updates)
  pub funding_premium_samples_keyed : Distinct (Map.keys s.funding_premium_samples)
  pub liquidation_automation_jobs_keyed : Distinct (Map.keys s.liquidation_automation_jobs)
  pub batch_execution_runs_keyed : Distinct (Map.keys s.batch_execution_runs)
  pub withdrawals_keyed : Distinct (Map.keys s.withdrawals)
  pub account_events_keyed : Distinct (Map.keys s.account_events)
  pub account_encryption_keys_keyed : Distinct (Map.keys s.account_encryption_keys)
  pub pending_asset_deposits_keyed : Distinct (Map.keys s.pending_asset_deposits)
  pub private_match_intents_keyed : Distinct (Map.keys s.private_match_intents)
  pub proofs_keyed : Distinct s.proofs

-- The premium samples and the runs are those that are retained, and every settled run has its volume.
pub record IsRetained (s : Store) : Type 0 where
  pub samples :
      retained_funding_premium_samples s.funding_premium_samples ≡ s.funding_premium_samples
  pub runs : length s.batch_execution_runs ≤ 1000
  pub volumes :
      backfill_market_settlement_volumes
        (Map.values s.batch_execution_runs)
        s.market_settlement_volumes
      ≡ s.market_settlement_volumes

map_values-cancel :
    {V W : Type 0} (f : V → W) (g : W → V) (m : Map V)
    → ((v : V) → g (f v) ≡ v)
    → map_values g (map_values f m) ≡ m
map_values-cancel f g [] h = refl
map_values-cancel f g ((k, v) ∷ m) h = rw (h v, map_values-cancel f g m h) refl

few_runs : {A : Type 0} (xs : List A) → length xs ≤ 1000 → drop (length xs - 1000) xs ≡ xs
few_runs xs h = let none_over : length xs - 1000 ≡ 0 = omega arith in rw none_over refl

-- A store in which no key or member stands twice, whose premium samples and runs are those that are
-- retained and whose settled runs have their volumes is read back from its own snapshot unchanged,
-- whatever store reads it.
pub apply-snapshot :
    (s before : Store)
    → IsKeyed s
    → IsRetained s
    → apply_protocol_store_snapshot (snapshot_protocol_store s) before ≡ s
unfolding apply_protocol_store_snapshot snapshot_protocol_store retained_batch_execution_runs
apply-snapshot s before k r =
    rw
      (
        few_runs s.batch_execution_runs r.runs,
        few_runs s.batch_execution_runs r.runs,
        map_values-cancel stored_intent restored_intent s.intents (λ v. refl),
        map_values-cancel stored_match_intent restored_match_intent s.private_match_intents
            (λ v. refl),
        map_values-cancel stored_settlement restored_settlement s.settlements (λ v. refl),
        r.samples,
        r.samples,
        add_all-Distinct s.margin_commitments k.margin_commitments_keyed,
        add_all-Distinct s.position_commitments k.position_commitments_keyed,
        add_all-Distinct s.spent_nullifiers k.spent_nullifiers_keyed,
        put_all-Distinct s.intents k.intents_keyed,
        put_all-Distinct s.residual_orders k.residual_orders_keyed,
        put_all-Distinct s.order_lifecycle k.order_lifecycle_keyed,
        put_all-Distinct s.position_lifecycle k.position_lifecycle_keyed,
        put_all-Distinct s.markets k.markets_keyed,
        put_all-Distinct s.settlements k.settlements_keyed,
        put_all-Distinct s.market_settlement_volumes k.market_settlement_volumes_keyed,
        put_all-Distinct s.liquidations k.liquidations_keyed,
        put_all-Distinct s.conditional_orders k.conditional_orders_keyed,
        put_all-Distinct s.conditional_closes k.conditional_closes_keyed,
        put_all-Distinct s.position_closes k.position_closes_keyed,
        put_all-Distinct s.disclosures k.disclosures_keyed,
        put_all-Distinct s.funding_updates k.funding_updates_keyed,
        put_all-Distinct s.funding_premium_samples k.funding_premium_samples_keyed,
        put_all-Distinct s.liquidation_automation_jobs k.liquidation_automation_jobs_keyed,
        put_all-Distinct s.batch_execution_runs k.batch_execution_runs_keyed,
        put_all-Distinct s.withdrawals k.withdrawals_keyed,
        put_all-Distinct s.account_events k.account_events_keyed,
        put_all-Distinct s.account_encryption_keys k.account_encryption_keys_keyed,
        put_all-Distinct s.pending_asset_deposits k.pending_asset_deposits_keyed,
        put_all-Distinct s.private_match_intents k.private_match_intents_keyed,
        add_all-Distinct s.proofs k.proofs_keyed,
        r.volumes,
      )
      refl
