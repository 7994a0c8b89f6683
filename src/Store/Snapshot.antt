-- ===== src/Store/Snapshot.antt =====
-- The snapshot of a store, and the store that is read back from one
-- (server/src/shared/state/protocol-snapshot.ts).
use pnlx.Base.{◌-◌, String, List, [], map, Option, some, or_else, length, drop}
use pnlx.Base.Map
use pnlx.Base.Map.{Map}
use pnlx.Base.StringSet
use pnlx.Base.Entries.{put_all}
use pnlx.Protocol.Orders.{ResidualOrderRecord, OrderLifecycleRecord}
use pnlx.Protocol.Positions.{
  PositionLifecycleRecord, LiquidationRecord, LiquidationAutomationJobRecord,
  ConditionalOrderCommitment, ConditionalOrderRecord, PositionCloseRecord,
}
use pnlx.Protocol.Markets.{
  MarketConfig, FundingUpdateRecord, FundingPremiumSampleRecord, BatchExecutionRunRecord,
}
use pnlx.Protocol.Accounts.{
  PendingAssetDepositRecord, DisclosureRecord, WithdrawalRecord, AccountEventRecord,
  AccountEncryptionKeyRecord,
}
use pnlx.Store.State.{Store, MarketSettlementVolumeRecord}
use pnlx.Store.Markets.{
  batch_execution_run_retention, retained_funding_premium_samples,
  backfill_market_settlement_volumes,
}
use pnlx.Store.Stored.{
  StoredIntent, StoredMatchIntent, StoredSettlement, stored_intent, stored_match_intent,
  stored_settlement, restored_intent, restored_match_intent, restored_settlement,
}

-- `Partial<ProtocolStoreSnapshot>`: a map is the list of its entries, a set that of its members.
pub record ProtocolStoreSnapshot : Type 0 where
  pub margin_commitments : Option (List String)
  pub position_commitments : Option (List String)
  pub spent_nullifiers : Option (List String)
  pub intents : Option (List (String × StoredIntent))
  pub residual_orders : Option (List (String × ResidualOrderRecord))
  pub order_lifecycle : Option (List (String × OrderLifecycleRecord))
  pub position_lifecycle : Option (List (String × PositionLifecycleRecord))
  pub markets : Option (List (String × MarketConfig))
  pub settlements : Option (List (String × StoredSettlement))
  pub market_settlement_volumes : Option (List (String × MarketSettlementVolumeRecord))
  pub liquidations : Option (List (String × LiquidationRecord))
  pub conditional_orders : Option (List (String × ConditionalOrderCommitment))
  pub conditional_closes : Option (List (String × ConditionalOrderRecord))
  pub position_closes : Option (List (String × PositionCloseRecord))
  pub disclosures : Option (List (String × DisclosureRecord))
  pub funding_updates : Option (List (String × FundingUpdateRecord))
  pub funding_premium_samples : Option (List (String × FundingPremiumSampleRecord))
  pub liquidation_automation_jobs : Option (List (String × LiquidationAutomationJobRecord))
  pub batch_execution_runs : Option (List (String × BatchExecutionRunRecord))
  pub withdrawals : Option (List (String × WithdrawalRecord))
  pub account_events : Option (List (String × AccountEventRecord))
  pub account_encryption_keys : Option (List (String × AccountEncryptionKeyRecord))
  pub pending_asset_deposits : Option (List (String × PendingAssetDepositRecord))
  pub private_match_intents : Option (List (String × StoredMatchIntent))
  pub proofs : Option (List String)

-- The last 1000 entries.
unfoldable pub retained_batch_execution_runs :
    List (String × BatchExecutionRunRecord) → List (String × BatchExecutionRunRecord)
retained_batch_execution_runs entries =
    drop (length entries - batch_execution_run_retention) entries

-- Every entry of a map, with another value.
abbrev pub map_values : {V W : Type 0} → (V → W) → List (String × V) → List (String × W)
map_values f entries = map (λ e. (e.0, f e.1)) entries

unfoldable pub snapshot_protocol_store : Store → ProtocolStoreSnapshot
unfolding retained_batch_execution_runs
snapshot_protocol_store s = record {
  margin_commitments = some s.margin_commitments;
  position_commitments = some s.position_commitments;
  spent_nullifiers = some s.spent_nullifiers;
  intents = some (map_values stored_intent s.intents);
  residual_orders = some s.residual_orders;
  order_lifecycle = some s.order_lifecycle;
  position_lifecycle = some s.position_lifecycle;
  markets = some s.markets;
  settlements = some (map_values stored_settlement s.settlements);
  market_settlement_volumes = some s.market_settlement_volumes;
  liquidations = some s.liquidations;
  conditional_orders = some s.conditional_orders;
  conditional_closes = some s.conditional_closes;
  position_closes = some s.position_closes;
  disclosures = some s.disclosures;
  funding_updates = some s.funding_updates;
  funding_premium_samples = some (retained_funding_premium_samples s.funding_premium_samples);
  liquidation_automation_jobs = some s.liquidation_automation_jobs;
  batch_execution_runs = some (retained_batch_execution_runs s.batch_execution_runs);
  withdrawals = some s.withdrawals;
  account_events = some s.account_events;
  account_encryption_keys = some s.account_encryption_keys;
  pending_asset_deposits = some s.pending_asset_deposits;
  private_match_intents = some (map_values stored_match_intent s.private_match_intents);
  proofs = some s.proofs;
}

-- What was in the store before is cleared.
unfoldable pub apply_protocol_store_snapshot : ProtocolStoreSnapshot → Store → Store
unfolding retained_batch_execution_runs
apply_protocol_store_snapshot t before =
    let runs = put_all (retained_batch_execution_runs (or_else t.batch_execution_runs [])) [] in
    record {
      margin_commitments = StringSet.add_all (or_else t.margin_commitments []) [];
      position_commitments = StringSet.add_all (or_else t.position_commitments []) [];
      spent_nullifiers = StringSet.add_all (or_else t.spent_nullifiers []) [];
      intents = put_all (map_values restored_intent (or_else t.intents [])) [];
      residual_orders = put_all (or_else t.residual_orders []) [];
      order_lifecycle = put_all (or_else t.order_lifecycle []) [];
      position_lifecycle = put_all (or_else t.position_lifecycle []) [];
      markets = put_all (or_else t.markets []) [];
      settlements = put_all (map_values restored_settlement (or_else t.settlements [])) [];
      market_settlement_volumes =
          backfill_market_settlement_volumes (Map.values runs)
            (put_all (or_else t.market_settlement_volumes []) []);
      liquidations = put_all (or_else t.liquidations []) [];
      conditional_orders = put_all (or_else t.conditional_orders []) [];
      conditional_closes = put_all (or_else t.conditional_closes []) [];
      position_closes = put_all (or_else t.position_closes []) [];
      disclosures = put_all (or_else t.disclosures []) [];
      funding_updates = put_all (or_else t.funding_updates []) [];
      funding_premium_samples =
          put_all (retained_funding_premium_samples (or_else t.funding_premium_samples [])) [];
      liquidation_automation_jobs = put_all (or_else t.liquidation_automation_jobs []) [];
      batch_execution_runs = runs;
      withdrawals = put_all (or_else t.withdrawals []) [];
      account_events = put_all (or_else t.account_events []) [];
      account_encryption_keys = put_all (or_else t.account_encryption_keys []) [];
      pending_asset_deposits = put_all (or_else t.pending_asset_deposits []) [];
      private_match_intents =
          put_all (map_values restored_match_intent (or_else t.private_match_intents [])) [];
      proofs = StringSet.add_all (or_else t.proofs []) [];
    }
