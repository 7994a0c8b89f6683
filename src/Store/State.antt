-- ===== src/Store/State.antt =====
-- The fields of `ProtocolStore` (server/src/shared/state/store.ts).
use pnlx.Base.{ℕ, String, []}
use pnlx.Base.Int.{ℤ}
use pnlx.Base.Text.{Hex}
use pnlx.Base.Map.{Map}
use pnlx.Base.StringSet.{StringSet}
use pnlx.Protocol.Orders.{
  IntentRecord, ResidualOrderRecord, OrderLifecycleRecord, PrivateMatchIntent,
}
use pnlx.Protocol.Positions.{
  PositionLifecycleRecord, LiquidationRecord, LiquidationAutomationJobRecord,
  ConditionalOrderCommitment, ConditionalOrderRecord, PositionCloseRecord,
}
use pnlx.Protocol.Markets.{
  MarketConfig, FundingUpdateRecord, FundingPremiumSampleRecord, BatchExecutionRunRecord,
}
use pnlx.Protocol.Settlements.{BatchSettlement}
use pnlx.Protocol.Accounts.{
  PendingAssetDepositRecord, DisclosureRecord, WithdrawalRecord, AccountEventRecord,
  AccountEncryptionKeyRecord,
}

pub record MarketSettlementVolumeRecord : Type 0 where
  pub market_id : String
  pub matched_volume : ℤ
  pub settled_at : ℕ
  pub settlement_digest : Hex

pub record Store : Type 0 where
  pub margin_commitments : StringSet
  pub position_commitments : StringSet
  pub spent_nullifiers : StringSet
  pub intents : Map IntentRecord
  pub residual_orders : Map ResidualOrderRecord
  pub order_lifecycle : Map OrderLifecycleRecord
  pub position_lifecycle : Map PositionLifecycleRecord
  pub markets : Map MarketConfig
  pub settlements : Map BatchSettlement
  pub market_settlement_volumes : Map MarketSettlementVolumeRecord
  pub liquidations : Map LiquidationRecord
  pub conditional_orders : Map ConditionalOrderCommitment
  pub conditional_closes : Map ConditionalOrderRecord
  pub position_closes : Map PositionCloseRecord
  pub disclosures : Map DisclosureRecord
  pub funding_updates : Map FundingUpdateRecord
  pub funding_premium_samples : Map FundingPremiumSampleRecord
  pub liquidation_automation_jobs : Map LiquidationAutomationJobRecord
  pub batch_execution_runs : Map BatchExecutionRunRecord
  pub withdrawals : Map WithdrawalRecord
  pub account_events : Map AccountEventRecord
  pub account_encryption_keys : Map AccountEncryptionKeyRecord
  pub pending_asset_deposits : Map PendingAssetDepositRecord
  pub private_match_intents : Map PrivateMatchIntent
  pub proofs : StringSet

-- `new ProtocolStore()`
abbrev pub new_store : Store
new_store = record {
  margin_commitments = [];
  position_commitments = [];
  spent_nullifiers = [];
  intents = [];
  residual_orders = [];
  order_lifecycle = [];
  position_lifecycle = [];
  markets = [];
  settlements = [];
  market_settlement_volumes = [];
  liquidations = [];
  conditional_orders = [];
  conditional_closes = [];
  position_closes = [];
  disclosures = [];
  funding_updates = [];
  funding_premium_samples = [];
  liquidation_automation_jobs = [];
  batch_execution_runs = [];
  withdrawals = [];
  account_events = [];
  account_encryption_keys = [];
  pending_asset_deposits = [];
  private_match_intents = [];
  proofs = [];
}
