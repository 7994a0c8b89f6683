-- ===== src/Protocol/Positions.antt =====
-- Positions, their liquidation and their close (packages/protocol-types/src/index.ts). A `number` here is a time, a count or an index, so a
-- natural number; a `bigint` is an integer; an optional field is an `Option`.
use pnlx.Base.{ℕ, String, Option}
use pnlx.Base.Int.{ℤ}
use pnlx.Base.Text.{Hex}
use pnlx.Protocol.Proof.{ProofMeta}

pub data PositionStatus : Type 0 where
  opened closed liquidated : PositionStatus

pub record PositionLifecycleRecord : Type 0 where
  pub batch_id : String
  pub close_commitment : Option Hex
  pub funding_index : Option ℤ
  pub liquidation_reward_commitment : Option Hex
  pub margin_output_commitment : Option Hex
  pub market_id : String
  pub new_position_commitment : Option Hex
  pub opened_at : ℕ
  pub owner_commitment : Hex
  pub position_commitment : Hex
  pub position_index : Option ℕ
  pub position_nullifier : Hex
  pub settlement_digest : Hex
  pub source_intent_commitment : Hex
  pub status : PositionStatus
  pub updated_at : ℕ

pub record LiquidationRecord : Type 0 where
  pub market_id : String
  pub mark_price : ℤ
  pub maintenance_rate : ℤ
  pub position_commitment : Hex
  pub position_nullifier : Hex
  pub position_root : Hex
  pub reward_commitment : Hex
  pub proof : ProofMeta
  pub proof_verification_tx_hash : Option Hex
  pub settlement_tx_hash : Option Hex

pub data LiquidationAutomationJobStatus : Type 0 where
  pending executed failed stale : LiquidationAutomationJobStatus

pub record LiquidationAutomationJobRecord : Type 0 where
  pub created_at : ℕ
  pub executed_at : Option ℕ
  pub failed_at : Option ℕ
  pub job_id : Hex
  pub liquidation : LiquidationRecord
  pub market_id : String
  pub position_commitment : Hex
  pub position_nullifier : Hex
  pub reason : Option String
  pub reward_commitment : Hex
  pub status : LiquidationAutomationJobStatus
  pub updated_at : ℕ

pub record ConditionalOrderCommitment : Type 0 where
  pub market_id : String
  pub position_nullifier : Hex
  pub close_commitment : Hex

pub record ConditionalOrderRecord : Type 0 where
  pub market_id : String
  pub mark_price : ℤ
  pub position_nullifier : Hex
  pub close_commitment : Hex
  pub proof : ProofMeta
  pub proof_verification_tx_hash : Option Hex
  pub trigger_tx_hash : Option Hex

pub record PositionCloseRecord : Type 0 where
  pub market_id : String
  pub mark_price : ℤ
  pub position_commitment : Hex
  pub position_nullifier : Hex
  pub position_root : Hex
  pub close_commitment : Hex
  pub new_position_commitment : Hex
  pub margin_output_commitment : Hex
  pub output_position_index : Option ℕ
  pub output_position_root : Option Hex
  pub proof : ProofMeta
  pub proof_verification_tx_hash : Option Hex
  pub settlement_tx_hash : Option Hex
