-- ===== src/Protocol/Orders.antt =====
-- Sides, orders and intents (packages/protocol-types/src/index.ts). A `number` here is a time, a count or an index, so a
-- natural number; a `bigint` is an integer; an optional field is an `Option`.
use pnlx.Base.{ℕ, String, Option}
use pnlx.Base.Int.{ℤ}
use pnlx.Base.Text.{Hex}
use pnlx.Protocol.Proof.{ProofMeta}

pub data Side : Type 0 where
  long short : Side

pub record PositionNote : Type 0 where
  pub market_id : String
  pub side : Side
  pub size : ℤ
  pub entry_price : ℤ
  pub margin : ℤ
  pub funding_index : ℤ
  pub owner : String
  pub rho : String
  pub blinding : String

pub record TradeIntent : Type 0 where
  pub batch_id : String
  pub market_id : String
  pub owner : String
  pub side : Side
  pub size : ℤ
  pub limit_price : ℤ
  pub margin : ℤ
  pub note_nullifier : Hex
  pub nonce : String
  pub salt : String

pub record PrivateMatchIntent : Type 0 where
  pub batch_id : String
  pub intent_commitment : Hex
  pub limit_price : ℤ
  pub margin : ℤ
  pub market_id : String
  pub note_change_commitment : Hex
  pub note_nullifier : Hex
  pub owner_commitment : Hex
  pub signed_size : ℤ
  pub source_intent_commitment : Option Hex

pub record IntentRecord : Type 0 where
  pub batch_id : String
  pub batch_digest : Hex
  pub market_id : String
  pub market_digest : Hex
  pub margin_root : Hex
  pub owner_commitment_field : Hex
  pub owner_commitment : Hex
  pub intent_commitment : Hex
  pub matching_payload_commitment : Hex
  pub note_change_commitment : Hex
  pub proof : ProofMeta
  pub note_nullifier : Hex
  pub submission_tx_hash : Option Hex
  pub submission_sequence : Option ℤ

pub data OrderStatus : Type 0 where
  opened partially_filled filled cancelled : OrderStatus

pub record OrderLifecycleUpdate : Type 0 where
  pub intent_commitment : Hex
  pub residual_commitment : Option Hex
  pub status : OrderStatus

pub record OrderLifecycleRecord : Type 0 where
  pub intent_commitment : Hex
  pub residual_commitment : Option Hex
  pub status : OrderStatus
  pub batch_id : String
  pub created_at : ℕ
  pub matching_run_id : Option Hex
  pub market_id : String
  pub owner_commitment : Hex
  pub cancellation_tx_hash : Option Hex
  pub updated_at : ℕ

pub record ResidualOrderRecord : Type 0 where
  pub batch_id : String
  pub created_at : ℕ
  pub intent_commitment : Hex
  pub market_id : String
  pub matching_payload_commitment : Hex
  pub note_nullifier : Hex
  pub owner_commitment : Hex
  pub source_intent_commitment : Hex
  pub submission_sequence : Option ℤ
  pub updated_at : ℕ
