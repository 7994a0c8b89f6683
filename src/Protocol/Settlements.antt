-- ===== src/Protocol/Settlements.antt =====
-- Fills and the settlement of a batch (packages/protocol-types/src/index.ts). A `number` here is a time, a count or an index, so a
-- natural number; a `bigint` is an integer; an optional field is an `Option`.
use pnlx.Base.{ℕ, String, Bool, Option, List}
use pnlx.Base.Int.{ℤ}
use pnlx.Base.Text.{Hex}
use pnlx.Protocol.Orders.{OrderLifecycleUpdate, Side}
use pnlx.Protocol.Proof.{ProofMeta}

pub record Fill : Type 0 where
  pub intent_commitment : Hex
  pub market_id : String
  pub owner_commitment : Hex
  pub side : Side
  pub size : ℤ
  pub price : ℤ
  pub margin : ℤ
  pub position_commitment : Hex
  pub position_nullifier : Hex

pub record BatchSettlement : Type 0 where
  pub batch_id : String
  pub market_id : String
  pub match_transcript_digest : Hex
  pub settlement_digest : Hex
  pub new_commitments : List Hex
  pub margin_change_commitments : List Hex
  pub spent_nullifiers : List Hex
  pub matching_payload_commitments : List Hex
  pub residual_commitments : List Hex
  pub residual_margins : List ℤ
  pub residual_payload_commitments : List Hex
  pub fill_count : ℕ
  pub fee_config_hash : Hex
  pub gross_taker_fee : ℤ
  pub maker_rebate : ℤ
  pub insurance_fee : ℤ
  pub treasury_fee : ℤ
  pub maker_intents : List Hex
  pub taker_intents : List Hex
  pub aggregate_volume : ℤ
  pub open_interest_delta : ℤ
  pub order_updates : List OrderLifecycleUpdate
  pub residual_size : ℤ
  pub proof : ProofMeta
  pub proof_verification_tx_hash : Option Hex
  pub settlement_tx_hash : Option Hex
  pub onchain_confirmed : Option Bool
