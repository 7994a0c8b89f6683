-- ===== src/Store/Stored.antt =====
-- The records of a snapshot that older snapshots have without some of their fields
-- (server/src/shared/state/protocol-snapshot.ts), and what is read in their place.
use pnlx.Base.{ℕ, Bool, String, List, [], Option, some, or_else}
use pnlx.Base.Int.{ℤ}
use pnlx.Base.Text.{Hex}
use pnlx.Protocol.Proof.{ProofMeta}
use pnlx.Protocol.Orders.{IntentRecord, PrivateMatchIntent, OrderLifecycleUpdate}
use pnlx.Protocol.Settlements.{BatchSettlement}

abbrev pub zero_hex : Hex
zero_hex = "0x0"

pub record StoredIntent : Type 0 where
  pub batch_id : String
  pub batch_digest : Option Hex
  pub market_id : String
  pub market_digest : Option Hex
  pub margin_root : Hex
  pub owner_commitment_field : Option Hex
  pub owner_commitment : Hex
  pub intent_commitment : Hex
  pub matching_payload_commitment : Hex
  pub note_change_commitment : Option Hex
  pub proof : ProofMeta
  pub note_nullifier : Hex
  pub submission_tx_hash : Option Hex
  pub submission_sequence : Option ℤ

-- A record as it is written.
abbrev pub stored_intent : IntentRecord → StoredIntent
stored_intent r = record {
  batch_id = r.batch_id;
  batch_digest = some r.batch_digest;
  market_id = r.market_id;
  market_digest = some r.market_digest;
  margin_root = r.margin_root;
  owner_commitment_field = some r.owner_commitment_field;
  owner_commitment = r.owner_commitment;
  intent_commitment = r.intent_commitment;
  matching_payload_commitment = r.matching_payload_commitment;
  note_change_commitment = some r.note_change_commitment;
  proof = r.proof;
  note_nullifier = r.note_nullifier;
  submission_tx_hash = r.submission_tx_hash;
  submission_sequence = r.submission_sequence;
}

-- A record as it is read back.
abbrev pub restored_intent : StoredIntent → IntentRecord
restored_intent r = record {
  batch_id = r.batch_id;
  batch_digest = or_else r.batch_digest zero_hex;
  market_id = r.market_id;
  market_digest = or_else r.market_digest zero_hex;
  margin_root = r.margin_root;
  owner_commitment_field = or_else r.owner_commitment_field zero_hex;
  owner_commitment = r.owner_commitment;
  intent_commitment = r.intent_commitment;
  matching_payload_commitment = r.matching_payload_commitment;
  note_change_commitment = or_else r.note_change_commitment zero_hex;
  proof = r.proof;
  note_nullifier = r.note_nullifier;
  submission_tx_hash = r.submission_tx_hash;
  submission_sequence = r.submission_sequence;
}

pub record StoredMatchIntent : Type 0 where
  pub batch_id : String
  pub intent_commitment : Hex
  pub limit_price : ℤ
  pub margin : ℤ
  pub market_id : String
  pub note_change_commitment : Option Hex
  pub note_nullifier : Hex
  pub owner_commitment : Hex
  pub signed_size : ℤ
  pub source_intent_commitment : Option Hex

-- A record as it is written.
abbrev pub stored_match_intent : PrivateMatchIntent → StoredMatchIntent
stored_match_intent r = record {
  batch_id = r.batch_id;
  intent_commitment = r.intent_commitment;
  limit_price = r.limit_price;
  margin = r.margin;
  market_id = r.market_id;
  note_change_commitment = some r.note_change_commitment;
  note_nullifier = r.note_nullifier;
  owner_commitment = r.owner_commitment;
  signed_size = r.signed_size;
  source_intent_commitment = r.source_intent_commitment;
}

-- A record as it is read back.
abbrev pub restored_match_intent : StoredMatchIntent → PrivateMatchIntent
restored_match_intent r = record {
  batch_id = r.batch_id;
  intent_commitment = r.intent_commitment;
  limit_price = r.limit_price;
  margin = r.margin;
  market_id = r.market_id;
  note_change_commitment = or_else r.note_change_commitment zero_hex;
  note_nullifier = r.note_nullifier;
  owner_commitment = r.owner_commitment;
  signed_size = r.signed_size;
  source_intent_commitment = r.source_intent_commitment;
}

pub record StoredSettlement : Type 0 where
  pub batch_id : String
  pub market_id : String
  pub match_transcript_digest : Option Hex
  pub settlement_digest : Option Hex
  pub new_commitments : List Hex
  pub margin_change_commitments : Option (List Hex)
  pub spent_nullifiers : List Hex
  pub matching_payload_commitments : List Hex
  pub residual_commitments : List Hex
  pub residual_margins : Option (List ℤ)
  pub residual_payload_commitments : List Hex
  pub fill_count : ℕ
  pub fee_config_hash : Hex
  pub gross_taker_fee : ℤ
  pub maker_rebate : ℤ
  pub insurance_fee : ℤ
  pub treasury_fee : ℤ
  pub maker_intents : List Hex
  pub taker_intents : List Hex
  pub aggregate_volume : ℤ
  pub open_interest_delta : ℤ
  pub order_updates : Option (List OrderLifecycleUpdate)
  pub residual_size : ℤ
  pub proof : ProofMeta
  pub proof_verification_tx_hash : Option Hex
  pub settlement_tx_hash : Option Hex
  pub onchain_confirmed : Option Bool

-- A record as it is written.
abbrev pub stored_settlement : BatchSettlement → StoredSettlement
stored_settlement r = record {
  batch_id = r.batch_id;
  market_id = r.market_id;
  match_transcript_digest = some r.match_transcript_digest;
  settlement_digest = some r.settlement_digest;
  new_commitments = r.new_commitments;
  margin_change_commitments = some r.margin_change_commitments;
  spent_nullifiers = r.spent_nullifiers;
  matching_payload_commitments = r.matching_payload_commitments;
  residual_commitments = r.residual_commitments;
  residual_margins = some r.residual_margins;
  residual_payload_commitments = r.residual_payload_commitments;
  fill_count = r.fill_count;
  fee_config_hash = r.fee_config_hash;
  gross_taker_fee = r.gross_taker_fee;
  maker_rebate = r.maker_rebate;
  insurance_fee = r.insurance_fee;
  treasury_fee = r.treasury_fee;
  maker_intents = r.maker_intents;
  taker_intents = r.taker_intents;
  aggregate_volume = r.aggregate_volume;
  open_interest_delta = r.open_interest_delta;
  order_updates = some r.order_updates;
  residual_size = r.residual_size;
  proof = r.proof;
  proof_verification_tx_hash = r.proof_verification_tx_hash;
  settlement_tx_hash = r.settlement_tx_hash;
  onchain_confirmed = r.onchain_confirmed;
}

-- A record as it is read back.
abbrev pub restored_settlement : StoredSettlement → BatchSettlement
restored_settlement r = record {
  batch_id = r.batch_id;
  market_id = r.market_id;
  match_transcript_digest = or_else r.match_transcript_digest zero_hex;
  settlement_digest = or_else r.settlement_digest zero_hex;
  new_commitments = r.new_commitments;
  margin_change_commitments = or_else r.margin_change_commitments [];
  spent_nullifiers = r.spent_nullifiers;
  matching_payload_commitments = r.matching_payload_commitments;
  residual_commitments = r.residual_commitments;
  residual_margins = or_else r.residual_margins [];
  residual_payload_commitments = r.residual_payload_commitments;
  fill_count = r.fill_count;
  fee_config_hash = r.fee_config_hash;
  gross_taker_fee = r.gross_taker_fee;
  maker_rebate = r.maker_rebate;
  insurance_fee = r.insurance_fee;
  treasury_fee = r.treasury_fee;
  maker_intents = r.maker_intents;
  taker_intents = r.taker_intents;
  aggregate_volume = r.aggregate_volume;
  open_interest_delta = r.open_interest_delta;
  order_updates = or_else r.order_updates [];
  residual_size = r.residual_size;
  proof = r.proof;
  proof_verification_tx_hash = r.proof_verification_tx_hash;
  settlement_tx_hash = r.settlement_tx_hash;
  onchain_confirmed = r.onchain_confirmed;
}
