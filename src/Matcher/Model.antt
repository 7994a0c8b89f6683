-- ===== src/Matcher/Model.antt =====
-- The matcher's input, executions and result
-- (server/src/workers/batch-matcher/batch-matcher.model.ts).
use pnlx.Base.{String, List}
use pnlx.Base.Int.{ℤ}
use pnlx.Base.Text.{Hex}
use pnlx.Protocol.Markets.{MarketConfig}
use pnlx.Protocol.Orders.{PrivateMatchIntent, OrderLifecycleUpdate, Side}
use pnlx.Protocol.Settlements.{Fill}
use pnlx.MarketMath.Fees.{FillFees}

pub record MatchInput : Type 0 where
  pub batch_id : String
  pub market : MarketConfig
  pub intents : List PrivateMatchIntent

pub record MatchExecution : Type 0 where
  pub gross_taker_fee : ℤ
  pub maker_rebate : ℤ
  pub insurance : ℤ
  pub treasury : ℤ
  pub long_intent_commitment : Hex
  pub long_limit_price : ℤ
  pub long_note_nullifier : Hex
  pub long_position_commitment : Hex
  pub maker_intent_commitment : Hex
  pub maker_side : Side
  pub price : ℤ
  pub short_intent_commitment : Hex
  pub short_limit_price : ℤ
  pub short_note_nullifier : Hex
  pub short_position_commitment : Hex
  pub size : ℤ
  pub taker_intent_commitment : Hex

-- All of a `MatchResult` but its `matchTranscriptDigest`.
pub record MatchBody : Type 0 where
  pub executions : List MatchExecution
  pub fills : List Fill
  pub fees : FillFees
  pub margin_change_commitments : List Hex
  pub order_updates : List OrderLifecycleUpdate
  pub residuals : List PrivateMatchIntent
  pub spent_nullifiers : List Hex
  pub aggregate_volume : ℤ
  pub open_interest_delta : ℤ
  pub residual_size : ℤ
  pub total_long_size : ℤ
  pub total_short_size : ℤ

pub record MatchResult : Type 0 where
  pub body : MatchBody
  pub open body use *
  pub match_transcript_digest : Hex
