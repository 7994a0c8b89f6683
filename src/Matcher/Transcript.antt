-- ===== src/Matcher/Transcript.antt =====
-- The digest of a match (server/src/workers/batch-matcher/match-transcript.ts).
use pnlx.Base.{String, [], ◌∷◌, map, or_else}
use pnlx.Base.Text.{Hex}
use pnlx.Crypto.Primitives.{Primitives}
use pnlx.Crypto.Hash.{Field, bigint, text, array, fields, hash_fields}
use pnlx.Protocol.Orders.{
  Side, long, short, OrderStatus, opened, partially_filled, filled, cancelled, OrderLifecycleUpdate,
  PrivateMatchIntent,
}
use pnlx.Protocol.Settlements.{Fill}
use pnlx.Matcher.Model.{MatchExecution, MatchBody}

abbrev pub zero_hex : Hex
zero_hex = "0x0"

abbrev pub side_text : Side → String
side_text long = "long"
side_text short = "short"

abbrev pub status_text : OrderStatus → String
status_text opened = "open"
status_text partially_filled = "partially-filled"
status_text filled = "filled"
status_text cancelled = "cancelled"

execution_fields : MatchExecution → Field
execution_fields e = array (
    fields (
      bigint e.gross_taker_fee
      ∷ bigint e.maker_rebate
      ∷ bigint e.insurance
      ∷ bigint e.treasury
      ∷ text e.long_intent_commitment
      ∷ bigint e.long_limit_price
      ∷ text e.long_note_nullifier
      ∷ text e.long_position_commitment
      ∷ text e.maker_intent_commitment
      ∷ text (side_text e.maker_side)
      ∷ bigint e.price
      ∷ text e.short_intent_commitment
      ∷ bigint e.short_limit_price
      ∷ text e.short_note_nullifier
      ∷ text e.short_position_commitment
      ∷ bigint e.size
      ∷ text e.taker_intent_commitment
      ∷ []))

fill_fields : Fill → Field
fill_fields f = array (
    fields (
      text f.intent_commitment
      ∷ text f.market_id
      ∷ text f.owner_commitment
      ∷ text (side_text f.side)
      ∷ bigint f.size
      ∷ bigint f.price
      ∷ bigint f.margin
      ∷ text f.position_commitment
      ∷ text f.position_nullifier
      ∷ []))

update_fields : OrderLifecycleUpdate → Field
update_fields u = array (
    fields (
      text u.intent_commitment
      ∷ text (or_else u.residual_commitment zero_hex)
      ∷ text (status_text u.status)
      ∷ []))

residual_fields : PrivateMatchIntent → Field
residual_fields r = array (
    fields (
      text r.intent_commitment
      ∷ text r.market_id
      ∷ text r.owner_commitment
      ∷ bigint r.signed_size
      ∷ bigint r.limit_price
      ∷ bigint r.margin
      ∷ text r.note_nullifier
      ∷ text (or_else r.source_intent_commitment zero_hex)
      ∷ []))

unfoldable pub match_transcript_digest : Primitives → MatchBody → Hex
unfolding execution_fields fill_fields update_fields residual_fields
match_transcript_digest p m = hash_fields p "match-transcript" (
    array (fields (map execution_fields m.executions))
    ∷ array (
        fields (
          bigint m.fees.gross_taker_fee
          ∷ bigint m.fees.maker_rebate
          ∷ bigint m.fees.insurance
          ∷ bigint m.fees.treasury
          ∷ []))
    ∷ array (fields (map fill_fields m.fills))
    ∷ array (fields (map text m.margin_change_commitments))
    ∷ array (fields (map update_fields m.order_updates))
    ∷ array (fields (map residual_fields m.residuals))
    ∷ array (fields (map text m.spent_nullifiers))
    ∷ bigint m.aggregate_volume
    ∷ bigint m.open_interest_delta
    ∷ bigint m.residual_size
    ∷ bigint m.total_long_size
    ∷ bigint m.total_short_size
    ∷ [])
