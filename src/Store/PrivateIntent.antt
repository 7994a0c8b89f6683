-- ===== src/Store/PrivateIntent.antt =====
-- The check of a private payload against its public record
-- (server/src/workers/batch-matcher/private-intent.ts).
use pnlx.Base.{Bool, false, not, String, [], ◌∷◌, Option, none, some, or_else}
use pnlx.Base.Int.{ℤ, negate}
use pnlx.Base.Text.{Hex, ◌===◌}
use pnlx.Base.Result.{Result, ◌>>◌, throw_if}
use pnlx.Crypto.Primitives.{Primitives}
use pnlx.Crypto.Hash.{bigint, text, hash_fields}
use pnlx.Protocol.Orders.{
  IntentRecord, ResidualOrderRecord, PrivateMatchIntent, TradeIntent, Side, long, short,
}

abbrev pub zero_hex : Hex
zero_hex = "0x0"

abbrev pub signed : Side → ℤ → ℤ
signed long size = size
signed short size = negate size

unfoldable pub private_match_intent_from_trade_intent :
    TradeIntent → Hex → Hex → Hex → PrivateMatchIntent
private_match_intent_from_trade_intent intent intent_commitment note_change_commitment
      owner_commitment =
    record {
      batch_id = intent.batch_id;
      intent_commitment = intent_commitment;
      limit_price = intent.limit_price;
      margin = intent.margin;
      market_id = intent.market_id;
      note_change_commitment = note_change_commitment;
      note_nullifier = intent.note_nullifier;
      owner_commitment = owner_commitment;
      signed_size = signed intent.side intent.size;
      source_intent_commitment = none;
    }

unfoldable pub matching_payload_commitment : Primitives → PrivateMatchIntent → Hex
matching_payload_commitment p payload = hash_fields p "matching-payload" (
    text payload.intent_commitment
    ∷ text payload.market_id
    ∷ text payload.owner_commitment
    ∷ bigint payload.signed_size
    ∷ bigint payload.limit_price
    ∷ bigint payload.margin
    ∷ text payload.note_nullifier
    ∷ text payload.note_change_commitment
    ∷ text (or_else payload.source_intent_commitment "0x0")
    ∷ [])

-- What the check reads of an intent or of a residual order; only an intent has a note change.
pub record PublicRecord : Type 0 where
  pub intent_commitment : Hex
  pub market_id : String
  pub matching_payload_commitment : Hex
  pub note_nullifier : Hex
  pub owner_commitment : Hex
  pub note_change_commitment : Option Hex

abbrev pub of_intent : IntentRecord → PublicRecord
of_intent r = record {
  intent_commitment = r.intent_commitment;
  market_id = r.market_id;
  matching_payload_commitment = r.matching_payload_commitment;
  note_nullifier = r.note_nullifier;
  owner_commitment = r.owner_commitment;
  note_change_commitment = some r.note_change_commitment;
}

abbrev pub of_residual : ResidualOrderRecord → PublicRecord
of_residual r = record {
  intent_commitment = r.intent_commitment;
  market_id = r.market_id;
  matching_payload_commitment = r.matching_payload_commitment;
  note_nullifier = r.note_nullifier;
  owner_commitment = r.owner_commitment;
  note_change_commitment = none;
}

-- The two checks of the note change, for a record that has one and for one that has none.
abbrev pub change_differs : Option Hex → Hex → Bool
change_differs none change = false
change_differs (some expected) change = not (change === expected)

abbrev pub change_unexpected : Option Hex → Hex → Bool
change_unexpected none change = not (change === zero_hex)
change_unexpected (some expected) change = false

unfoldable pub assert_private_match_intent :
    Primitives → PublicRecord → PrivateMatchIntent → Result (Unit {0})
assert_private_match_intent p r payload = do
  throw_if (not (payload.intent_commitment === r.intent_commitment))
      "private match payload intent mismatch"
  throw_if (not (payload.market_id === r.market_id)) "private match payload market mismatch"
  throw_if (not (payload.owner_commitment === r.owner_commitment))
      "private match payload owner mismatch"
  throw_if (not (payload.note_nullifier === r.note_nullifier))
      "private match payload nullifier mismatch"
  throw_if (change_differs r.note_change_commitment payload.note_change_commitment)
      "private match payload change commitment mismatch"
  throw_if (change_unexpected r.note_change_commitment payload.note_change_commitment)
      "residual private match payload cannot carry a note change"
  throw_if (not (matching_payload_commitment p payload === r.matching_payload_commitment))
      "private match payload commitment mismatch"
