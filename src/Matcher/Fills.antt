-- ===== src/Matcher/Fills.antt =====
-- One fill of an order, and the execution that joins two fills
-- (server/src/workers/batch-matcher/batch-matcher.service.ts).
use pnlx.Base.{ℕ, leb, if◌then◌else◌}
use pnlx.Base.Int.{ℤ, pos, ◌+ℤ◌, ◌-ℤ◌, ◌*ℤ◌, ◌/ℤ◌, ltb_ℤ}
use pnlx.Base.Result.{Result, ok, ◌>>◌}
use pnlx.Base.Text.{Hex, ◌⧺◌, decimal}
use pnlx.Crypto.Primitives.{Primitives}
use pnlx.Crypto.Field.{hash_to_field, field_hex}
use pnlx.Crypto.Notes.{circuit_position_commitment, circuit_position_nullifier}
use pnlx.Protocol.Orders.{PositionNote}
use pnlx.Protocol.Settlements.{Fill}
use pnlx.MarketMath.Fees.{FillFees}
use pnlx.Matcher.Model.{MatchInput, MatchExecution}
use pnlx.Matcher.Risk.{assert_fill}
use pnlx.Matcher.Book.{BookOrder}

unfoldable pub ceil_div : ℤ → ℤ → ℤ
ceil_div value divisor = (value +ℤ divisor -ℤ pos 1) /ℤ divisor

unfoldable pub min : ℤ → ℤ → ℤ
min a b = if ltb_ℤ a b then a else b

-- The margin of a fill, and the order with its fill and its margin counted.
unfoldable pub allocate_margin : BookOrder → ℤ → ℤ × BookOrder
unfolding ceil_div
allocate_margin order fill_size =
    let next_filled = order.filled +ℤ fill_size in
    let next_allocated = ceil_div (order.intent.margin *ℤ next_filled) order.size in
    (
      next_allocated -ℤ order.allocated_margin,
      record order { filled = next_filled; allocated_margin = next_allocated },
    )

-- The note of the position that a fill opens.
unfoldable pub position_note : MatchInput → BookOrder → ℤ → ℤ → ℕ → ℤ → PositionNote
position_note input order size price fill_index margin = record {
  market_id = order.intent.market_id;
  side = order.side;
  size = size;
  entry_price = price;
  margin = margin;
  funding_index = input.market.funding_index;
  owner = order.intent.owner_commitment;
  rho = order.intent.intent_commitment ⧺ ":position:" ⧺ decimal fill_index;
  blinding = order.intent.intent_commitment ⧺ ":blinding:" ⧺ decimal fill_index;
}

module _ (p : Primitives) where
  unfoldable pub position_commitment : PositionNote → Hex
  position_commitment note = field_hex (
      circuit_position_commitment p (record {
        blinding = hash_to_field p ("blinding:" ⧺ note.blinding);
        entry_price = note.entry_price;
        funding_index = note.funding_index;
        margin = note.margin;
        market_digest = hash_to_field p ("market:" ⧺ note.market_id);
        owner_digest = hash_to_field p ("owner:" ⧺ note.owner);
        rho_digest = hash_to_field p ("rho:" ⧺ note.rho);
        side = note.side;
        size = note.size;
        spend_secret_digest = hash_to_field p ("spend:" ⧺ note.owner ⧺ ":" ⧺ note.rho);
      }))

  unfoldable pub position_nullifier : PositionNote → Hex
  position_nullifier note = field_hex (
      circuit_position_nullifier p (hash_to_field p ("rho:" ⧺ note.rho))
        (hash_to_field p ("spend:" ⧺ note.owner ⧺ ":" ⧺ note.rho)))

  -- The fill, and the order that it leaves.
  unfoldable pub create_fill : MatchInput → BookOrder → ℤ → ℤ → ℕ → ℤ → Result (Fill × BookOrder)
  create_fill input order size price fill_index fee_delta = do
    let allocation = allocate_margin order size
    let margin = allocation.0 +ℤ fee_delta
    assert_fill (record { margin = margin; market = input.market; price = price; size = size })
    let note = position_note input order size price fill_index margin
    ok (
      record {
        intent_commitment = order.intent.intent_commitment;
        market_id = order.intent.market_id;
        owner_commitment = order.intent.owner_commitment;
        side = order.side;
        size = size;
        price = price;
        margin = margin;
        position_commitment = position_commitment note;
        position_nullifier = position_nullifier note;
      },
      allocation.1,
    )

-- The order that came first makes the market.
unfoldable pub maker_of : BookOrder → BookOrder → BookOrder
maker_of long short = if leb long.sequence short.sequence then long else short

unfoldable pub taker_of : BookOrder → BookOrder → BookOrder
taker_of long short = if leb long.sequence short.sequence then short else long

unfoldable pub execution_price : BookOrder → BookOrder → ℤ
unfolding maker_of
execution_price long short = (maker_of long short).intent.limit_price

unfoldable pub create_execution :
    BookOrder → BookOrder → ℤ → ℤ → Fill → Fill → FillFees → MatchExecution
create_execution long short size price long_fill short_fill fees = record {
  gross_taker_fee = fees.gross_taker_fee;
  maker_rebate = fees.maker_rebate;
  insurance = fees.insurance;
  treasury = fees.treasury;
  long_intent_commitment = long.intent.intent_commitment;
  long_limit_price = long.intent.limit_price;
  long_note_nullifier = long.intent.note_nullifier;
  long_position_commitment = long_fill.position_commitment;
  maker_intent_commitment = (maker_of long short).intent.intent_commitment;
  maker_side = (maker_of long short).side;
  price = price;
  short_intent_commitment = short.intent.intent_commitment;
  short_limit_price = short.intent.limit_price;
  short_note_nullifier = short.intent.note_nullifier;
  short_position_commitment = short_fill.position_commitment;
  size = size;
  taker_intent_commitment = (taker_of long short).intent.intent_commitment;
}
