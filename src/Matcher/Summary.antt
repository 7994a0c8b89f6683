-- ===== src/Matcher/Summary.antt =====
-- What the matcher returns, from the intents to the digest
-- (server/src/workers/batch-matcher/batch-matcher.service.ts).
use pnlx.Base.{
  ℕ, suc, ◌+◌, Bool, true, false, not, ◌&&◌, List, [], ◌∷◌, Option, none, some, map, length,
  filter_by, if◌then◌else◌,
}
use pnlx.Base.Int.{ℤ, pos, ◌+ℤ◌, ◌-ℤ◌, negate, ltb_ℤ, leb_ℤ}
use pnlx.Base.Result.{Result, ok, err, ◌>>=◌, ◌>>◌, throw_if, map_result}
use pnlx.Base.Text.{Hex, ◌===◌}
use pnlx.Crypto.Primitives.{Primitives}
use pnlx.Crypto.Hash.{bigint, text, hash_fields}
use pnlx.Protocol.Orders.{PrivateMatchIntent, OrderLifecycleUpdate, partially_filled, filled}
use pnlx.Protocol.Settlements.{Fill}
use pnlx.MarketMath.Fees.{FillFees}
use pnlx.Matcher.Model.{MatchInput, MatchExecution, MatchBody, MatchResult}
use pnlx.Matcher.Book.{
  BookOrder, to_book_orders, reject_duplicate_nullifiers, is_long, sorted_longs, sorted_shorts,
}
use pnlx.Matcher.Loop.{BookState, match_loop}
use pnlx.Matcher.Transcript.{zero_hex, match_transcript_digest}

abbrev pub has_fill : BookOrder → Bool
has_fill order = ltb_ℤ (pos 0) order.filled

abbrev pub has_remainder : BookOrder → Bool
has_remainder order = ltb_ℤ (pos 0) order.remaining

unfoldable pub residual_commitment : Primitives → BookOrder → Hex
residual_commitment p order =
    hash_fields p "residual-order" (
      text order.intent.intent_commitment
      ∷ bigint order.filled
      ∷ bigint order.allocated_margin
      ∷ [])

unfoldable pub residual_nullifier : Primitives → BookOrder → Hex
residual_nullifier p order = hash_fields p "residual-nullifier" (
    text order.intent.intent_commitment
    ∷ bigint order.filled
    ∷ bigint order.remaining
    ∷ bigint order.allocated_margin
    ∷ [])

unfoldable pub order_update : Primitives → BookOrder → OrderLifecycleUpdate
order_update p order = record {
  intent_commitment = order.intent.intent_commitment;
  residual_commitment = if has_remainder order then some (residual_commitment p order) else none;
  status = if has_remainder order then partially_filled else filled;
}

unfoldable pub create_order_updates : Primitives → List BookOrder → List OrderLifecycleUpdate
unfolding order_update
create_order_updates p orders = map (order_update p) (filter_by has_fill orders)

unfoldable pub create_residual : Primitives → MatchInput → BookOrder → Result PrivateMatchIntent
create_residual p input order = do
  let margin = order.intent.margin -ℤ order.allocated_margin
  throw_if (leb_ℤ margin (pos 0)) "invalid residual margin"
  ok (record {
    batch_id = input.batch_id;
    intent_commitment = residual_commitment p order;
    limit_price = order.intent.limit_price;
    margin = margin;
    market_id = order.intent.market_id;
    note_change_commitment = zero_hex;
    note_nullifier = residual_nullifier p order;
    owner_commitment = order.intent.owner_commitment;
    signed_size = if is_long order.side then order.remaining else negate order.remaining;
    source_intent_commitment = some order.intent.intent_commitment;
  })

unfoldable pub create_residuals :
    Primitives → MatchInput → List BookOrder → Result (List PrivateMatchIntent)
unfolding create_residual
create_residuals p input orders =
    map_result (create_residual p input) (filter_by (λ o. has_fill o && has_remainder o) orders)

unfoldable pub create_margin_change_commitments : List BookOrder → List Hex
create_margin_change_commitments orders =
    map (λ o. o.intent.note_change_commitment)
      (filter_by (λ o. has_fill o && not (o.intent.note_change_commitment === zero_hex)) orders)

-- `xs.reduce((sum, x) => sum + f(x), 0n)`
abbrev pub sum_from {ℓ} : {A : Type ℓ} → (A → ℤ) → ℤ → List A → ℤ
sum_from f total [] = total
sum_from f total (x ∷ xs) = sum_from f (total +ℤ f x) xs

abbrev pub sum_by {ℓ} : {A : Type ℓ} → (A → ℤ) → List A → ℤ
sum_by f = sum_from f (pos 0)

abbrev pub signed_size : Fill → ℤ
signed_size fill = if is_long fill.side then fill.size else negate fill.size

unfoldable pub total_fees : List MatchExecution → FillFees
total_fees executions = record {
  gross_taker_fee = sum_by (λ (e : MatchExecution). e.gross_taker_fee) executions;
  maker_rebate = sum_by (λ (e : MatchExecution). e.maker_rebate) executions;
  insurance = sum_by (λ (e : MatchExecution). e.insurance) executions;
  treasury = sum_by (λ (e : MatchExecution). e.treasury) executions;
}

abbrev pub side_total : Bool → List BookOrder → ℤ
side_total true orders = sum_by (λ (o : BookOrder). o.size) (filter_by (λ o. is_long o.side) orders)
side_total false orders =
    sum_by (λ (o : BookOrder). o.size) (filter_by (λ o. not (is_long o.side)) orders)

abbrev pub is_empty {ℓ} : {A : Type ℓ} → List A → Bool
is_empty [] = true
is_empty (_ ∷ _) = false

module _ (p : Primitives) (input : MatchInput) where
  -- What is computed of the book once the loop has stopped.
  unfoldable pub summarise : BookState → Result MatchResult
  unfolding total_fees create_margin_change_commitments create_order_updates
  summarise s = do
    throw_if (is_empty s.fills) "batch has no crossed liquidity"
    let aggregate_volume = sum_by (λ (f : Fill). f.size) s.fills
    let total_long_size = side_total true s.orders
    let total_short_size = side_total false s.orders
    let input_signed = total_long_size -ℤ total_short_size
    let residual_signed = input_signed -ℤ sum_by signed_size s.fills
    residuals ← create_residuals p input s.orders
    let body : MatchBody = record {
      executions = s.executions;
      fills = s.fills;
      fees = total_fees s.executions;
      margin_change_commitments = create_margin_change_commitments s.orders;
      order_updates = create_order_updates p s.orders;
      residuals = residuals;
      spent_nullifiers = s.spent_nullifiers;
      aggregate_volume = aggregate_volume;
      open_interest_delta = aggregate_volume;
      residual_size =
          if ltb_ℤ residual_signed (pos 0) then negate residual_signed else residual_signed;
      total_long_size = total_long_size;
      total_short_size = total_short_size;
    }
    ok (record { body = body; match_transcript_digest = match_transcript_digest p body })

  -- The book before the first crossing.
  unfoldable pub initial_state : List BookOrder → BookState
  unfolding sorted_longs sorted_shorts
  initial_state orders = record {
    orders = orders;
    longs = map (λ o. o.sequence) (sorted_longs orders);
    shorts = map (λ o. o.sequence) (sorted_shorts orders);
    fills = [];
    executions = [];
    spent_nullifiers = [];
  }

  -- Every round takes an order off a side, so this many rounds are enough.
  unfoldable pub enough_fuel : BookState → ℕ
  enough_fuel s = suc (length s.longs + length s.shorts)

  unfoldable pub run_book : List BookOrder → Option (Result BookState)
  unfolding initial_state enough_fuel match_loop
  run_book orders = let s = initial_state orders in match_loop p input (enough_fuel s) s

  abbrev pub finished : Option (Result BookState) → Result BookState
  finished none = err "out of fuel"
  finished (some r) = r

  -- `BatchMatcherService.match`; `match_orders` below it starts at the book.
  unfoldable pub match_orders : List BookOrder → Result MatchResult
  unfolding run_book summarise
  match_orders orders = do
    reject_duplicate_nullifiers orders
    s ← finished (run_book orders)
    summarise s

  unfoldable pub match_batch : Result MatchResult
  unfolding match_orders
  match_batch = do orders ← to_book_orders input.intents 0; match_orders orders
