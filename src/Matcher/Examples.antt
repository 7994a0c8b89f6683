-- ===== src/Matcher/Examples.antt =====
-- Runs of the matcher (server/src/workers/batch-matcher) on a small book, with stand-ins for the
-- hashes, and the theorems at that book.
use Prim.Native.String.{count}
use pnlx.Base.{
  ℕ, ◌+◌, ◌*◌, ◌≡◌, refl, Bool, true, false, get_elem?, All, String, List, [], ◌∷◌, Option, none,
  some, arith, map, not, filter_by,
}
use pnlx.Base.Int.{ℤ, pos, negsuc, ◌+ℤ◌, ◌-ℤ◌, ◌*ℤ◌, ◌/ℤ◌, ◌==ℤ◌, ◌≤ℤ◌}
use pnlx.Base.Result.{Result, ok, is_ok, value_of}
use pnlx.Base.StringSet
use pnlx.Crypto.Primitives.{Primitives}
use pnlx.Protocol.Markets.{MarketConfig}
use pnlx.Protocol.Orders.{PrivateMatchIntent}
use pnlx.Matcher.Model.{MatchInput, MatchExecution, MatchResult}
use pnlx.Matcher.Book.{BookOrder, is_long, sorted_longs, sorted_shorts, to_book_orders}
use pnlx.Matcher.Summary.{match_batch, run_book, sum_by, initial_state}
use pnlx.Matcher.Executions.{IsExecution, IsBacked}
use pnlx.Matcher.Loop.{BookState}
use pnlx.MarketMath.Margin.{abs}
use pnlx.Matcher.Termination.{run_book_stops}
use mathlib.Core.List.{Perm}
use pnlx.Base.Sorted.{IsSorted}
use pnlx.Matcher.Priority.{BuysBefore, SellsBefore, sides_in_priority}
use pnlx.Matcher.Totals.{to_buy, to_sell}
use pnlx.Matcher.Outcome.{
  match_batch-fair, match_batch-volume, match_batch-fees, IsMatched, matched_order,
  matched_order_whole,
}

-- Stand-ins: the length of the text, and a weighted sum.
abbrev weighted_sum : List ℕ → ℕ
weighted_sum [] = 1
weighted_sum (x ∷ xs) = x + 3 * weighted_sum xs

abbrev stand_ins : Primitives
stand_ins = record { sha256 = λ s. count s; poseidon2 = weighted_sum }

abbrev market : MarketConfig
market = record {
  market_id = "btc-usd-perp";
  oracle_price = pos 100000000;
  max_leverage = pos 10;
  initial_margin_rate = pos 100000;
  maintenance_margin_rate = pos 50000;
  funding_index = pos 0;
}

abbrev order : String → ℤ → ℤ → PrivateMatchIntent
order name signed_size limit_price = record {
  batch_id = "1";
  intent_commitment = name;
  limit_price = limit_price;
  margin = pos 5000000;
  market_id = "btc-usd-perp";
  note_change_commitment = "0x0";
  note_nullifier = name;
  owner_commitment = "0xo";
  signed_size = signed_size;
  source_intent_commitment = none;
}

abbrev small_batch : MatchInput
small_batch = record {
  batch_id = "1";
  market = market;
  intents =
      order "0xa" (pos 10000000) (pos 100000000)
      ∷ order "0xb" (pos 4000000) (pos 120000000)
      ∷ order "0xc" (negsuc 8999999) (pos 90000000)
      ∷ [];
}

small_orders_ok : is_ok (to_book_orders small_batch.intents 0) ≡ true
unfolding to_book_orders pnlx.Matcher.Book.to_book_order ◌-ℤ◌
small_orders_ok = refl

abbrev small_orders : (orders : List BookOrder) × (to_book_orders small_batch.intents 0 ≡ ok orders)
small_orders = value_of (to_book_orders small_batch.intents 0) small_orders_ok

abbrev book_or : BookState → Option (Result BookState) → BookState
book_or s (some (ok t)) = t
book_or s _ = s

abbrev small_book : BookState
small_book =
    book_or (initial_state stand_ins small_batch small_orders.0)
      (run_book stand_ins small_batch small_orders.0)

-- The second order, `0xb`, which is filled in whole.
abbrev order_b : Option BookOrder
order_b = get_elem? small_book.orders 1

abbrev is_filled : Option BookOrder → Bool
is_filled none = false
is_filled (some o) = o.remaining ==ℤ pos 0

-- What the runs give.
small_runs :
    (is_ok (match_batch stand_ins small_batch) ≡ true)
    × (run_book stand_ins small_batch small_orders.0 ≡ some (ok small_book))
    × (is_filled order_b ≡ true)
unfolding match_batch to_book_orders pnlx.Matcher.Book.to_book_order ◌-ℤ◌
    pnlx.Matcher.Book.reject_duplicate_nullifiers StringSet.has StringSet.add pnlx.Base.Text.◌===◌
    pnlx.MarketMath.Fees.fill_fees pnlx.Matcher.Fills.min pnlx.Matcher.Fills.execution_price
    pnlx.Matcher.Fills.create_fill pnlx.Matcher.Risk.assert_fill
    pnlx.MarketMath.Margin.has_initial_margin pnlx.MarketMath.Margin.initial_margin ◌/ℤ◌ ◌*ℤ◌
    pnlx.MarketMath.Margin.notional ◌+ℤ◌ pnlx.Base.Text.decimal pnlx.Base.Text.decimal_ℤ
    pnlx.Crypto.Field.field_hash_pair pnlx.Crypto.Field.field_hex pnlx.Crypto.Field.hash_to_field
    pnlx.Crypto.Field.mod_prime pnlx.Crypto.Hash.hash_fields pnlx.Crypto.Hash.hex_digits
    pnlx.Crypto.Hash.join pnlx.Crypto.Hash.normalize_all
    pnlx.Crypto.Notes.circuit_position_commitment pnlx.Crypto.Notes.circuit_position_nullifier
    pnlx.MarketMath.Fees.split_fees abs pnlx.MarketMath.Margin.has_max_leverage
    pnlx.MarketMath.Margin.maintenance_margin pnlx.Matcher.Book.compare_long_priority
    pnlx.Matcher.Book.compare_short_priority pnlx.Base.Sort.insert_by pnlx.Base.Sort.sort_by
    pnlx.Matcher.Book.sorted_longs pnlx.Matcher.Book.sorted_shorts
    pnlx.Matcher.Fills.allocate_margin pnlx.Matcher.Fills.ceil_div
    pnlx.Matcher.Fills.create_execution pnlx.Matcher.Fills.maker_of
    pnlx.Matcher.Fills.position_commitment pnlx.Matcher.Fills.position_note
    pnlx.Matcher.Fills.position_nullifier pnlx.Matcher.Fills.taker_of pnlx.Matcher.Loop.after_cross
    pnlx.Matcher.Loop.cross pnlx.Matcher.Loop.crossed pnlx.Matcher.Loop.fronts
    pnlx.Matcher.Loop.match_loop pnlx.Matcher.Loop.proceed pnlx.Matcher.Loop.round
    pnlx.Matcher.Summary.create_margin_change_commitments pnlx.Matcher.Summary.create_order_updates
    pnlx.Matcher.Summary.create_residual pnlx.Matcher.Summary.create_residuals
    pnlx.Matcher.Summary.enough_fuel pnlx.Matcher.Summary.initial_state
    pnlx.Matcher.Summary.match_orders pnlx.Matcher.Summary.order_update
    pnlx.Matcher.Summary.residual_commitment pnlx.Matcher.Summary.residual_nullifier run_book
    pnlx.Matcher.Summary.summarise pnlx.Matcher.Summary.total_fees
    pnlx.Matcher.Transcript.match_transcript_digest
small_runs = (refl, refl, refl)

abbrev small_run : (r : MatchResult) × (match_batch stand_ins small_batch ≡ ok r)
small_run = value_of (match_batch stand_ins small_batch) small_runs.0

small_book-IsMatched : IsMatched stand_ins small_batch small_orders.0 small_book
small_book-IsMatched = record { orders_eq = small_orders.1; book_eq = small_runs.1 }

filled_order :
    (found : Option BookOrder)
    → is_filled found ≡ true
    → (o : BookOrder) × (found ≡ some o) × (o.remaining ≡ pos 0)
filled_order none h = cc
filled_order (some o) h = (o, refl, ground (arith, h))

abbrev whole : (o : BookOrder) × (order_b ≡ some o) × (o.remaining ≡ pos 0)
whole = filled_order order_b small_runs.2

match_batch-fair_example :
    All IsExecution small_run.0.executions × All (IsBacked market) small_run.0.fills
match_batch-fair_example = match_batch-fair stand_ins small_batch small_run.0 small_run.1

match_batch-volume_example :
    (small_run.0.aggregate_volume
      ≡ sum_by (λ (e : MatchExecution). e.size) small_run.0.executions
        +ℤ sum_by (λ (e : MatchExecution). e.size) small_run.0.executions)
    × (small_run.0.open_interest_delta ≡ small_run.0.aggregate_volume)
    × (small_run.0.total_long_size ≡ sum_by to_buy small_batch.intents)
    × (small_run.0.total_short_size ≡ sum_by to_sell small_batch.intents)
    × (small_run.0.residual_size
        ≡ abs (sum_by to_buy small_batch.intents -ℤ sum_by to_sell small_batch.intents))
match_batch-volume_example = match_batch-volume stand_ins small_batch small_run.0 small_run.1

match_batch-fees_example :
    (small_run.0.fees.gross_taker_fee
      ≡ sum_by (λ (e : MatchExecution). e.gross_taker_fee) small_run.0.executions)
    × (small_run.0.fees.maker_rebate
        ≡ sum_by (λ (e : MatchExecution). e.maker_rebate) small_run.0.executions)
    × (small_run.0.fees.insurance
        ≡ sum_by (λ (e : MatchExecution). e.insurance) small_run.0.executions)
    × (small_run.0.fees.treasury
        ≡ sum_by (λ (e : MatchExecution). e.treasury) small_run.0.executions)
    × (small_run.0.fees.gross_taker_fee
        ≡ small_run.0.fees.maker_rebate +ℤ small_run.0.fees.insurance +ℤ small_run.0.fees.treasury)
match_batch-fees_example = match_batch-fees stand_ins small_batch small_run.0 small_run.1

sides_in_priority_example :
    IsSorted BuysBefore (sorted_longs small_orders.0)
    × Perm (sorted_longs small_orders.0) (filter_by (λ o. is_long o.side) small_orders.0)
    × IsSorted SellsBefore (sorted_shorts small_orders.0)
    × Perm (sorted_shorts small_orders.0) (filter_by (λ o. not (is_long o.side)) small_orders.0)
sides_in_priority_example = sides_in_priority small_orders.0

matched_order_example :
    (whole.0.filled +ℤ whole.0.remaining ≡ whole.0.size)
    × (pos 0 ≤ℤ whole.0.filled)
    × (pos 0 ≤ℤ whole.0.remaining)
    × (pos 0 ≤ℤ whole.0.allocated_margin)
    × (whole.0.allocated_margin ≤ℤ whole.0.intent.margin)
matched_order_example =
    matched_order stand_ins small_batch small_orders.0 small_book 1 whole.0 small_book-IsMatched
      whole.1

matched_order_whole_example : whole.0.allocated_margin ≡ whole.0.intent.margin
matched_order_whole_example =
    matched_order_whole stand_ins small_batch small_orders.0 small_book 1 whole.0
      small_book-IsMatched whole.1 whole.2

run_book_stops_example :
    (r : Result BookState) × (run_book stand_ins small_batch small_orders.0 ≡ some r)
run_book_stops_example = run_book_stops stand_ins small_batch small_orders.0
