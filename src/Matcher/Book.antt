-- ===== src/Matcher/Book.antt =====
-- The order book: what the matcher keeps of an intent, and the order of priority
-- (server/src/workers/batch-matcher/batch-matcher.service.ts).
use pnlx.Base.{ℕ, suc, Bool, true, false, not, List, [], ◌∷◌, if◌then◌else◌, filter_by}
use pnlx.Base.Int.{ℤ, pos, negsuc, ◌-ℤ◌, negate, ltb_ℤ, leb_ℤ, ◌==ℤ◌}
use pnlx.Base.Sort.{sort_by}
use pnlx.Base.Result.{Result, ok, ◌>>=◌, ◌>>◌, throw_if}
use pnlx.Base.StringSet
use pnlx.Base.StringSet.{StringSet}
use pnlx.Protocol.Orders.{PrivateMatchIntent, Side, long, short}

pub record BookOrder : Type 0 where
  pub allocated_margin : ℤ
  pub filled : ℤ
  pub intent : PrivateMatchIntent
  pub remaining : ℤ
  pub sequence : ℕ
  pub side : Side
  pub size : ℤ

unfoldable pub to_book_order : PrivateMatchIntent → ℕ → Result BookOrder
to_book_order intent sequence = do
  let buys = leb_ℤ (pos 0) intent.signed_size
  let size = if buys then intent.signed_size else negate intent.signed_size
  throw_if (size ==ℤ pos 0) "intent size cannot be zero"
  throw_if (leb_ℤ intent.limit_price (pos 0)) "intent limit price must be positive"
  throw_if (leb_ℤ intent.margin (pos 0)) "intent margin must be positive"
  ok (record {
    allocated_margin = pos 0;
    filled = pos 0;
    intent = intent;
    remaining = size;
    sequence = sequence;
    side = if buys then long else short;
    size = size;
  })

-- `intents.map(toBookOrder)`, where `sequence` is the first index.
unfoldable pub to_book_orders : List PrivateMatchIntent → ℕ → Result (List BookOrder)
to_book_orders [] sequence = ok []
to_book_orders (intent ∷ rest) sequence = do
  order ← to_book_order intent sequence
  orders ← to_book_orders rest (suc sequence)
  ok (order ∷ orders)

reject_duplicates_from : StringSet → List BookOrder → Result (Unit {0})
reject_duplicates_from seen [] = ok tt
reject_duplicates_from seen (order ∷ orders) = do
  throw_if (StringSet.has order.intent.note_nullifier seen) "duplicate intent nullifier"
  reject_duplicates_from (StringSet.add order.intent.note_nullifier seen) orders

unfoldable pub reject_duplicate_nullifiers : List BookOrder → Result (Unit {0})
unfolding reject_duplicates_from
reject_duplicate_nullifiers = reject_duplicates_from []

abbrev pub is_long : Side → Bool
is_long long = true
is_long short = false

-- A comparison in the manner of `sort`: below, at or above zero.
unfoldable pub compare_long_priority : BookOrder → BookOrder → ℤ
compare_long_priority a b =
    if not (a.intent.limit_price ==ℤ b.intent.limit_price)
    then (if ltb_ℤ b.intent.limit_price a.intent.limit_price then negsuc 0 else pos 1)
    else pos a.sequence -ℤ pos b.sequence

unfoldable pub compare_short_priority : BookOrder → BookOrder → ℤ
compare_short_priority a b =
    if not (a.intent.limit_price ==ℤ b.intent.limit_price)
    then (if ltb_ℤ a.intent.limit_price b.intent.limit_price then negsuc 0 else pos 1)
    else pos a.sequence -ℤ pos b.sequence

-- `xs.sort(compare)`, which is stable.
unfoldable pub sorted_longs : List BookOrder → List BookOrder
unfolding sort_by compare_long_priority
sorted_longs orders = sort_by compare_long_priority (filter_by (λ o. is_long o.side) orders)

unfoldable pub sorted_shorts : List BookOrder → List BookOrder
unfolding sort_by compare_short_priority
sorted_shorts orders = sort_by compare_short_priority (filter_by (λ o. not (is_long o.side)) orders)
