-- ===== src/Matcher/Loop.antt =====
-- The matching loop (server/src/workers/batch-matcher/batch-matcher.service.ts). The orders are
-- objects that the book and the two sides share: `orders` holds them by sequence number, and a side
-- is the sequence numbers that are left of it, in order of priority.
use pnlx.Base.{
  ℕ, zero, suc, ◌+◌, List, [], ◌∷◌, ◌++◌, Option, none, some, leb, length, get_elem?, set,
  if◌then◌else◌,
}
use pnlx.Base.Int.{ℤ, pos, ◌-ℤ◌, negate, ltb_ℤ, ◌==ℤ◌}
use pnlx.Base.Result.{Result, ok, err, ◌>>=◌, or_throw}
use pnlx.Base.StringSet
use pnlx.Base.StringSet.{StringSet}
use pnlx.Crypto.Primitives.{Primitives}
use pnlx.Protocol.Settlements.{Fill}
use pnlx.MarketMath.Fees.{FillFees, fill_fees}
use pnlx.Matcher.Model.{MatchInput, MatchExecution}
use pnlx.Matcher.Book.{BookOrder}
use pnlx.Matcher.Fills.{min, create_fill, create_execution, execution_price}

pub record BookState : Type 0 where
  pub orders : List BookOrder
  pub longs : List ℕ
  pub shorts : List ℕ
  pub fills : List Fill
  pub executions : List MatchExecution
  pub spent_nullifiers : StringSet

-- `index += 1` if the order has nothing left.
abbrev pub advance : BookOrder → List ℕ → List ℕ
advance order [] = []
advance order (front ∷ rest) = if order.remaining ==ℤ pos 0 then rest else front ∷ rest

abbrev pub take_size : BookOrder → ℤ → BookOrder
take_size order size = record order { remaining = order.remaining -ℤ size }

-- The fee of the long side and of the short side, as a change of its margin.
abbrev pub long_delta : BookOrder → BookOrder → FillFees → ℤ
long_delta long short fees =
    if leb long.sequence short.sequence then fees.maker_rebate else negate fees.gross_taker_fee

abbrev pub short_delta : BookOrder → BookOrder → FillFees → ℤ
short_delta long short fees =
    if leb long.sequence short.sequence then negate fees.gross_taker_fee else fees.maker_rebate

-- The orders at the front of the two sides, or `none` where a side is used up.
unfoldable pub fronts : BookState → List ℕ → List ℕ → Option (Result (BookOrder × BookOrder))
fronts s [] shorts = none
fronts s (l ∷ ls) [] = none
fronts s (l ∷ ls) (k ∷ ks) = some (do
  long ← or_throw (get_elem? s.orders l) "undefined order"
  short ← or_throw (get_elem? s.orders k) "undefined order"
  ok (long, short))

module _ (p : Primitives) (input : MatchInput) where
  -- The state after a long and a short order are crossed, once what they make is known.
  unfoldable pub crossed :
      BookState
      → BookOrder
      → BookOrder
      → ℤ
      → ℤ
      → FillFees
      → Fill × BookOrder
      → Fill × BookOrder
      → BookState
  crossed s long short size price fees (long_fill, long_left) (short_fill, short_left) =
      let long' = take_size long_left size in
      let short' = take_size short_left size in
      record {
        orders = set (set s.orders long.sequence long') short.sequence short';
        longs = advance long' s.longs;
        shorts = advance short' s.shorts;
        fills = s.fills ++ long_fill ∷ short_fill ∷ [];
        executions =
            s.executions ++ create_execution long short size price long_fill short_fill fees ∷ [];
        spent_nullifiers =
            StringSet.add short.intent.note_nullifier
              (StringSet.add long.intent.note_nullifier s.spent_nullifiers);
      }

  -- The body of the loop, for the two orders at the front.
  unfoldable pub cross : BookState → BookOrder → BookOrder → Result BookState
  unfolding crossed
  cross s long short = do
    let size = min long.remaining short.remaining
    let price = execution_price long short
    fees ← fill_fees size price
    long_part ← create_fill p input long size price (length s.fills) (long_delta long short fees)
    short_part ←
        create_fill p input short size price (length s.fills + 1) (short_delta long short fees)
    ok (crossed s long short size price fees long_part short_part)

  -- What follows a crossing: the next round, unless it threw.
  unfoldable pub after_cross :
      (BookState → Option (Result BookState)) → Result BookState → Option (Result BookState)
  after_cross continue (ok s) = continue s
  after_cross continue (err e) = some (err e)

  -- One round: stop where the prices do not cross, or cross the two orders and go on.
  unfoldable pub round :
      (BookState → Option (Result BookState))
      → BookState
      → BookOrder
      → BookOrder
      → Option (Result BookState)
  unfolding after_cross cross
  round continue s long short =
      if ltb_ℤ long.intent.limit_price short.intent.limit_price
      then some (ok s)
      else after_cross continue (cross s long short)

  unfoldable pub proceed :
      (BookState → Option (Result BookState))
      → BookState
      → Option (Result (BookOrder × BookOrder))
      → Option (Result BookState)
  unfolding round
  proceed continue s none = some (ok s)
  proceed continue s (some (err e)) = some (err e)
  proceed continue s (some (ok (long, short))) = round continue s long short

  -- `none` says that the fuel ran out.
  unfoldable pub match_loop : ℕ → BookState → Option (Result BookState)
  unfolding proceed fronts
  match_loop zero s = none
  match_loop (suc fuel) s = proceed (match_loop fuel) s (fronts s s.longs s.shorts)
