-- ===== src/Matcher/Outcome.antt =====
-- What holds of a batch that was matched (server/src/workers/batch-matcher/batch-matcher.service.ts).
use pnlx.Base.{
  ℕ, ◌≡◌, refl, ap, ◌∙◌, true, false, map, List, [], ◌∷◌, Option, none, some, arith, All, get_elem?,
}
use pnlx.Base.Int.{ℤ, pos, ◌+ℤ◌, ◌-ℤ◌, ◌≤ℤ◌, int_laws}
use pnlx.Base.Result.{Result, ok, >>=-eq-ok}
use pnlx.Crypto.Primitives.{Primitives}
use pnlx.Protocol.Settlements.{Fill}
use pnlx.MarketMath.Margin.{abs}
use pnlx.Matcher.Model.{MatchInput, MatchExecution, MatchResult}
use pnlx.Matcher.Book.{BookOrder, to_book_orders, reject_duplicate_nullifiers}
use pnlx.Matcher.Loop.{BookState}
use pnlx.Matcher.Orders.{allocated_bounds, allocated_all}
use pnlx.Matcher.Rounds.{match_loop_inv}
use pnlx.Matcher.Invariant.{IsBook, fronts-AreKnown, round-IsBook}
use pnlx.Matcher.Executions.{IsExecution, IsBacked, IsLedger, round-IsLedger}
use pnlx.Matcher.Start.{book-AreOrders, initial_state-IsBook, initial_state-IsLedger}
use pnlx.Matcher.Totals.{stake, to_buy, to_sell, round-stakes, side_total-intents}
use pnlx.Matcher.Summary.{
  side_total, sum_from, signed_size, sum_by, total_fees, enough_fuel, initial_state, run_book,
  finished, summarise, match_orders, match_batch,
}

-- What a successful summary takes from the book, as far as the theorems speak of it.
pub record IsSummary (t : BookState) (r : MatchResult) : Type 0 where
  pub executions_eq : r.executions ≡ t.executions
  pub fills_eq : r.fills ≡ t.fills
  pub volume_eq : r.aggregate_volume ≡ sum_by (λ (f : Fill). f.size) t.fills
  pub interest_eq : r.open_interest_delta ≡ r.aggregate_volume
  pub residual_eq :
      r.residual_size ≡ abs (r.total_long_size -ℤ r.total_short_size -ℤ sum_by signed_size t.fills)
  pub fees_eq : r.fees ≡ total_fees t.executions
  pub long_eq : r.total_long_size ≡ side_total true t.orders
  pub short_eq : r.total_short_size ≡ side_total false t.orders

summarise-IsSummary :
    (p : Primitives) (input : MatchInput) (t : BookState) (r : MatchResult)
    → summarise p input t ≡ ok r
    → IsSummary t r
unfolding summarise abs
summarise-IsSummary p input t r h = record {
  executions_eq = ground arith;
  fills_eq = ground arith;
  volume_eq = ground arith;
  interest_eq = ground arith;
  residual_eq = ground arith;
  fees_eq = ground arith;
  long_eq = ground arith;
  short_eq = ground arith;
}

fees_step :
    (g m i t a b c d : ℤ)
    → g ≡ m +ℤ i +ℤ t
    → a ≡ b +ℤ c +ℤ d
    → g +ℤ a ≡ m +ℤ b +ℤ (i +ℤ c) +ℤ (t +ℤ d)
fees_step g m i t a b c d h k = rw (h, k) (omega int_laws)

fees_add_up :
    (es : List MatchExecution)
    → All IsExecution es
    → (g m i t : ℤ) → g ≡ m +ℤ i +ℤ t
    → sum_from (λ (e : MatchExecution). e.gross_taker_fee) g es
      ≡ sum_from (λ (e : MatchExecution). e.maker_rebate) m es
        +ℤ sum_from (λ (e : MatchExecution). e.insurance) i es
        +ℤ sum_from (λ (e : MatchExecution). e.treasury) t es
fees_add_up [] v g m i t h = h
fees_add_up (e ∷ es) v g m i t h =
    fees_add_up es v.1 _ _ _ _ (fees_step g m i t _ _ _ _ h v.0.split.shared)

less_nothing : (a b : ℤ) → b ≡ pos 0 → a -ℤ b ≡ a
less_nothing a b h = rw h (omega int_laws)

module _ (p : Primitives) (input : MatchInput) where
  -- A book and what the loop made of it.
  pub record IsMatched (orders : List BookOrder) (t : BookState) : Type 0 where
    pub orders_eq : to_book_orders input.intents 0 ≡ ok orders
    pub book_eq : run_book p input orders ≡ some (ok t)

  abbrev IsKept : BookState → Type 0
  IsKept s = IsBook s × IsLedger input.market s

  IsMatched-IsKept : (orders : List BookOrder) (t : BookState) → IsMatched orders t → IsKept t
  unfolding run_book
  IsMatched-IsKept orders t m =
      match_loop_inv p input IsKept
        (λ s s' l k v f crosses c. (
          round-IsBook p input s s' l k v.0 f c,
          round-IsLedger p input s s' l k v.1 (fronts-AreKnown s l k v.0 f) crosses c,
        ))
        (enough_fuel p input (initial_state p input orders)) (initial_state p input orders) t
        m.book_eq
        (
          initial_state-IsBook p input orders (book-AreOrders input.intents orders m.orders_eq),
          initial_state-IsLedger p input orders,
        )

  finished-eq-ok :
      (r : Option (Result BookState)) (t : BookState) → finished p input r ≡ ok t → r ≡ some (ok t)
  finished-eq-ok none t h = cc
  finished-eq-ok (some r) t h = ap some h

  pub match_batch-IsMatched :
      (r : MatchResult)
      → match_batch p input ≡ ok r
      → (orders : List BookOrder) × (t : BookState) × IsMatched orders t × IsSummary t r
  unfolding match_batch match_orders
  match_batch-IsMatched r h =
      let (orders, oe, h1) = >>=-eq-ok (to_book_orders input.intents 0) _ h in
      let (u, ue, h2) = >>=-eq-ok (reject_duplicate_nullifiers orders) _ h1 in
      let (t, te, h3) = >>=-eq-ok (finished p input (run_book p input orders)) _ h2 in
      (
        orders,
        t,
        record { orders_eq = oe; book_eq = finished-eq-ok (run_book p input orders) t te },
        summarise-IsSummary p input t r h3,
      )

  -- In a batch that is matched, every execution is of a positive size, at a price no lower than the
  -- short order's limit and no higher than the long order's, and its fees are shared out in full
  -- with no negative share; and the margin of every fill covers the market's initial margin, its
  -- maximal leverage and, strictly, its maintenance margin.
  pub match_batch-fair :
      (r : MatchResult)
      → match_batch p input ≡ ok r
      → All IsExecution r.executions × All (IsBacked input.market) r.fills
  match_batch-fair r h =
      let (orders, t, m, s) = match_batch-IsMatched r h in
      let (book, ledger) = IsMatched-IsKept orders t m in
      (rw s.executions_eq ledger.executions_ok, rw s.fills_eq ledger.fills_ok)

  abbrev KeepsStakes : List BookOrder → BookState → Type 0
  KeepsStakes orders s = IsBook s × (map stake s.orders ≡ map stake orders)

  matched-stakes :
      (orders : List BookOrder) (t : BookState)
      → IsMatched orders t
      → map stake t.orders ≡ map stake orders
  unfolding run_book initial_state
  matched-stakes orders t m =
      (match_loop_inv p input (KeepsStakes orders)
        (λ s s' l k v f crosses c.
          (round-IsBook p input s s' l k v.0 f c, round-stakes p input s s' l k v.0 f c ∙ v.1))
        (enough_fuel p input (initial_state p input orders)) (initial_state p input orders) t
        m.book_eq
        (
          initial_state-IsBook p input orders (book-AreOrders input.intents orders m.orders_eq),
          refl,
        )).1

  -- In a batch that is matched the fills' total size is twice the executions' and the open interest
  -- moves by that total; the two sides' sizes are what the intents ask to buy and to sell, and what is
  -- left over is the difference of the two.
  pub match_batch-volume :
      (r : MatchResult)
      → match_batch p input ≡ ok r
      → (r.aggregate_volume
          ≡ sum_by (λ (e : MatchExecution). e.size) r.executions
            +ℤ sum_by (λ (e : MatchExecution). e.size) r.executions)
        × (r.open_interest_delta ≡ r.aggregate_volume)
        × (r.total_long_size ≡ sum_by to_buy input.intents)
        × (r.total_short_size ≡ sum_by to_sell input.intents)
        × (r.residual_size ≡ abs (sum_by to_buy input.intents -ℤ sum_by to_sell input.intents))
  match_batch-volume r h =
      let (orders, t, m, s) = match_batch-IsMatched r h in
      let (book, ledger) = IsMatched-IsKept orders t m in
      let (longs, shorts) =
        side_total-intents input.intents orders t.orders m.orders_eq (matched-stakes orders t m) in
      let long_eq = s.long_eq ∙ longs in
      let short_eq = s.short_eq ∙ shorts in
      (
        rw s.executions_eq (s.volume_eq ∙ ledger.volume),
        s.interest_eq,
        long_eq,
        short_eq,
        s.residual_eq
            ∙ ap abs (less_nothing _ _ ledger.balanced)
            ∙ ap (λ a. abs (a -ℤ r.total_short_size)) long_eq
            ∙ ap (λ a. abs (sum_by to_buy input.intents -ℤ a)) short_eq,
      )

  -- In a batch that is matched the four totals of the fees are the sums over all executions, and the
  -- takers' total is what the makers, the insurance fund and the treasury get together.
  pub match_batch-fees :
      (r : MatchResult)
      → match_batch p input ≡ ok r
      → (r.fees.gross_taker_fee ≡ sum_by (λ (e : MatchExecution). e.gross_taker_fee) r.executions)
        × (r.fees.maker_rebate ≡ sum_by (λ (e : MatchExecution). e.maker_rebate) r.executions)
        × (r.fees.insurance ≡ sum_by (λ (e : MatchExecution). e.insurance) r.executions)
        × (r.fees.treasury ≡ sum_by (λ (e : MatchExecution). e.treasury) r.executions)
        × (r.fees.gross_taker_fee ≡ r.fees.maker_rebate +ℤ r.fees.insurance +ℤ r.fees.treasury)
  unfolding total_fees
  match_batch-fees r h =
      let (orders, t, m, s) = match_batch-IsMatched r h in
      let (book, ledger) = IsMatched-IsKept orders t m in
      rw (s.fees_eq, s.executions_eq)
        (
          refl,
          refl,
          refl,
          refl,
          fees_add_up t.executions ledger.executions_ok (pos 0) (pos 0) (pos 0) (pos 0)
              (omega int_laws),
        )

  -- An order of a matched book is filled in part or in whole: its filled and its remaining size are
  -- not negative and add up to its size, and the margin allocated to its fills lies between zero and
  -- the intent's margin.
  pub matched_order :
      (orders : List BookOrder) (t : BookState) (i : ℕ) (o : BookOrder)
      → IsMatched orders t
      → get_elem? t.orders i ≡ some o
      → (o.filled +ℤ o.remaining ≡ o.size)
        × (pos 0 ≤ℤ o.filled)
        × (pos 0 ≤ℤ o.remaining)
        × (pos 0 ≤ℤ o.allocated_margin)
        × (o.allocated_margin ≤ℤ o.intent.margin)
  matched_order orders t i o m e =
      let v = ((IsMatched-IsKept orders t m).0.orders_ok i o e).filling in
      (
        v.total,
        v.filled_nonneg,
        v.remaining_nonneg,
        (allocated_bounds o v).0,
        (allocated_bounds o v).1,
      )

  -- An order of a matched book that has nothing left has had all of its margin allocated.
  pub matched_order_whole :
      (orders : List BookOrder) (t : BookState) (i : ℕ) (o : BookOrder)
      → IsMatched orders t
      → get_elem? t.orders i ≡ some o
      → o.remaining ≡ pos 0
      → o.allocated_margin ≡ o.intent.margin
  matched_order_whole orders t i o m e =
      allocated_all o ((IsMatched-IsKept orders t m).0.orders_ok i o e).filling
