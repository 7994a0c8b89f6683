-- ===== src/Matcher/Executions.antt =====
-- What every round of the matching loop adds to the fills and the executions
-- (server/src/workers/batch-matcher/batch-matcher.service.ts).
use pnlx.Base.{◌≡◌, refl, ap, ◌∙◌, true, false, List, [], ◌∷◌, ◌++◌, arith, All, All-append}
use pnlx.Base.Int.{ℤ, pos, ◌+ℤ◌, ◌≤ℤ◌, ◌<ℤ◌, ltb_ℤ, negate, int_laws}
use pnlx.Crypto.Primitives.{Primitives}
use pnlx.Protocol.Markets.{MarketConfig}
use pnlx.Protocol.Settlements.{Fill}
use pnlx.MarketMath.Margin.{notional}
use pnlx.MarketMath.Fees.{FillFees}
use pnlx.MarketMath.FeeSplit.{IsSplit, split_fees-IsSplit, notional_nonneg}
use pnlx.Matcher.Model.{MatchInput, MatchExecution}
use pnlx.Matcher.Book.{BookOrder, is_long}
use pnlx.Matcher.Fills.{min, execution_price, maker_of, create_execution}
use pnlx.Matcher.FillFacts.{IsMargined, IsFillOf, create_fill-IsFillOf}
use pnlx.Matcher.Loop.{BookState, crossed, long_delta, short_delta}
use pnlx.Matcher.Orders.{fill_fees-positive}
use pnlx.Matcher.Rounds.{IsCross}
use pnlx.Matcher.Invariant.{AreKnown}
use pnlx.Matcher.Summary.{sum_from, sum_by, signed_size}

abbrev pub execution_fees : MatchExecution → FillFees
execution_fees e = record {
  gross_taker_fee = e.gross_taker_fee;
  maker_rebate = e.maker_rebate;
  insurance = e.insurance;
  treasury = e.treasury;
}

-- An execution is of a positive size, at a price that neither limit rules out, and its fees are
-- shared out in full.
pub record IsExecution (e : MatchExecution) : Type 0 where
  pub above_short : e.short_limit_price ≤ℤ e.price
  pub below_long : e.price ≤ℤ e.long_limit_price
  pub size_pos : pos 0 <ℤ e.size
  pub split : IsSplit (notional e.size e.price) (execution_fees e)

-- A fill whose margin meets the market's requirements.
abbrev pub IsBacked : MarketConfig → Fill → Type 0
IsBacked market f = IsMargined market f.size f.price f.margin

-- The fills and executions so far: both sides of the fills are equal, and twice the executions.
pub record IsLedger (market : MarketConfig) (s : BookState) : Type 0 where
  pub executions_ok : All IsExecution s.executions
  pub fills_ok : All (IsBacked market) s.fills
  pub balanced : sum_by signed_size s.fills ≡ pos 0
  pub volume :
      sum_by (λ (f : Fill). f.size) s.fills
      ≡ sum_by (λ (e : MatchExecution). e.size) s.executions
        +ℤ sum_by (λ (e : MatchExecution). e.size) s.executions

execution_price_bounds :
    (long short : BookOrder)
    → ltb_ℤ long.intent.limit_price short.intent.limit_price ≡ false
    → (short.intent.limit_price ≤ℤ execution_price long short)
      × (execution_price long short ≤ℤ long.intent.limit_price)
unfolding execution_price maker_of
execution_price_bounds long short h = ground arith

sum_from-append {ℓ} :
    {A : Type ℓ} (f : A → ℤ) (t : ℤ) (xs ys : List A)
    → sum_from f t (xs ++ ys) ≡ sum_from f (sum_from f t xs) ys
sum_from-append f t [] ys = refl
sum_from-append f t (x ∷ xs) ys = sum_from-append f (t +ℤ f x) xs ys

opposite : (t a b z : ℤ) → t ≡ pos 0 → a ≡ z → b ≡ negate z → t +ℤ a +ℤ b ≡ pos 0
opposite t a b z h e k = rw (h, e, k) (omega int_laws)

signed_size-long : (f : Fill) (z : ℤ) → is_long f.side ≡ true → f.size ≡ z → signed_size f ≡ z
signed_size-long f z h e = rw (h, e) refl

signed_size-short :
    (f : Fill) (z : ℤ) → is_long f.side ≡ false → f.size ≡ z → signed_size f ≡ negate z
signed_size-short f z h e = rw (h, e) refl

doubled : (t a b c d : ℤ) → t ≡ c +ℤ c → a ≡ d → b ≡ d → t +ℤ a +ℤ b ≡ (c +ℤ d) +ℤ (c +ℤ d)
doubled t a b c d h e k = rw (h, e, k) (omega int_laws)

module _ (p : Primitives) (input : MatchInput) where
  pub round-IsLedger :
      (s s' : BookState) (long short : BookOrder)
      → IsLedger input.market s
      → AreKnown s long short
      → ltb_ℤ long.intent.limit_price short.intent.limit_price ≡ false
      → IsCross p input s long short s'
      → IsLedger input.market s'
  unfolding crossed create_execution
  round-IsLedger s s' long short l v crosses c = rw c.state_eq (record {
    executions_ok = All-append _ s.executions _ l.executions_ok (executed, tt);
    fills_ok =
        All-append _ s.fills _ l.fills_ok
          (backed _ _ c.long_part long_fill, (backed _ _ c.short_part short_fill, tt));
    balanced =
        sum_from-append signed_size (pos 0) s.fills _
        ∙ opposite _ _ _ size l.balanced
            (signed_size-long c.long_part.0 size (ap is_long long_fill.side_eq ∙ v.long_side)
              long_fill.size_eq)
            (signed_size-short c.short_part.0 size (ap is_long short_fill.side_eq ∙ v.short_side)
              short_fill.size_eq);
    volume =
        rw
          (
            sum_from-append (λ (f : Fill). f.size) (pos 0) s.fills,
            sum_from-append (λ (e : MatchExecution). e.size) (pos 0) s.executions,
          )
          (doubled _ _ _ _ size l.volume long_fill.size_eq short_fill.size_eq);
  })
    where
      size : ℤ
      size = min long.remaining short.remaining

      price : ℤ
      price = execution_price long short

      long_fill : IsFillOf p input long size price (long_delta long short c.fees) c.long_part
      long_fill = create_fill-IsFillOf p input long _ _ _ _ c.long_eq

      short_fill : IsFillOf p input short size price (short_delta long short c.fees) c.short_part
      short_fill = create_fill-IsFillOf p input short _ _ _ _ c.short_eq

      executed :
          IsExecution (create_execution long short size price c.long_part.0 c.short_part.0 c.fees)
      executed =
          let (sp, pp, fe) = fill_fees-positive _ _ _ c.fees_eq in
          record {
            above_short = (execution_price_bounds long short crosses).0;
            below_long = (execution_price_bounds long short crosses).1;
            size_pos = sp;
            split = rw fe (split_fees-IsSplit _ (notional_nonneg size price (omega (arith, pp))));
          }

      backed :
          (o : BookOrder) (delta : ℤ) (part : Fill × BookOrder)
          → IsFillOf p input o size price delta part
          → IsBacked input.market part.0
      backed o delta part f = rw (f.size_eq, f.price_eq) f.margined
