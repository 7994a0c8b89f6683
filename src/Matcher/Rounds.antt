-- ===== src/Matcher/Rounds.antt =====
-- What a successful round of the matching loop went through, and the rule of invariants for the
-- loop (server/src/workers/batch-matcher/batch-matcher.service.ts).
use pnlx.Base.{
  ℕ, zero, suc, ◌+◌, ◌≡◌, refl, subst, inl, inr, false, List, [], ◌∷◌, Option, none, some, arith,
  length, get_elem?, Bool-cases,
}
use pnlx.Base.Int.{ltb_ℤ}
use pnlx.Base.Result.{Result, ok, err, >>=-eq-ok}
use pnlx.Crypto.Primitives.{Primitives}
use pnlx.Protocol.Settlements.{Fill}
use pnlx.MarketMath.Fees.{FillFees, fill_fees}
use pnlx.Matcher.Model.{MatchInput}
use pnlx.Matcher.Book.{BookOrder}
use pnlx.Matcher.Fills.{min, create_fill, execution_price}
use pnlx.Matcher.Loop.{
  BookState, long_delta, short_delta, crossed, cross, round, fronts, after_cross, proceed,
  match_loop,
}

-- The two orders at the front of a state.
pub record AreFronts (s : BookState) (long short : BookOrder) : Type 0 where
  pub long_ref : ℕ
  pub longs_left : List ℕ
  pub short_ref : ℕ
  pub shorts_left : List ℕ
  pub longs_eq : s.longs ≡ long_ref ∷ longs_left
  pub shorts_eq : s.shorts ≡ short_ref ∷ shorts_left
  pub long_at : get_elem? s.orders long_ref ≡ some long
  pub short_at : get_elem? s.orders short_ref ≡ some short

pub fronts-AreFronts :
    (s : BookState) (ls ss : List ℕ) {long short : BookOrder}
    → s.longs ≡ ls
    → s.shorts ≡ ss
    → fronts s ls ss ≡ some (ok (long, short))
    → AreFronts s long short
unfolding fronts
fronts-AreFronts s [] ss el es h = cc
fronts-AreFronts s (l ∷ ls) [] el es h = cc
fronts-AreFronts s (l ∷ ls) (k ∷ ks) {long} {short} el es h = record {
  long_ref = l;
  longs_left = ls;
  short_ref = k;
  shorts_left = ks;
  longs_eq = el;
  shorts_eq = es;
  long_at = ground arith;
  short_at = ground arith;
}

some_ok_injective : {s t : BookState} → some (ok s) ≡ some (ok t) → s ≡ t
some_ok_injective h = cc

module _ (p : Primitives) (input : MatchInput) where
  -- A round that crossed two orders: its fees, its two fills and the state after it.
  pub record IsCross (s : BookState) (long short : BookOrder) (s' : BookState) : Type 0 where
    pub fees : FillFees
    pub long_part : Fill × BookOrder
    pub short_part : Fill × BookOrder
    pub fees_eq :
        fill_fees (min long.remaining short.remaining) (execution_price long short) ≡ ok fees
    pub long_eq :
        create_fill p input long
          (min long.remaining short.remaining)
          (execution_price long short)
          (length s.fills)
          (long_delta long short fees)
        ≡ ok long_part
    pub short_eq :
        create_fill p input short
          (min long.remaining short.remaining)
          (execution_price long short)
          (length s.fills + 1)
          (short_delta long short fees)
        ≡ ok short_part
    pub state_eq :
        s'
        ≡ crossed p input s long short
            (min long.remaining short.remaining)
            (execution_price long short)
            fees
            long_part
            short_part

  pub cross-IsCross :
      (s : BookState) (long short : BookOrder) {s' : BookState}
      → cross p input s long short ≡ ok s'
      → IsCross s long short s'
  unfolding cross
  cross-IsCross s long short h =
      let (fees, fe, h1) = >>=-eq-ok _ _ h in
      let (lp, le, h2) = >>=-eq-ok _ _ h1 in
      let (sp, se, h3) = >>=-eq-ok _ _ h2 in
      record {
        fees = fees;
        long_part = lp;
        short_part = sp;
        fees_eq = fe;
        long_eq = le;
        short_eq = se;
        state_eq = cc;
      }

  -- What every crossing keeps holds of the state that the loop returns.
  module _ {ℓ} (P : BookState → Type ℓ)
      (keep : (s s' : BookState) (long short : BookOrder)
        → P s
        → AreFronts s long short
        → ltb_ℤ long.intent.limit_price short.intent.limit_price ≡ false
        → IsCross s long short s'
        → P s') where
    after_cross_inv :
        (continue : BookState → Option (Result BookState))
        → ((s t : BookState) → continue s ≡ some (ok t) → P s → P t)
        → (s t : BookState) (long short : BookOrder) (r : Result BookState) → AreFronts s long short
        → ltb_ℤ long.intent.limit_price short.intent.limit_price ≡ false
        → cross p input s long short ≡ r
        → after_cross p input continue r ≡ some (ok t)
        → P s
        → P t
    unfolding after_cross
    after_cross_inv continue rest s t long short (ok s') f crosses e h i =
        rest s' t h (keep s s' long short i f crosses (cross-IsCross s long short e))
    after_cross_inv continue rest s t long short (err m) f crosses e h i = cc

    proceed_inv :
        (continue : BookState → Option (Result BookState))
        → ((s t : BookState) → continue s ≡ some (ok t) → P s → P t)
        → (s t : BookState) (r : Option (Result (BookOrder × BookOrder)))
        → fronts s s.longs s.shorts ≡ r
        → proceed p input continue s r ≡ some (ok t)
        → P s
        → P t
    unfolding proceed round
    proceed_inv continue rest s t none e h i = subst P (some_ok_injective h) i
    proceed_inv continue rest s t (some (err m)) e h i = cc
    proceed_inv continue rest s t (some (ok (long, short))) e h i =
        elim (Bool-cases (ltb_ℤ long.intent.limit_price short.intent.limit_price)) [
          | inl apart ↦ subst P (some_ok_injective (rw apart at h)) i
          | inr crosses ↦
              after_cross_inv continue rest s t long short (cross p input s long short)
                (fronts-AreFronts s s.longs s.shorts refl refl e) crosses refl (rw crosses at h) i
        ]

    pub match_loop_inv :
        (fuel : ℕ) (s t : BookState) → match_loop p input fuel s ≡ some (ok t) → P s → P t
    unfolding match_loop
    match_loop_inv zero s t h i = cc
    match_loop_inv (suc fuel) s t h i =
        proceed_inv (match_loop p input fuel) (match_loop_inv fuel) s t (fronts s s.longs s.shorts)
          refl h i
