-- ===== src/Matcher/Invariant.antt =====
-- What every round of the matching loop keeps of the book, the fills and the executions
-- (server/src/workers/batch-matcher/batch-matcher.service.ts).
use pnlx.Base.{
  ℕ, ◌≡◌, refl, sym, ◌∙◌, subst, inl, inr, Bool, true, false, List, [], ◌∷◌, some, arith, get_elem?,
  set, All, get_elem?-set, get_elem?-set_ne, ◌≢◌, Bool-cases,
}
use pnlx.Base.Int.{ℤ, pos, ◌≤ℤ◌, ◌<ℤ◌, ◌==ℤ◌}
use pnlx.Crypto.Primitives.{Primitives}
use pnlx.Protocol.Settlements.{Fill}
use pnlx.Matcher.Model.{MatchInput}
use pnlx.Matcher.Book.{BookOrder, is_long}
use pnlx.Matcher.Fills.{min, execution_price, allocate_margin}
use pnlx.Matcher.FillFacts.{IsFillOf, create_fill-IsFillOf}
use pnlx.Matcher.Loop.{BookState, advance, take_size, crossed, long_delta, short_delta}
use pnlx.Matcher.Orders.{IsFilling, take_size-IsFilling, min_bounds, fill_fees-positive}
use pnlx.Matcher.Rounds.{AreFronts, IsCross}

-- The order that a sequence number stands for.
pub record IsOrderAt (i : ℕ) (o : BookOrder) : Type 0 where
  pub sequence_eq : o.sequence ≡ i
  pub filling : IsFilling o

abbrev pub AreOrders : List BookOrder → Type 0
AreOrders orders = (i : ℕ) (o : BookOrder) → get_elem? orders i ≡ some o → IsOrderAt i o

-- The sequence numbers of a side stand for orders of that side.
abbrev pub OnSide : List BookOrder → Bool → ℕ → Type 0
OnSide orders b i = (o : BookOrder) → get_elem? orders i ≡ some o → is_long o.side ≡ b

pub record IsBook (s : BookState) : Type 0 where
  pub orders_ok : AreOrders s.orders
  pub longs_ok : All (OnSide s.orders true) s.longs
  pub shorts_ok : All (OnSide s.orders false) s.shorts

set-AreOrders :
    (orders : List BookOrder) (i : ℕ) (o : BookOrder)
    → AreOrders orders
    → IsOrderAt i o
    → AreOrders (set orders i o)
set-AreOrders orders i o h k j x e = elim (get_elem?-set orders i j o e) [
  | inl (ji, xo) ↦ rw (ji, xo) k
  | inr old ↦ h j x old
]

set-OnSide :
    (orders : List BookOrder) (i : ℕ) (b : Bool) (old o : BookOrder)
    → get_elem? orders i ≡ some old
    → o.side ≡ old.side
    → (r : ℕ) → OnSide orders b r
    → OnSide (set orders i o) b r
set-OnSide orders i b old o at same r h x e = elim (get_elem?-set orders i r o e) [
  | inl (ri, xo) ↦ rw (xo, same) (h old (rw ri at))
  | inr kept ↦ h x kept
]

All-OnSide :
    (orders : List BookOrder) (i : ℕ) (b : Bool) (old o : BookOrder)
    → get_elem? orders i ≡ some old
    → o.side ≡ old.side
    → (refs : List ℕ) → All (OnSide orders b) refs
    → All (OnSide (set orders i o) b) refs
All-OnSide orders i b old o at same [] h = tt
All-OnSide orders i b old o at same (r ∷ refs) h =
    (set-OnSide orders i b old o at same r h.0, All-OnSide orders i b old o at same refs h.1)

advance-All : (P : ℕ → Type 0) (o : BookOrder) (refs : List ℕ) → All P refs → All P (advance o refs)
advance-All P o [] h = tt
advance-All P o (r ∷ refs) h = elim (Bool-cases (o.remaining ==ℤ pos 0)) [
  | inl done ↦ rw done h.1
  | inr more ↦ rw more h
]

-- What the book says of the two orders at the front.
pub record AreKnown (s : BookState) (long short : BookOrder) : Type 0 where
  pub long_at : get_elem? s.orders long.sequence ≡ some long
  pub short_at : get_elem? s.orders short.sequence ≡ some short
  pub long_ok : IsOrderAt long.sequence long
  pub short_ok : IsOrderAt short.sequence short
  pub long_side : is_long long.side ≡ true
  pub short_side : is_long short.side ≡ false

All-head : (P : ℕ → Type 0) {refs rest : List ℕ} {r : ℕ} → refs ≡ r ∷ rest → All P refs → P r
All-head P e h = (subst (All P) e h).0

pub fronts-AreKnown :
    (s : BookState) (long short : BookOrder)
    → IsBook s
    → AreFronts s long short
    → AreKnown s long short
fronts-AreKnown s long short b f =
    let l = b.orders_ok f.long_ref long f.long_at in
    let k = b.orders_ok f.short_ref short f.short_at in
    record {
      long_at = subst (λ i. get_elem? s.orders i ≡ some long) (sym l.sequence_eq) f.long_at;
      short_at = subst (λ i. get_elem? s.orders i ≡ some short) (sym k.sequence_eq) f.short_at;
      long_ok = record { sequence_eq = refl; filling = l.filling };
      short_ok = record { sequence_eq = refl; filling = k.filling };
      long_side = All-head (OnSide s.orders true) f.longs_eq b.longs_ok long f.long_at;
      short_side = All-head (OnSide s.orders false) f.shorts_eq b.shorts_ok short f.short_at;
    }

pub fronts_apart :
    (s : BookState) (long short : BookOrder)
    → AreKnown s long short
    → long.sequence ≢ short.sequence
fronts_apart s long short v e = grind (arith, v.long_at, v.short_at, v.long_side, v.short_side)

module _ (p : Primitives) (input : MatchInput) where
  -- An order after its fill, still in its place.
  filled-IsOrderAt :
      (i : ℕ) (o : BookOrder) (size price delta : ℤ) (part : Fill × BookOrder)
      → IsOrderAt i o
      → IsFillOf p input o size price delta part
      → pos 0 ≤ℤ size
      → size ≤ℤ o.remaining
      → IsOrderAt i (take_size part.1 size)
  unfolding allocate_margin
  filled-IsOrderAt i o size price delta part v f h k =
      rw f.left_eq
        (record { sequence_eq = v.sequence_eq; filling = take_size-IsFilling o size v.filling h k })

  left_side :
      (o : BookOrder) (size price delta : ℤ) (part : Fill × BookOrder)
      → IsFillOf p input o size price delta part
      → part.1.side ≡ o.side
  unfolding allocate_margin
  left_side o size price delta part f = rw f.left_eq refl

  -- A round keeps the book.
  pub round-IsBook :
      (s s' : BookState) (long short : BookOrder)
      → IsBook s
      → AreFronts s long short
      → IsCross p input s long short s'
      → IsBook s'
  unfolding crossed
  round-IsBook s s' long short b f c = rw c.state_eq (record {
    orders_ok = set-AreOrders _ _ _ (set-AreOrders _ _ _ b.orders_ok long_done) short_done;
    longs_ok = advance-All _ (take_size c.long_part.1 size) s.longs (kept true s.longs b.longs_ok);
    shorts_ok =
        advance-All _ (take_size c.short_part.1 size) s.shorts (kept false s.shorts b.shorts_ok);
  })
    where
      v : AreKnown s long short
      v = fronts-AreKnown s long short b f

      size : ℤ
      size = min long.remaining short.remaining

      positive : pos 0 <ℤ size
      positive = (fill_fees-positive _ _ _ c.fees_eq).0

      long_fill :
          IsFillOf p input long size
            (execution_price long short)
            (long_delta long short c.fees)
            c.long_part
      long_fill = create_fill-IsFillOf p input long _ _ _ _ c.long_eq

      short_fill :
          IsFillOf p input short size
            (execution_price long short)
            (short_delta long short c.fees)
            c.short_part
      short_fill = create_fill-IsFillOf p input short _ _ _ _ c.short_eq

      long_done : IsOrderAt long.sequence (take_size c.long_part.1 size)
      long_done =
          filled-IsOrderAt _ long _ _ _ c.long_part v.long_ok long_fill (omega (arith, positive))
            (min_bounds long.remaining short.remaining).0

      short_done : IsOrderAt short.sequence (take_size c.short_part.1 size)
      short_done =
          filled-IsOrderAt _ short _ _ _ c.short_part v.short_ok short_fill
            (omega (arith, positive)) (min_bounds long.remaining short.remaining).1

      kept :
          (side : Bool) (refs : List ℕ)
          → All (OnSide s.orders side) refs
          → All
              (OnSide
                (set
                  (set s.orders long.sequence (take_size c.long_part.1 size))
                  short.sequence
                  (take_size c.short_part.1 size))
                side)
              refs
      kept side refs h =
          All-OnSide _ short.sequence side short _
            (get_elem?-set_ne s.orders long.sequence short.sequence _ (fronts_apart s long short v)
              ∙ v.short_at)
            (left_side short _ _ _ c.short_part short_fill) refs
            (All-OnSide s.orders long.sequence side long _ v.long_at
              (left_side long _ _ _ c.long_part long_fill) refs h)
