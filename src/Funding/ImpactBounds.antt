-- ===== src/Funding/ImpactBounds.antt =====
-- The impact price lies within the limit prices of the book
-- (server/src/workers/funding-engine/funding-engine.service.ts).
use native.Mathlib.Nat.{
  mul-le-mul_left, le-div_iff_mul-le, div-lt_iff_lt-mul, mul_comm, mul-add, suc-mul,
}
use pnlx.Base.{
  ℕ, suc, ◌*◌, ◌+◌, ◌/◌, ◌≤◌, ◌<◌, ◌≡◌, Bool-cases, inl, inr, String, List, [], ◌∷◌, ◌||◌, some,
  arith, zero, refl,
}
use pnlx.Base.Lists.{All}
use pnlx.Base.Sort.{sort_by, All-sort_by}
use pnlx.Base.Int.{ℤ, leb_ℤ, pos, negsuc, ◌+ℤ◌, ◌*ℤ◌, ◌≤ℤ◌, ◌<ℤ◌, pos-mul, pos-div, pos-add}
use pnlx.Base.Result.{ok}
use pnlx.Protocol.Orders.{PrivateMatchIntent}
use pnlx.Funding.Impact.{
  BookSide, ImpactFill, no_fill, is_unusable, take_size, take_from, impact_loop, average_price,
  compare_impact, impact_execution_price,
}

module _ (low high : ℕ) where
  abbrev IsPriced : PrivateMatchIntent → Type 0
  IsPriced i = (pos low ≤ℤ i.limit_price) × (i.limit_price ≤ℤ pos high)

  -- The average of what is filled lies between the two prices.
  record IsBetween (t : ImpactFill) : Type 0 where
    size : ℕ
    total : ℕ
    size-eq : t.filled_size ≡ pos size
    total-eq : t.price_size ≡ pos total
    above : low * size ≤ total
    below : total ≤ high * size

  more :
      (size total n price : ℕ)
      → low * size ≤ total
      → total ≤ high * size
      → low ≤ price
      → price ≤ high
      → (low * (size + n) ≤ total + n * price) × (total + n * price ≤ high * (size + n))
  more size total n price a b c d = (
    omega (arith, mul-add low size n, mul_comm low n, mul-le-mul_left n c),
    omega (arith, mul-add high size n, mul_comm high n, mul-le-mul_left n d),
  )

  taken-IsBetween :
      (size price : ℤ) (t u : ImpactFill)
      → IsBetween t
      → pos 0 <ℤ size
      → pos low ≤ℤ price
      → price ≤ℤ pos high
      → u.filled_size ≡ t.filled_size +ℤ size
      → u.price_size ≡ t.price_size +ℤ size *ℤ price
      → IsBetween u
  taken-IsBetween (pos n) (pos price) t u b s l h e f = record {
    size = b.size + n;
    total = b.total + n * price;
    size-eq = rw (e, b.size-eq) (pos-add b.size n);
    total-eq = rw (f, b.total-eq, pos-mul n price) (pos-add b.total (n * price));
    above = (more b.size b.total n price b.above b.below (omega arith) (omega arith)).0;
    below = (more b.size b.total n price b.above b.below (omega arith) (omega arith)).1;
  }
  taken-IsBetween (negsuc n) price t u b s l h e f = absurd (omega arith)
  taken-IsBetween size (negsuc n) t u b s l h e f = absurd (omega arith)

  no_fill-IsBetween : IsBetween no_fill
  no_fill-IsBetween = record {
    size = 0;
    total = 0;
    size-eq = refl;
    total-eq = refl;
    above = omega arith;
    below = omega arith;
  }

  impact_loop-IsBetween :
      (impact_notional : ℤ) (intents : List PrivateMatchIntent) (t : ImpactFill)
      → All IsPriced intents
      → IsBetween t
      → IsBetween (impact_loop impact_notional intents t)
  unfolding impact_loop take_from
  impact_loop-IsBetween impact_notional [] t h b = b
  impact_loop-IsBetween impact_notional (i ∷ is) t h b =
      let size = take_size impact_notional i t in
      elim (Bool-cases (is_unusable i || leb_ℤ size (pos 0))) [
        | inl e ↦ rw e (impact_loop-IsBetween impact_notional is t h.1 b)
        | inr e ↦
            let c =
              taken-IsBetween size i.limit_price t (take_from size i t) b (ground (arith, e)) h.0.0
                h.0.1 refl refl in
            elim (Bool-cases (leb_ℤ impact_notional (take_from size i t).filled_notional)) [
              | inl f ↦ rw (e, f) c
              | inr f ↦
                  rw (e, f) (impact_loop-IsBetween impact_notional is (take_from size i t) h.1 c)
            ]
      ]

  quotient-bounds :
      (size total : ℕ)
      → zero < size
      → low * size ≤ total
      → total ≤ high * size
      → (pos low ≤ℤ pos (total / size)) × (pos (total / size) ≤ℤ pos high)
  quotient-bounds size total p a b =
      let below : total < suc high * size = omega (arith, suc-mul high size) in
      (omega (arith, (le-div_iff_mul-le p).1 a), omega (arith, (div-lt_iff_lt-mul p).1 below))

  average_price-bounds :
      (impact_notional price : ℤ) (t : ImpactFill)
      → IsBetween t
      → average_price impact_notional t ≡ some price
      → (pos low ≤ℤ price) × (price ≤ℤ pos high)
  unfolding average_price
  average_price-bounds impact_notional price t b h = ground (
    arith,
    h,
    quotient-bounds b.size b.total (ground (arith, h, b.size-eq)) b.above b.below,
    b.size-eq,
    b.total-eq,
    pos-div b.total b.size,
  )

-- When every limit price of a side of the book lies between two bounds, so does its impact price.
pub impact_execution_price_bounds :
    (low high : ℕ) (locale_compare : String → String → ℤ) (intents : List PrivateMatchIntent)
    (impact_notional price : ℤ) (side : BookSide)
    → All (λ i. (pos low ≤ℤ i.limit_price) × (i.limit_price ≤ℤ pos high)) intents
    → impact_execution_price locale_compare intents impact_notional side ≡ ok (some price)
    → (pos low ≤ℤ price) × (price ≤ℤ pos high)
unfolding impact_execution_price
impact_execution_price_bounds low high locale_compare intents impact_notional price side h e =
    let ordered = sort_by (compare_impact locale_compare side) intents in
    average_price-bounds low high impact_notional price
      (impact_loop impact_notional ordered no_fill)
      (impact_loop-IsBetween low high impact_notional ordered no_fill
        (All-sort_by (IsPriced low high) (compare_impact locale_compare side) intents h)
        (no_fill-IsBetween low high))
      (ground (arith, e))
