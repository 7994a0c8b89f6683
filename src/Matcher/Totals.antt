-- ===== src/Matcher/Totals.antt =====
-- The two sides' sizes in what the matcher returns, from the intents
-- (server/src/workers/batch-matcher/batch-matcher.service.ts).
use pnlx.Base.{
  ℕ, zero, suc, ◌≡◌, refl, ◌∙◌, ap, Bool, true, false, not, List, [], ◌∷◌, some, map, arith,
  filter_by, get_elem?, get_elem?-set_ne, set, if◌then◌else◌,
}
use pnlx.Base.Int.{ℤ, pos, ◌+ℤ◌, leb_ℤ, negate, int_laws}
use pnlx.Base.Result.{ok}
use pnlx.Crypto.Primitives.{Primitives}
use pnlx.Protocol.Orders.{PrivateMatchIntent, Side}
use pnlx.Protocol.Settlements.{Fill}
use pnlx.Matcher.Model.{MatchInput}
use pnlx.Matcher.Book.{BookOrder, is_long, to_book_order, to_book_orders}
use pnlx.Matcher.Fills.{min, allocate_margin}
use pnlx.Matcher.FillFacts.{IsFillOf, create_fill-IsFillOf}
use pnlx.Matcher.Loop.{BookState, crossed, take_size}
use pnlx.Matcher.Rounds.{AreFronts, IsCross}
use pnlx.Matcher.Start.{to_book_orders-cons}
use pnlx.Matcher.Invariant.{IsBook, fronts-AreKnown, fronts_apart}
use pnlx.Matcher.Summary.{sum_from, sum_by, side_total}

-- What the intents ask to buy and to sell.
abbrev pub to_buy : PrivateMatchIntent → ℤ
to_buy i = if leb_ℤ (pos 0) i.signed_size then i.signed_size else pos 0

abbrev pub to_sell : PrivateMatchIntent → ℤ
to_sell i = if leb_ℤ (pos 0) i.signed_size then pos 0 else negate i.signed_size

-- The side and the size of an order, which no fill changes.
abbrev pub stake : BookOrder → Side × ℤ
stake o = (o.side, o.size)

abbrev stake_on : Bool → Side × ℤ → ℤ
stake_on true k = if is_long k.0 then k.1 else pos 0
stake_on false k = if is_long k.0 then pos 0 else k.1

set-stake :
    (os : List BookOrder) (i : ℕ) (old new : BookOrder)
    → get_elem? os i ≡ some old
    → stake new ≡ stake old
    → map stake (set os i new) ≡ map stake os
set-stake [] i old new e h = refl
set-stake (o ∷ os) zero old new e h = cc (e, h)
set-stake (o ∷ os) (suc i) old new e h = ap (λ ks. stake o ∷ ks) (set-stake os i old new e h)

add_nothing : (a : ℤ) → a +ℤ pos 0 ≡ a
add_nothing a = omega int_laws

longs_total :
    (os : List BookOrder) (a : ℤ)
    → sum_from (λ (o : BookOrder). o.size) a (filter_by (λ o. is_long o.side) os)
      ≡ sum_from (stake_on true) a (map stake os)
longs_total [] a = refl
longs_total (o ∷ os) a =
    ground (arith, add_nothing a, longs_total os a, longs_total os (a +ℤ o.size))

shorts_total :
    (os : List BookOrder) (a : ℤ)
    → sum_from (λ (o : BookOrder). o.size) a (filter_by (λ o. not (is_long o.side)) os)
      ≡ sum_from (stake_on false) a (map stake os)
shorts_total [] a = refl
shorts_total (o ∷ os) a =
    ground (arith, add_nothing a, shorts_total os a, shorts_total os (a +ℤ o.size))

order_to_buy :
    (x : PrivateMatchIntent) (k : ℕ) (o : BookOrder)
    → to_book_order x k ≡ ok o
    → stake_on true (stake o) ≡ to_buy x
unfolding to_book_order
order_to_buy x k o h = ground arith

order_to_sell :
    (x : PrivateMatchIntent) (k : ℕ) (o : BookOrder)
    → to_book_order x k ≡ ok o
    → stake_on false (stake o) ≡ to_sell x
unfolding to_book_order
order_to_sell x k o h = ground arith

-- A sum over the stakes of the book's orders is the sum over the intents.
stakes-intents :
    (f : Side × ℤ → ℤ) (g : PrivateMatchIntent → ℤ)
    → ((x : PrivateMatchIntent) (k : ℕ) (o : BookOrder)
        → to_book_order x k ≡ ok o
        → f (stake o) ≡ g x)
    → (xs : List PrivateMatchIntent) (k : ℕ) (orders : List BookOrder) (a : ℤ)
    → to_book_orders xs k ≡ ok orders
    → sum_from f a (map stake orders) ≡ sum_from g a xs
unfolding to_book_orders
stakes-intents f g same [] k [] a h = refl
stakes-intents f g same [] k (o ∷ orders) a h = cc
stakes-intents f g same (x ∷ xs) k orders a h =
    let (o, rest, oe, re, e) = to_book_orders-cons x xs k h in
    rw e (
      ap (λ b. sum_from f (a +ℤ b) (map stake rest)) (same x k o oe)
      ∙ stakes-intents f g same xs (suc k) rest (a +ℤ g x) re)

module _ (p : Primitives) (input : MatchInput) where
  left-stake :
      (o : BookOrder) (size price delta : ℤ) (part : Fill × BookOrder)
      → IsFillOf p input o size price delta part
      → stake (take_size part.1 size) ≡ stake o
  unfolding allocate_margin
  left-stake o size price delta part f = rw f.left_eq refl

  -- A round changes no stake.
  pub round-stakes :
      (s s' : BookState) (long short : BookOrder)
      → IsBook s
      → AreFronts s long short
      → IsCross p input s long short s'
      → map stake s'.orders ≡ map stake s.orders
  unfolding crossed
  round-stakes s s' long short b f c =
      let v = fronts-AreKnown s long short b f in
      let long_fill = create_fill-IsFillOf p input long _ _ _ _ c.long_eq in
      let short_fill = create_fill-IsFillOf p input short _ _ _ _ c.short_eq in
      let short_at =
        get_elem?-set_ne s.orders long.sequence short.sequence
          (take_size c.long_part.1 (min long.remaining short.remaining))
          (fronts_apart s long short v)
        ∙ v.short_at in
      rw c.state_eq (
        set-stake _ short.sequence short _ short_at (left-stake short _ _ _ c.short_part short_fill)
        ∙ set-stake s.orders long.sequence long _ v.long_at
            (left-stake long _ _ _ c.long_part long_fill))

-- The two totals of a book whose stakes are those of the intents' orders.
pub side_total-intents :
    (intents : List PrivateMatchIntent) (orders book : List BookOrder)
    → to_book_orders intents 0 ≡ ok orders
    → map stake book ≡ map stake orders
    → (side_total true book ≡ sum_by to_buy intents)
      × (side_total false book ≡ sum_by to_sell intents)
side_total-intents intents orders book h e = (
  longs_total book (pos 0)
      ∙ ap (sum_from (stake_on true) (pos 0)) e
      ∙ stakes-intents (stake_on true) to_buy order_to_buy intents 0 orders (pos 0) h,
  shorts_total book (pos 0)
      ∙ ap (sum_from (stake_on false) (pos 0)) e
      ∙ stakes-intents (stake_on false) to_sell order_to_sell intents 0 orders (pos 0) h,
)
