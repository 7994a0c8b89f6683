-- ===== src/Matcher/Priority.antt =====
-- The order in which the matcher takes the orders of a side
-- (server/src/workers/batch-matcher/batch-matcher.service.ts).
use mathlib.Core.List.{Perm}
use pnlx.Base.{◌≤◌, ◌≡◌, sym, ap, not, true, false, List, arith, filter_by}
use pnlx.Base.Int.{ℤ, pos, pos_part, neg_part, eq_of_parts, ◌-ℤ◌, ◌≤ℤ◌, leb_ℤ}
use pnlx.Base.Sorted.{IsSorted, sort_by-IsSorted, sort_by-Perm}
use pnlx.Matcher.Book.{
  BookOrder, is_long, compare_long_priority, compare_short_priority, sorted_longs, sorted_shorts,
}

-- A buyer who bids more comes first, and of those who bid the same the one whose intent came first.
pub record BuysBefore (a b : BookOrder) : Type 0 where
  pub price_le : b.intent.limit_price ≤ℤ a.intent.limit_price
  pub tie : a.intent.limit_price ≡ b.intent.limit_price → a.sequence ≤ b.sequence

-- A seller who asks less comes first, and of those who ask the same the one whose intent came first.
pub record SellsBefore (a b : BookOrder) : Type 0 where
  pub price_le : a.intent.limit_price ≤ℤ b.intent.limit_price
  pub tie : a.intent.limit_price ≡ b.intent.limit_price → a.sequence ≤ b.sequence

-- Prices in order whose ends are equal are all equal.
between : (p q r : ℤ) → p ≤ℤ q → q ≤ℤ r → p ≡ r → (p ≡ q) × (q ≡ r)
between p q r h k e = (
  eq_of_parts p q (omega (arith, ap pos_part e, ap neg_part e)),
  eq_of_parts q r (omega (arith, ap pos_part e, ap neg_part e)),
)

long_below : (a b : BookOrder) → leb_ℤ (compare_long_priority a b) (pos 0) ≡ true → BuysBefore a b
unfolding compare_long_priority ◌-ℤ◌
long_below a b h = ground arith

long_above : (a b : BookOrder) → leb_ℤ (compare_long_priority a b) (pos 0) ≡ false → BuysBefore b a
unfolding compare_long_priority ◌-ℤ◌
long_above a b h = ground arith

long_trans : (a b c : BookOrder) → BuysBefore a b → BuysBefore b c → BuysBefore a c
long_trans a b c h k = record {
  price_le = omega (arith, h.price_le, k.price_le);
  tie = λ e.
      let same =
        between c.intent.limit_price b.intent.limit_price a.intent.limit_price k.price_le h.price_le
          (sym e) in
      omega (arith, h.tie (sym same.1), k.tie (sym same.0));
}

short_below :
    (a b : BookOrder) → leb_ℤ (compare_short_priority a b) (pos 0) ≡ true → SellsBefore a b
unfolding compare_short_priority ◌-ℤ◌
short_below a b h = ground arith

short_above :
    (a b : BookOrder) → leb_ℤ (compare_short_priority a b) (pos 0) ≡ false → SellsBefore b a
unfolding compare_short_priority ◌-ℤ◌
short_above a b h = ground arith

short_trans : (a b c : BookOrder) → SellsBefore a b → SellsBefore b c → SellsBefore a c
short_trans a b c h k = record {
  price_le = omega (arith, h.price_le, k.price_le);
  tie = λ e.
      let same =
        between a.intent.limit_price b.intent.limit_price c.intent.limit_price h.price_le k.price_le
          e in
      omega (arith, h.tie same.0, k.tie same.1);
}

-- The two sides of the book hold just the long and the short orders, in price-time priority: the
-- longs from the highest limit price down and the shorts from the lowest up, and orders of one price
-- in the order of their intents.
pub sides_in_priority :
    (orders : List BookOrder)
    → IsSorted BuysBefore (sorted_longs orders)
      × Perm (sorted_longs orders) (filter_by (λ o. is_long o.side) orders)
      × IsSorted SellsBefore (sorted_shorts orders)
      × Perm (sorted_shorts orders) (filter_by (λ o. not (is_long o.side)) orders)
unfolding sorted_longs sorted_shorts
sides_in_priority orders = (
  sort_by-IsSorted compare_long_priority BuysBefore long_below long_above long_trans
      (filter_by (λ o. is_long o.side) orders),
  sort_by-Perm compare_long_priority (filter_by (λ o. is_long o.side) orders),
  sort_by-IsSorted compare_short_priority SellsBefore short_below short_above short_trans
      (filter_by (λ o. not (is_long o.side)) orders),
  sort_by-Perm compare_short_priority (filter_by (λ o. not (is_long o.side)) orders),
)
