-- ===== src/Matcher/Orders.antt =====
-- What stays true of an order while it is filled
-- (server/src/workers/batch-matcher/batch-matcher.service.ts).
use pnlx.Base.{ℕ, ◌+◌, ◌*◌, ◌/◌, ◌≤◌, ◌≡◌, refl, ap, ◌-◌, ◌<◌, arith, if◌then◌else◌}
use pnlx.Base.Int.{
  ℤ, pos, negsuc, ◌+ℤ◌, ◌-ℤ◌, ◌*ℤ◌, ◌≤ℤ◌, ◌<ℤ◌, leb_ℤ, negate, int_laws, pos-mul, pos-add, pos-sub,
  pos-div, -ℤ_parts,
}
use pnlx.Base.Result.{ok}
use pnlx.Protocol.Orders.{PrivateMatchIntent}
use pnlx.MarketMath.Margin.{notional}
use pnlx.MarketMath.Fees.{FillFees, split_fees, fill_fees}
use pnlx.Matcher.Book.{BookOrder, to_book_order}
use pnlx.Matcher.Fills.{min, ceil_div, allocate_margin}
use pnlx.Matcher.Loop.{take_size}

-- The filled and the remaining size add up to the order's, and the margin allocated so far is the
-- filled share of the order's margin, rounded up.
pub record IsFilling (o : BookOrder) : Type 0 where
  pub total : o.filled +ℤ o.remaining ≡ o.size
  pub filled_nonneg : pos 0 ≤ℤ o.filled
  pub remaining_nonneg : pos 0 ≤ℤ o.remaining
  pub size_pos : pos 0 <ℤ o.size
  pub margin_pos : pos 0 <ℤ o.intent.margin
  pub allocated : o.allocated_margin ≡ ceil_div (o.intent.margin *ℤ o.filled) o.size

ceil_div-pos : (v n : ℕ) → 0 < n → ceil_div (pos v) (pos n) ≡ pos ((v + n - 1) / n)
unfolding ceil_div
ceil_div-pos v n h = rw (pos-add v n, pos-sub (v + n) 1 (omega arith), pos-div (v + n - 1) n)

ceil_div-zero : (n : ℤ) → pos 0 <ℤ n → ceil_div (pos 0) n ≡ pos 0
ceil_div-zero (pos n) h = rw (ceil_div-pos 0 n (omega arith)) (ap pos (grind arith))
ceil_div-zero (negsuc n) h = absurd (omega arith)

-- The rounded share of a part is at most the whole, and the share of the whole is the whole.
share-le : (m f n : ℕ) → 0 < n → f ≤ n → (m * f + n - 1) / n ≤ m
share-le m f n h k = grind arith

share_all : (m n : ℕ) → 0 < n → (m * n + n - 1) / n ≡ m
share_all m n h = grind arith

mul-zero : (a : ℤ) → a *ℤ pos 0 ≡ pos 0
unfolding ◌*ℤ◌
mul-zero (pos a) = ground arith
mul-zero (negsuc a) = ground arith

share_bounds :
    (m f n : ℤ)
    → pos 0 ≤ℤ m
    → pos 0 ≤ℤ f
    → pos 0 <ℤ n
    → f ≤ℤ n
    → (pos 0 ≤ℤ ceil_div (m *ℤ f) n) × (ceil_div (m *ℤ f) n ≤ℤ m)
share_bounds (pos m) (pos f) (pos n) hm hf hn k =
    rw (pos-mul m f, ceil_div-pos (m * f) n (omega arith))
      (omega arith, omega (arith, share-le m f n (omega arith) (omega arith)))
share_bounds (pos m) (pos f) (negsuc n) hm hf hn k = absurd (omega arith)
share_bounds (pos m) (negsuc f) n hm hf hn k = absurd (omega arith)
share_bounds (negsuc m) f n hm hf hn k = absurd (omega arith)

filled-le-size : (f r n : ℤ) → f +ℤ r ≡ n → pos 0 ≤ℤ r → f ≤ℤ n
filled-le-size f r n e h = rw (← e) (omega int_laws)

filled_whole : (f r n : ℤ) → f +ℤ r ≡ n → r ≡ pos 0 → f ≡ n
filled_whole f r n e h = rw (← e, h) (omega int_laws)

share_whole : (m n : ℤ) → pos 0 ≤ℤ m → pos 0 <ℤ n → ceil_div (m *ℤ n) n ≡ m
share_whole (pos m) (pos n) hm hn =
    rw (pos-mul m n, ceil_div-pos (m * n) n (omega arith), share_all m n (omega arith))
share_whole (pos m) (negsuc n) hm hn = absurd (omega arith)
share_whole (negsuc m) n hm hn = absurd (omega arith)

zero_add_ℤ : (a : ℤ) → pos 0 +ℤ a ≡ a
zero_add_ℤ a = omega int_laws

abbrev magnitude : ℤ → ℤ
magnitude a = if leb_ℤ (pos 0) a then a else negate a

magnitude_nonneg : (a : ℤ) → pos 0 ≤ℤ magnitude a
magnitude_nonneg a = ground (arith, -ℤ_parts (pos 0) a)

-- A new order starts so.
pub to_book_order-IsFilling :
    (i : PrivateMatchIntent) (sequence : ℕ) (o : BookOrder)
    → to_book_order i sequence ≡ ok o
    → IsFilling o
unfolding to_book_order
to_book_order-IsFilling i sequence o h =
    let size = magnitude i.signed_size in
    record {
      total = ground (arith, zero_add_ℤ size);
      filled_nonneg = ground arith;
      remaining_nonneg = ground (arith, magnitude_nonneg i.signed_size);
      size_pos = ground (arith, magnitude_nonneg i.signed_size);
      margin_pos = ground arith;
      allocated =
          ground (arith, mul-zero i.margin, ceil_div-zero size, magnitude_nonneg i.signed_size);
    }

fill_total : (f r n s : ℤ) → f +ℤ r ≡ n → f +ℤ s +ℤ (r -ℤ s) ≡ n
fill_total f r n s h = rw (← h) (omega int_laws)

-- A fill of no more than what remains keeps it so.
pub take_size-IsFilling :
    (o : BookOrder) (size : ℤ)
    → IsFilling o
    → pos 0 ≤ℤ size
    → size ≤ℤ o.remaining
    → IsFilling (take_size (allocate_margin o size).1 size)
unfolding allocate_margin
take_size-IsFilling o size v h k = record {
  total = fill_total o.filled o.remaining o.size size v.total;
  filled_nonneg = omega (int_laws, v.filled_nonneg);
  remaining_nonneg = omega int_laws;
  size_pos = v.size_pos;
  margin_pos = v.margin_pos;
  allocated = refl;
}

pub min_bounds : (a b : ℤ) → (min a b ≤ℤ a) × (min a b ≤ℤ b)
unfolding min
min_bounds a b = ground arith

-- A fee is charged on a positive size at a positive price only.
pub fill_fees-positive :
    (size price : ℤ) (fees : FillFees)
    → fill_fees size price ≡ ok fees
    → (pos 0 <ℤ size) × (pos 0 <ℤ price) × (fees ≡ split_fees (notional size price))
unfolding fill_fees
fill_fees-positive size price fees h = ground arith

-- The margin allocated is never more than the order's, and is all of it once the order is filled.
pub allocated_bounds :
    (o : BookOrder)
    → IsFilling o
    → (pos 0 ≤ℤ o.allocated_margin) × (o.allocated_margin ≤ℤ o.intent.margin)
allocated_bounds o v = rw v.allocated (
    share_bounds o.intent.margin o.filled o.size (omega arith) v.filled_nonneg v.size_pos
      (filled-le-size o.filled o.remaining o.size v.total v.remaining_nonneg))

pub allocated_all :
    (o : BookOrder) → IsFilling o → o.remaining ≡ pos 0 → o.allocated_margin ≡ o.intent.margin
allocated_all o v h =
    rw (v.allocated, filled_whole o.filled o.remaining o.size v.total h)
      (share_whole o.intent.margin o.size (omega arith) v.size_pos)
