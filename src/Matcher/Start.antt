-- ===== src/Matcher/Start.antt =====
-- The book before the first round (server/src/workers/batch-matcher/batch-matcher.service.ts).
use pnlx.Base.{
  subst, ℕ, zero, suc, ◌+◌, ◌≡◌, refl, sym, ◌∙◌, Bool, true, false, not, List, [], ◌∷◌, some, map,
  arith, All, get_elem?,
}
use pnlx.Base.Int.{int_laws}
use pnlx.Base.Lists.{All-filter_by}
use pnlx.Base.Sort.{All-sort_by}
use pnlx.Base.Result.{ok, >>=-eq-ok}
use pnlx.Crypto.Primitives.{Primitives}
use pnlx.Protocol.Orders.{PrivateMatchIntent}
use pnlx.Matcher.Model.{MatchInput}
use pnlx.Matcher.Book.{
  BookOrder, to_book_order, to_book_orders, is_long, compare_long_priority, compare_short_priority,
  sorted_longs, sorted_shorts,
}
use pnlx.Matcher.Orders.{to_book_order-IsFilling}
use pnlx.Matcher.Invariant.{IsOrderAt, AreOrders, OnSide, IsBook}
use pnlx.Matcher.Executions.{IsLedger}
use pnlx.Matcher.Summary.{initial_state}

some_injective : {a b : BookOrder} → some a ≡ some b → a ≡ b
some_injective e = cc

module _ {ℓ} {A : Type 0} (P : A → Type ℓ) where
  All-of_get : (xs : List A) → ((i : ℕ) (x : A) → get_elem? xs i ≡ some x → P x) → All P xs
  All-of_get [] h = tt
  All-of_get (x ∷ xs) h = (h zero x refl, All-of_get xs (λ i. h (suc i)))

to_book_order-sequence :
    (i : PrivateMatchIntent) (sequence : ℕ) (o : BookOrder)
    → to_book_order i sequence ≡ ok o
    → o.sequence ≡ sequence
unfolding to_book_order
to_book_order-sequence i sequence o h = ground arith

no_orders :
    (k : ℕ) (orders : List BookOrder)
    → to_book_orders [] k ≡ ok orders
    → (i : ℕ) (o : BookOrder) → get_elem? orders i ≡ some o
    → ⊥
unfolding to_book_orders
no_orders k [] h i o e = cc
no_orders k (x ∷ orders) h i o e = cc

pub to_book_orders-cons :
    (x : PrivateMatchIntent) (xs : List PrivateMatchIntent) (k : ℕ) {orders : List BookOrder}
    → to_book_orders (x ∷ xs) k ≡ ok orders
    → (o : BookOrder) × (rest : List BookOrder) × (to_book_order x k ≡ ok o)
      × (to_book_orders xs (suc k) ≡ ok rest)
      × (orders ≡ o ∷ rest)
unfolding to_book_orders
to_book_orders-cons x xs k h =
    let (o, e, h1) = >>=-eq-ok (to_book_order x k) _ h in
    let (rest, e', h2) = >>=-eq-ok (to_book_orders xs (suc k)) _ h1 in (o, rest, e, e', cc)

module _ (x : PrivateMatchIntent) (k : ℕ) where
  head-IsOrderAt : (o : BookOrder) → to_book_order x k ≡ ok o → IsOrderAt k o
  head-IsOrderAt o e = record {
    sequence_eq = to_book_order-sequence x k o e;
    filling = to_book_order-IsFilling x k o e;
  }

at_index :
    (x : PrivateMatchIntent) (k : ℕ) (o first : BookOrder) (rest : List BookOrder)
    → to_book_order x k ≡ ok first
    → ((j : ℕ) → get_elem? rest j ≡ some o → IsOrderAt (suc k + j) o)
    → (i : ℕ) → get_elem? (first ∷ rest) i ≡ some o
    → IsOrderAt (k + i) o
at_index x k o first rest fe later zero e =
    let here : k + 0 ≡ k = omega arith in
    rw here (subst (IsOrderAt k) (some_injective e) (head-IsOrderAt x k first fe))
at_index x k o first rest fe later (suc i) e =
    let next : k + suc i ≡ suc k + i = omega arith in rw next (later i e)

-- The book holds the orders by number, and no order has a fill yet.
pub to_book_orders-AreOrders :
    (intents : List PrivateMatchIntent) (k : ℕ) (orders : List BookOrder)
    → to_book_orders intents k ≡ ok orders
    → (i : ℕ) (o : BookOrder) → get_elem? orders i ≡ some o
    → IsOrderAt (k + i) o
to_book_orders-AreOrders [] k orders h i o e = absurd (no_orders k orders h i o e)
to_book_orders-AreOrders (x ∷ xs) k orders h i o e =
    let (first, rest, fe, re, oe) = to_book_orders-cons x xs k h in
    at_index x k o first rest fe (λ j. to_book_orders-AreOrders xs (suc k) rest re j o) i
      (rw oe at e)

pub book-AreOrders :
    (intents : List PrivateMatchIntent) (orders : List BookOrder)
    → to_book_orders intents 0 ≡ ok orders
    → AreOrders orders
book-AreOrders intents orders h i o e =
    let start : 0 + i ≡ i = omega arith in
    subst (λ j. IsOrderAt j o) start (to_book_orders-AreOrders intents 0 orders h i o e)

-- An order of the book, found under its own number.
abbrev IsFound : List BookOrder → BookOrder → Type 0
IsFound orders o = get_elem? orders o.sequence ≡ some o

All-IsFound : (orders : List BookOrder) → AreOrders orders → All (IsFound orders) orders
All-IsFound orders h =
    All-of_get (IsFound orders) orders
      λ i o e. subst (λ j. get_elem? orders j ≡ some o) (sym (h i o e).sequence_eq) e

refs-OnSide :
    (orders : List BookOrder) (b : Bool) (side : List BookOrder)
    → All (λ o. IsFound orders o × (is_long o.side ≡ b)) side
    → All (OnSide orders b) (map (λ o. o.sequence) side)
refs-OnSide orders b [] h = tt
refs-OnSide orders b (o ∷ side) h = (
  λ x e. subst (λ y. is_long y.side ≡ b) (some_injective (sym h.0.0 ∙ e)) h.0.1,
  refs-OnSide orders b side h.1,
)

short_side :
    (orders side : List BookOrder)
    → All (λ o. IsFound orders o × (not (is_long o.side) ≡ true)) side
    → All (λ o. IsFound orders o × (is_long o.side ≡ false)) side
short_side orders [] h = tt
short_side orders (o ∷ side) h = ((h.0.0, ground arith), short_side orders side h.1)

module _ (p : Primitives) (input : MatchInput) where
  pub initial_state-IsBook :
      (orders : List BookOrder) → AreOrders orders → IsBook (initial_state p input orders)
  unfolding initial_state sorted_longs sorted_shorts
  initial_state-IsBook orders h = record {
    orders_ok = h;
    longs_ok = refs-OnSide orders true _ (
        All-sort_by _ compare_long_priority _
          (All-filter_by _ (λ o. is_long o.side) orders (All-IsFound orders h)));
    shorts_ok = refs-OnSide orders false _ (
        All-sort_by _ compare_short_priority _ (
          short_side orders _
            (All-filter_by _ (λ o. not (is_long o.side)) orders (All-IsFound orders h))));
  }

  pub initial_state-IsLedger :
      (orders : List BookOrder) → IsLedger input.market (initial_state p input orders)
  unfolding initial_state
  initial_state-IsLedger orders = record {
    executions_ok = tt;
    fills_ok = tt;
    balanced = refl;
    volume = omega int_laws;
  }
