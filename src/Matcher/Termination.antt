-- ===== src/Matcher/Termination.antt =====
-- The matching loop stops (server/src/workers/batch-matcher/batch-matcher.service.ts): every round
-- that crosses two orders leaves one of them with nothing, and takes it off its side.
use pnlx.Base.{
  ℕ, zero, suc, ◌+◌, ◌≤◌, ◌<◌, ◌≡◌, refl, true, List, [], ◌∷◌, Option, none, some, arith, length,
  Bool-cases, inl, inr, ◌⊎◌,
}
use pnlx.Base.Int.{ℤ, pos, ◌-ℤ◌, ltb_ℤ, ◌==ℤ◌, -ℤ_parts}
use pnlx.Base.Result.{Result, ok, err}
use pnlx.Crypto.Primitives.{Primitives}
use pnlx.Protocol.Settlements.{Fill}
use pnlx.Matcher.Model.{MatchInput}
use pnlx.Matcher.Book.{BookOrder}
use pnlx.Matcher.Fills.{min, execution_price, allocate_margin}
use pnlx.Matcher.FillFacts.{IsFillOf, create_fill-IsFillOf}
use pnlx.Matcher.Loop.{
  BookState, advance, take_size, crossed, cross, after_cross, round, proceed, fronts, match_loop,
  long_delta, short_delta,
}
use pnlx.Matcher.Rounds.{AreFronts, fronts-AreFronts, IsCross, cross-IsCross}
use pnlx.Matcher.Summary.{initial_state, enough_fuel, run_book}

length-advance : (o : BookOrder) (refs : List ℕ) → length (advance o refs) ≤ length refs
length-advance o [] = omega arith
length-advance o (r ∷ refs) = ground arith

length-advance_done :
    (o : BookOrder) (r : ℕ) (refs : List ℕ)
    → (o.remaining ==ℤ pos 0) ≡ true
    → length (advance o (r ∷ refs)) ≡ length refs
length-advance_done o r refs h = rw h refl

sub_self : (a : ℤ) → (a -ℤ a ==ℤ pos 0) ≡ true
sub_self a = ground (arith, -ℤ_parts a a)

-- One of the two orders has nothing left.
min_spends : (a b : ℤ) → ((a -ℤ min a b ==ℤ pos 0) ≡ true) ⊎ ((b -ℤ min a b ==ℤ pos 0) ≡ true)
unfolding min
min_spends a b = elim (Bool-cases (ltb_ℤ a b)) [
  | inl e ↦ rw e (inl (sub_self a))
  | inr e ↦ rw e (inr (sub_self b))
]

-- A side whose front order is spent gets shorter.
spent_front :
    (o : BookOrder) (r : ℕ) (refs all : List ℕ)
    → all ≡ r ∷ refs
    → (o.remaining ==ℤ pos 0) ≡ true
    → length (advance o all) < length all
spent_front o r refs all e h = rw e (omega (arith, length-advance_done o r refs h))

abbrev left_over : BookState → ℕ
left_over s = length s.longs + length s.shorts

module _ (p : Primitives) (input : MatchInput) where
  left_remaining :
      (o : BookOrder) (size price delta : ℤ) (part : Fill × BookOrder)
      → IsFillOf p input o size price delta part
      → part.1.remaining ≡ o.remaining
  unfolding allocate_margin
  left_remaining o size price delta part f = rw f.left_eq refl

  round_shrinks :
      (s s' : BookState) (long short : BookOrder)
      → AreFronts s long short
      → IsCross p input s long short s'
      → left_over s' < left_over s
  unfolding crossed
  round_shrinks s s' long short f c = elim (min_spends long.remaining short.remaining) [
    | inl done ↦ rw c.state_eq (
        omega (
          arith,
          spent_front (take_size c.long_part.1 size) f.long_ref f.longs_left s.longs f.longs_eq
              (rw (left_remaining long _ _ _ c.long_part long_fill) done),
          length-advance (take_size c.short_part.1 size) s.shorts,
        ))
    | inr done ↦ rw c.state_eq (
        omega (
          arith,
          spent_front (take_size c.short_part.1 size) f.short_ref f.shorts_left s.shorts f.shorts_eq
              (rw (left_remaining short _ _ _ c.short_part short_fill) done),
          length-advance (take_size c.long_part.1 size) s.longs,
        ))
  ]
    where
      size : ℤ
      size = min long.remaining short.remaining

      long_fill :
          IsFillOf p input long size
            (execution_price long short)
            (long_delta long short c.fees)
            c.long_part
      long_fill = create_fill-IsFillOf p input long _ _ _ _ c.long_eq

      short_fill :
          IsFillOf p input short size
            (execution_price long short)
            (short_delta long short c.fees)
            c.short_part
      short_fill = create_fill-IsFillOf p input short _ _ _ _ c.short_eq

  module _ (continue : BookState → Option (Result BookState)) (bound : ℕ)
      (stops : (s : BookState)
        → left_over s < bound
        → (r : Result BookState) × (continue s ≡ some r)) where
    after_cross_stops :
        (s : BookState) (long short : BookOrder) (r : Result BookState)
        → AreFronts s long short
        → cross p input s long short ≡ r
        → left_over s < suc bound
        → (t : Result BookState) × (after_cross p input continue r ≡ some t)
    unfolding after_cross
    after_cross_stops s long short (ok s') f e h =
        let less = round_shrinks s s' long short f (cross-IsCross p input s long short e) in
        stops s' (omega (arith, less))
    after_cross_stops s long short (err m) f e h = (err m, refl)

    proceed_stops :
        (s : BookState) (r : Option (Result (BookOrder × BookOrder)))
        → fronts s s.longs s.shorts ≡ r
        → left_over s < suc bound
        → (t : Result BookState) × (proceed p input continue s r ≡ some t)
    unfolding proceed round
    proceed_stops s none e h = (ok s, refl)
    proceed_stops s (some (err m)) e h = (err m, refl)
    proceed_stops s (some (ok (long, short))) e h =
        elim (Bool-cases (ltb_ℤ long.intent.limit_price short.intent.limit_price)) [
          | inl apart ↦ (ok s, rw apart refl)
          | inr crosses ↦ rw crosses (
              after_cross_stops s long short (cross p input s long short)
                (fronts-AreFronts s s.longs s.shorts refl refl e) refl h)
        ]

  match_loop_stops :
      (fuel : ℕ) (s : BookState)
      → left_over s < fuel
      → (r : Result BookState) × (match_loop p input fuel s ≡ some r)
  unfolding match_loop
  match_loop_stops zero s h = absurd (omega arith)
  match_loop_stops (suc fuel) s h =
      proceed_stops (match_loop p input fuel) fuel (match_loop_stops fuel) s
        (fronts s s.longs s.shorts) refl h

  -- The loop stops on every book, within the rounds that it is given: it returns a state of the
  -- book or throws.
  pub run_book_stops :
      (orders : List BookOrder) → (r : Result BookState) × (run_book p input orders ≡ some r)
  unfolding run_book enough_fuel
  run_book_stops orders =
      match_loop_stops (enough_fuel p input (initial_state p input orders))
        (initial_state p input orders) (omega arith)
