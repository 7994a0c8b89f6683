-- ===== src/Base/Sort.antt =====
-- `xs.sort(compare)`: the sort is stable, and a negative or zero comparison keeps the order.
use mathlib.Core.Logic.{inl, inr}
use mathlib.Core.List.{List, [], ◌∷◌}
use pnlx.Base.Tests.{if◌then◌else◌, Bool-cases}
use pnlx.Base.Lists.{All}
use pnlx.Base.Int.{ℤ, pos, leb_ℤ}

module _ {ℓ} {A : Type ℓ} (compare : A → A → ℤ) where
  unfoldable pub insert_by : A → List A → List A
  insert_by x [] = x ∷ []
  insert_by x (y ∷ ys) = if leb_ℤ (compare x y) (pos 0) then x ∷ y ∷ ys else y ∷ insert_by x ys

  unfoldable pub sort_by : List A → List A
  unfolding insert_by
  sort_by [] = []
  sort_by (x ∷ xs) = insert_by x (sort_by xs)

module _ {ℓ κ} {A : Type ℓ} (P : A → Type κ) where
  pub All-insert_by :
      (compare : A → A → ℤ) (x : A) (xs : List A) → P x → All P xs → All P (insert_by compare x xs)
  unfolding insert_by
  All-insert_by compare x [] h k = (h, tt)
  All-insert_by compare x (y ∷ ys) h k = elim (Bool-cases (leb_ℤ (compare x y) (pos 0))) [
    | inl e ↦ rw e (h, k)
    | inr e ↦ rw e (k.0, All-insert_by compare x ys h k.1)
  ]

  pub All-sort_by : (compare : A → A → ℤ) (xs : List A) → All P xs → All P (sort_by compare xs)
  unfolding sort_by
  All-sort_by compare [] h = tt
  All-sort_by compare (x ∷ xs) h = All-insert_by compare x _ h.0 (All-sort_by compare xs h.1)
