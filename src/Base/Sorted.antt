-- ===== src/Base/Sorted.antt =====
-- What `xs.sort(compare)` returns: the same elements, in the order that the comparison stands for.
use mathlib.Core.Path.{◌≡◌}
use mathlib.Core.Logic.{inl, inr}
use mathlib.Core.Bool.{true, false}
use mathlib.Core.List.{List, [], ◌∷◌, Perm}
use mathlib.Core.List.Perm
use pnlx.Base.Tests.{Bool-cases}
use pnlx.Base.Lists.{All}
use pnlx.Base.Sort.{insert_by, sort_by, All-insert_by}
use pnlx.Base.Int.{ℤ, pos, leb_ℤ}

-- Every element stands before all that follow it.
abbrev pub IsSorted {ℓ κ} : {A : Type ℓ} → (A → A → Type κ) → List A → Type κ
IsSorted Before [] = Unit
IsSorted Before (x ∷ xs) = All (Before x) xs × IsSorted Before xs

All-map {ℓ κ} :
    {A : Type ℓ} (P Q : A → Type κ) → ((x : A) → P x → Q x) → (xs : List A) → All P xs → All Q xs
All-map P Q f [] h = tt
All-map P Q f (x ∷ xs) h = (f x h.0, All-map P Q f xs h.1)

module _ {A : Type 0} (compare : A → A → ℤ) where
  insert_by-Perm : (x : A) (xs : List A) → Perm (insert_by compare x xs) (x ∷ xs)
  unfolding insert_by
  insert_by-Perm x [] = Perm.refl (x ∷ [])
  insert_by-Perm x (y ∷ ys) = elim (Bool-cases (leb_ℤ (compare x y) (pos 0))) [
    | inl e ↦ rw e (Perm.refl (x ∷ y ∷ ys))
    | inr e ↦ rw e (Perm.trans (Perm.cons y (insert_by-Perm x ys)) (Perm.swap x y ys))
  ]

  pub sort_by-Perm : (xs : List A) → Perm (sort_by compare xs) xs
  unfolding sort_by
  sort_by-Perm [] = Perm.refl []
  sort_by-Perm (x ∷ xs) =
      Perm.trans (insert_by-Perm x (sort_by compare xs)) (Perm.cons x (sort_by-Perm xs))

  module _ {κ} (Before : A → A → Type κ)
      (below : (x y : A) → leb_ℤ (compare x y) (pos 0) ≡ true → Before x y)
      (above : (x y : A) → leb_ℤ (compare x y) (pos 0) ≡ false → Before y x)
      (trans : (x y z : A) → Before x y → Before y z → Before x z) where
    insert_by-IsSorted :
        (x : A) (xs : List A) → IsSorted Before xs → IsSorted Before (insert_by compare x xs)
    unfolding insert_by
    insert_by-IsSorted x [] h = (tt, tt)
    insert_by-IsSorted x (y ∷ ys) h = elim (Bool-cases (leb_ℤ (compare x y) (pos 0))) [
      | inl e ↦
          let first = below x y e in
          rw e ((first, All-map (Before y) (Before x) (λ z. trans x y z first) ys h.0), h)
      | inr e ↦
          rw e
            (All-insert_by (Before y) compare x ys (above x y e) h.0, insert_by-IsSorted x ys h.1)
    ]

    pub sort_by-IsSorted : (xs : List A) → IsSorted Before (sort_by compare xs)
    unfolding sort_by
    sort_by-IsSorted [] = tt
    sort_by-IsSorted (x ∷ xs) = insert_by-IsSorted x (sort_by compare xs) (sort_by-IsSorted xs)
