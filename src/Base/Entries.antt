-- ===== src/Base/Entries.antt =====
-- A map or a set that is rebuilt from the list of its entries, and lists without repetition.
use Prim.Native.String.{String}
use mathlib.Core.Path.{◌≡◌, refl, sym, ◌∙◌, ap}
use mathlib.Core.Bool.{true, false}
use mathlib.Core.Option.{none}
use mathlib.Core.List.{List, [], ◌∷◌, ◌++◌}
use native.Mathlib.Omega.{arith}
use pnlx.Base.Text.{===_iff, ===_refl}
use pnlx.Base.Map
use pnlx.Base.Map.{Map}
use pnlx.Base.StringSet
use pnlx.Base.StringSet.{StringSet, has-append}

-- No text stands twice in the list.
abbrev pub Distinct : List String → Type 0
Distinct [] = Unit
Distinct (x ∷ xs) = (StringSet.has x xs ≡ false) × Distinct xs

pub Distinct-append :
    (xs : List String) (y : String)
    → Distinct xs
    → StringSet.has y xs ≡ false
    → Distinct (xs ++ y ∷ [])
unfolding StringSet.has
Distinct-append [] y d h = (refl, tt)
Distinct-append (x ∷ xs) y d h = (
  ground (arith, has-append x xs (y ∷ []), d.0, h, ===_iff x y, ===_iff y x),
  Distinct-append xs y d.1 (ground (arith, h)),
)

pub snoc : {A : Type 0} (xs ys : List A) (x : A) → (xs ++ x ∷ []) ++ ys ≡ xs ++ x ∷ ys
snoc [] ys x = refl
snoc (y ∷ xs) ys x = ap (λ l. y ∷ l) (snoc xs ys x)

pub append_nil : {A : Type 0} (xs : List A) → xs ++ [] ≡ xs
append_nil [] = refl
append_nil (x ∷ xs) = ap (λ l. x ∷ l) (append_nil xs)

-- `for (const x of xs) set.add(x)`, from an empty set.
add_all-apart :
    (xs : List String) (s : StringSet)
    → Distinct xs
    → ((j : String) → StringSet.has j xs ≡ true → StringSet.has j s ≡ false)
    → StringSet.add_all xs s ≡ s ++ xs
unfolding StringSet.add_all StringSet.add StringSet.has
add_all-apart [] s d h = sym (append_nil s)
add_all-apart (x ∷ xs) s d h = rw (h x (ground (arith, ===_refl x))) (
    add_all-apart xs (s ++ x ∷ []) d.1
      (λ j k. ground (arith, h j, k, d.0, has-append j s (x ∷ []), ===_iff j x, ===_iff x j))
    ∙ snoc s xs x)

pub add_all-Distinct : (xs : List String) → Distinct xs → StringSet.add_all xs [] ≡ xs
unfolding StringSet.has
add_all-Distinct xs d = add_all-apart xs [] d (λ j k. refl)

module _ {V : Type 0} where
  -- `for (const [key, value] of entries) map.set(key, value)`
  unfoldable pub put_all : List (String × V) → Map V → Map V
  put_all [] m = m
  put_all ((k, v) ∷ es) m = put_all es (Map.set k v m)

  set-append :
      (k : String) (v : V) (m : Map V) → Map.get k m ≡ none → Map.set k v m ≡ m ++ (k, v) ∷ []
  unfolding Map.get Map.set
  set-append k v [] h = refl
  set-append k v ((j, w) ∷ m) h = ground (arith, h, set-append k v m)

  get-append : (k : String) (m n : Map V) → Map.get k m ≡ none → Map.get k (m ++ n) ≡ Map.get k n
  unfolding Map.get
  get-append k [] n h = refl
  get-append k ((j, w) ∷ m) n h = ground (arith, h, get-append k m n)

  put_all-apart :
      (es m : Map V)
      → Distinct (Map.keys es)
      → ((j : String) → StringSet.has j (Map.keys es) ≡ true → Map.get j m ≡ none)
      → put_all es m ≡ m ++ es
  unfolding put_all StringSet.has Map.get
  put_all-apart [] m d h = sym (append_nil m)
  put_all-apart ((k, v) ∷ es) m d h =
      let fresh = h k (ground (arith, ===_refl k)) in
      rw (set-append k v m fresh) (
        put_all-apart es (m ++ (k, v) ∷ []) d.1 (λ j e.
          ground (arith, h j, e, d.0, get-append j m ((k, v) ∷ []), ===_iff j k, ===_iff k j))
        ∙ snoc m es (k, v))

  pub put_all-Distinct : (es : Map V) → Distinct (Map.keys es) → put_all es [] ≡ es
  unfolding Map.get
  put_all-Distinct es d = put_all-apart es [] d (λ j k. refl)
