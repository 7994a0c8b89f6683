-- ===== src/Base/Map.antt =====
-- `Map<string, V>`: an association list in insertion order. A write to a key that is there keeps
-- its place; a new key goes to the end.
use Prim.Native.Nat.{ℕ}
use Prim.Native.String.{String}
use mathlib.Core.Path.{◌≡◌, refl}
use mathlib.Core.Logic.{◌≢◌}
use mathlib.Core.Bool.{Bool}
use mathlib.Core.Option.{Option, none, some}
use mathlib.Core.List.{List, [], ◌∷◌, map}
use native.Mathlib.Omega.{arith}
use pnlx.Base.Tests.{if◌then◌else◌, is_some}
use pnlx.Base.Lists.{length}
use pnlx.Base.Text.{◌===◌, ===_iff, ===_refl}

abbrev pub Map {ℓ} : Type ℓ → Type ℓ
Map V = List (String × V)

module _ {ℓ} {V : Type ℓ} where
  unfoldable pub get : String → Map V → Option V
  get k [] = none
  get k ((j, v) ∷ m) = if k === j then some v else get k m

  abbrev pub has : String → Map V → Bool
  has k m = is_some (get k m)

  unfoldable pub set : String → V → Map V → Map V
  set k v [] = (k, v) ∷ []
  set k v ((j, w) ∷ m) = if k === j then (j, v) ∷ m else (j, w) ∷ set k v m

  unfoldable pub delete : String → Map V → Map V
  delete k [] = []
  delete k ((j, w) ∷ m) = if k === j then m else (j, w) ∷ delete k m

  abbrev pub values : Map V → List V
  values m = map (λ e. e.1) m

  abbrev pub keys : Map V → List String
  keys m = map (λ e. e.0) m

  abbrev pub size : Map V → ℕ
  size m = length m

  pub get-set :
      (k j : String) (v : V) (m : Map V) → get j (set k v m) ≡ (if j === k then some v else get j m)
  unfolding get set
  get-set k j v [] = refl
  get-set k j v ((i, w) ∷ m) =
      ground (arith, ===_iff j k, ===_iff k i, ===_iff j i, get-set k j v m)

  pub get-set_self : (k : String) (v : V) (m : Map V) → get k (set k v m) ≡ some v
  get-set_self k v m = simp (get-set, ===_refl)

  pub get-set_ne : (k j : String) (v : V) (m : Map V) → j ≢ k → get j (set k v m) ≡ get j m
  get-set_ne k j v m h = ground (arith, get-set k j v m, ===_iff j k)
