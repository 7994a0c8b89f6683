-- ===== src/Base/StringSet.antt =====
-- `Set<string>`: its members in insertion order. Adding a member that is there changes nothing.
use Prim.Native.String.{String}
use mathlib.Core.Path.{◌≡◌, refl}
use mathlib.Core.Bool.{Bool, true, false, ◌||◌}
use mathlib.Core.List.{List, [], ◌∷◌, ◌++◌}
use native.Mathlib.Omega.{arith}
use pnlx.Base.Tests.{if◌then◌else◌}
use pnlx.Base.Text.{◌===◌, ===_iff}

abbrev pub StringSet : Type 0
StringSet = List String

unfoldable pub has : String → StringSet → Bool
has k [] = false
has k (x ∷ xs) = k === x || has k xs

unfoldable pub add : String → StringSet → StringSet
add k xs = if has k xs then xs else xs ++ k ∷ []

-- The members are added from the left.
unfoldable pub add_all : List String → StringSet → StringSet
add_all [] s = s
add_all (x ∷ xs) s = add_all xs (add x s)

pub has-append : (k : String) (xs ys : StringSet) → has k (xs ++ ys) ≡ (has k xs || has k ys)
unfolding has
has-append k [] ys = refl
has-append k (x ∷ xs) ys = ground (arith, has-append k xs ys)

pub has-add : (j k : String) (s : StringSet) → has j (add k s) ≡ (j === k || has j s)
unfolding add has
has-add j k s = ground (arith, has-append j s (k ∷ []), ===_iff j k)

pub has-add_all :
    (j : String) (ks : List String) (s : StringSet) → has j s ≡ true → has j (add_all ks s) ≡ true
unfolding add_all
has-add_all j [] s h = h
has-add_all j (k ∷ ks) s h = has-add_all j ks (add k s) (ground (arith, has-add j k s))
