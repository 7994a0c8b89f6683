-- ===== src/Base/Result.antt =====
-- A call that returns or throws: `err` carries the message of the `Error`.
use Prim.Native.String.{String}
use mathlib.Core.Path.{◌≡◌, refl}
use mathlib.Core.Bool.{Bool, true, false}
use mathlib.Core.List.{List, [], ◌∷◌}
use mathlib.Core.Option.{Option, none, some}

pub data Result {ℓ} (A : Type ℓ) : Type ℓ where
  ok : A → Result A
  err : String → Result A

-- The call that follows runs on the value, unless the first one threw.
module _ {ℓ κ} {A : Type ℓ} {B : Type κ} where
  infixl 5 ◌>>=◌
  abbrev pub ◌>>=◌ : Result A → (A → Result B) → Result B
  ok value >>= next = next value
  err message >>= next = err message

-- The same, after a check that has no value.
infixl 5 ◌>>◌
abbrev pub ◌>>◌ {κ} : {B : Type κ} → Result (Unit {0}) → Result B → Result B
check >> rest = check >>= λ checked. rest

-- `if (test) throw new Error(message)`
abbrev pub throw_if : Bool → String → Result (Unit {0})
throw_if true e = err e
throw_if false e = ok tt

abbrev pub or_throw {ℓ} : {A : Type ℓ} → Option A → String → Result A
or_throw none e = err e
or_throw (some a) e = ok a

-- `xs.map(f)` where `f` may throw, from the left.
abbrev pub map_result {ℓ κ} : {A : Type ℓ} {B : Type κ} → (A → Result B) → List A → Result (List B)
map_result f [] = ok []
map_result f (x ∷ xs) = do y ← f x; ys ← map_result f xs; ok (y ∷ ys)

-- What a successful chain went through.
pub >>=-eq-ok {ℓ κ} :
    {A : Type ℓ} {B : Type κ} {b : B} (r : Result A) (next : A → Result B)
    → (r >>= next) ≡ ok b
    → (value : A) × (r ≡ ok value) × (next value ≡ ok b)
>>=-eq-ok (ok value) next went = (value, refl, went)
>>=-eq-ok (err message) next went = cc

pub throw_if-eq-ok : (b : Bool) (e : String) {u : Unit {0}} → throw_if b e ≡ ok u → b ≡ false
throw_if-eq-ok true e h = cc
throw_if-eq-ok false e h = refl

pub no_value {ℓ} : {B : Type ℓ} → false ≡ true → B
no_value h = cc

module _ {ℓ} {A : Type ℓ} where
  abbrev pub is_ok : Result A → Bool
  is_ok (ok a) = true
  is_ok (err e) = false

  -- The value of a result that is one.
  abbrev pub value_of : (r : Result A) → is_ok r ≡ true → (a : A) × (r ≡ ok a)
  value_of (ok a) h = (a, refl)
  value_of (err e) h = no_value h
