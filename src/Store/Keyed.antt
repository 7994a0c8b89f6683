-- ===== src/Store/Keyed.antt =====
-- No call stores a key or a member twice (server/src/shared/state/store.ts).
pub mod Records
pub mod Markets
pub mod Spending
pub mod Settlement
pub mod Steps
use pnlx.Base.{
  ◌≡◌, refl, String, List, [], ◌∷◌, Bool, true, false, arith, Bool-cases, inl, inr, map, filter_by,
  ◌||◌,
}
use pnlx.Base.Text.{◌===◌, ===_iff}
use pnlx.Base.Map
use pnlx.Base.Map.{Map}
use pnlx.Base.StringSet
use pnlx.Base.Entries.{Distinct, Distinct-append}
use pnlx.Base.Result.{Result, ok, err}
use pnlx.Store.State.{Store}
use pnlx.Store.Monad.{Action, pure, gets, raise_if, after, for_each, ◌>>=◌}
use pnlx.Store.RoundTrip.{IsKeyed}

pub record KeepsKeyed {A : Type 0} (m : Action A) : Type 0 where
  pub kept : (s : Store) → IsKeyed s → IsKeyed (m s).1

has-keys-set :
    {V : Type 0} (j k : String) (v : V) (m : Map V)
    → StringSet.has j (Map.keys (Map.set k v m)) ≡ (j === k || StringSet.has j (Map.keys m))
unfolding Map.set StringSet.has
has-keys-set j k v [] = refl
has-keys-set j k v ((i, w) ∷ m) =
    ground (arith, has-keys-set j k v m, ===_iff k i, ===_iff j i, ===_iff j k)

pub set-Distinct :
    {V : Type 0} (k : String) (v : V) (m : Map V)
    → Distinct (Map.keys m)
    → Distinct (Map.keys (Map.set k v m))
unfolding Map.set StringSet.has
set-Distinct k v [] d = (refl, tt)
set-Distinct k v ((i, w) ∷ m) d =
    ground (arith, d, has-keys-set i k v m, set-Distinct k v m, ===_iff k i, ===_iff i k)

pub add-Distinct : (k : String) (xs : List String) → Distinct xs → Distinct (StringSet.add k xs)
unfolding StringSet.add
add-Distinct k xs d = ground (arith, d, Distinct-append xs k d)

pub all-Distinct : (ks xs : List String) → Distinct xs → Distinct (StringSet.add_all ks xs)
unfolding StringSet.add_all
all-Distinct [] xs d = d
all-Distinct (k ∷ ks) xs d = all-Distinct ks (StringSet.add k xs) (add-Distinct k xs d)

has-keys-filter :
    {V : Type 0} (j : String) (test : String × V → Bool) (m : Map V)
    → StringSet.has j (Map.keys m) ≡ false
    → StringSet.has j (Map.keys (filter_by test m)) ≡ false
unfolding StringSet.has
has-keys-filter j test [] h = refl
has-keys-filter j test ((i, w) ∷ m) h = ground (arith, h, has-keys-filter j test m)

pub filter-Distinct :
    {V : Type 0} (test : String × V → Bool) (m : Map V)
    → Distinct (Map.keys m)
    → Distinct (Map.keys (filter_by test m))
unfolding StringSet.has
filter-Distinct test [] d = tt
filter-Distinct test ((i, w) ∷ m) d =
    ground (arith, d, has-keys-filter i test m, filter-Distinct test m)

module _ {A B : Type 0} where
  after-KeepsKeyed :
      (f : A → Action B) (r : Result A) (s : Store)
      → ((a : A) → KeepsKeyed (f a))
      → IsKeyed s
      → IsKeyed (after (r, s) f).1
  after-KeepsKeyed f (ok a) s k h = (k a).kept s h
  after-KeepsKeyed f (err e) s k h = h

  pub bind-KeepsKeyed :
      (m : Action A) (f : A → Action B)
      → KeepsKeyed m
      → ((a : A) → KeepsKeyed (f a))
      → KeepsKeyed (m >>= f)
  bind-KeepsKeyed m f k l = record {
    kept = λ s h. after-KeepsKeyed f (m s).0 (m s).1 l (k.kept s h);
  }

module _ {A : Type 0} where
  pub pure-KeepsKeyed : (a : A) → KeepsKeyed (pure a)
  pure-KeepsKeyed a = record { kept = λ s h. h }

  pub gets-KeepsKeyed : (f : Store → A) → KeepsKeyed (gets f)
  gets-KeepsKeyed f = record { kept = λ s h. h }

  pub for_each-KeepsKeyed :
      (xs : List A) (f : A → Action (Unit {0}))
      → ((a : A) → KeepsKeyed (f a))
      → KeepsKeyed (for_each xs f)
  for_each-KeepsKeyed [] f k = record { kept = λ s h. h }
  for_each-KeepsKeyed (x ∷ xs) f k =
      bind-KeepsKeyed (f x) (λ _. for_each xs f) (k x) (λ _. for_each-KeepsKeyed xs f k)

module _ {B : Type 0} where
  -- A read and what follows, for any value read.
  pub read-KeepsKeyed :
      {A : Type 0} (g : Store → A) (f : A → Action B)
      → ((a : A) → KeepsKeyed (f a))
      → KeepsKeyed (gets g >>= f)
  read-KeepsKeyed g f k = bind-KeepsKeyed (gets g) f (gets-KeepsKeyed g) k

  -- A check and what follows.
  pub guard-KeepsKeyed :
      (b : Bool) (e : String) (m : Action B) → KeepsKeyed m → KeepsKeyed (raise_if b e >>= λ _. m)
  guard-KeepsKeyed true e m k = record { kept = λ s h. h }
  guard-KeepsKeyed false e m k = record { kept = λ s h. k.kept s h }
