-- ===== src/Store/Effects.antt =====
-- How calls act on the set of spent nullifiers: what only keeps them, what adds one, and what a
-- spent one blocks; and how sequences inherit this (server/src/shared/state/store.ts).
use pnlx.Base.{◌≡◌, ◌≢◌, refl, Bool, true, false, List, [], ◌∷◌, Option, none, some, arith}
use pnlx.Base.Text.{Hex, ===_refl}
use pnlx.Base.Result.{Result, ok, err}
use pnlx.Base.StringSet
use pnlx.Base.StringSet.{has-add}
use pnlx.Protocol.Proof.{ProofMeta}
use pnlx.Store.State.{Store}
use pnlx.Store.Monad.{
  Action, pure, gets, lift, or_raise, raise_if, modify, after, for_each, ◌>>=◌, assert_proof, spend,
}

abbrev pub IsSpent : Hex → Store → Type 0
IsSpent n s = StringSet.has n s.spent_nullifiers ≡ true

-- Whatever the call does, what is spent stays spent.
pub record Keeps {A : Type 0} (m : Action A) : Type 0 where
  pub kept : (n : Hex) (s : Store) → IsSpent n s → IsSpent n (m s).1

-- Where the call returns, the nullifier is spent.
pub record Adds {A : Type 0} (n : Hex) (m : Action A) : Type 0 where
  pub added : (s : Store) (a : A) → (m s).0 ≡ ok a → IsSpent n (m s).1

-- Where the nullifier is spent, the call does not return.
pub record Blocks {A : Type 0} (n : Hex) (m : Action A) : Type 0 where
  pub blocked : (s : Store) (a : A) → IsSpent n s → (m s).0 ≢ ok a

module _ {A B : Type 0} where
  after-kept :
      (f : A → Action B) (n : Hex) (r : Result A) (s : Store)
      → ((a : A) → Keeps (f a))
      → IsSpent n s
      → IsSpent n (after (r, s) f).1
  after-kept f n (ok a) s k h = (k a).kept n s h
  after-kept f n (err e) s k h = h

  pub bind-Keeps :
      (m : Action A) (f : A → Action B) → Keeps m → ((a : A) → Keeps (f a)) → Keeps (m >>= f)
  bind-Keeps m f k l = record { kept = λ n s h. after-kept f n (m s).0 (m s).1 l (k.kept n s h) }

  after-added :
      (f : A → Action B) (n : Hex) (r : Result A) (s : Store) (b : B)
      → ((a : A) → r ≡ ok a → IsSpent n (f a s).1)
      → (after (r, s) f).0 ≡ ok b
      → IsSpent n (after (r, s) f).1
  after-added f n (ok a) s b k h = k a refl
  after-added f n (err e) s b k h = cc

  after-added_later :
      (f : A → Action B) (n : Hex) (r : Result A) (s : Store) (b : B)
      → ((a : A) → Adds n (f a))
      → (after (r, s) f).0 ≡ ok b
      → IsSpent n (after (r, s) f).1
  after-added_later f n (ok a) s b k h = (k a).added s b h
  after-added_later f n (err e) s b k h = cc

  -- The first part adds and the rest keeps, or the rest adds.
  pub bind-Adds_first :
      (n : Hex) (m : Action A) (f : A → Action B)
      → Adds n m
      → ((a : A) → Keeps (f a))
      → Adds n (m >>= f)
  bind-Adds_first n m f k l = record {
    added =
        λ s b h. after-added f n (m s).0 (m s).1 b (λ a e. (l a).kept n (m s).1 (k.added s a e)) h;
  }

  pub bind-Adds :
      (n : Hex) (m : Action A) (f : A → Action B) → ((a : A) → Adds n (f a)) → Adds n (m >>= f)
  bind-Adds n m f l = record { added = λ s b h. after-added_later f n (m s).0 (m s).1 b l h }

  after-blocked :
      (f : A → Action B) (n : Hex) (r : Result A) (s : Store) (b : B)
      → ((a : A) → r ≡ ok a → (f a s).0 ≢ ok b)
      → (after (r, s) f).0 ≢ ok b
  after-blocked f n (ok a) s b k h = k a refl h
  after-blocked f n (err e) s b k h = cc

  pub bind-Blocks_first :
      (n : Hex) (m : Action A) (f : A → Action B) → Blocks n m → Blocks n (m >>= f)
  bind-Blocks_first n m f k = record {
    blocked = λ s b h. after-blocked f n (m s).0 (m s).1 b (λ a e. absurd (k.blocked s a h e));
  }

  pub bind-Blocks :
      (n : Hex) (m : Action A) (f : A → Action B)
      → Keeps m
      → ((a : A) → Blocks n (f a))
      → Blocks n (m >>= f)
  bind-Blocks n m f k l = record {
    blocked = λ s b h.
        after-blocked f n (m s).0 (m s).1 b (λ a e. (l a).blocked (m s).1 b (k.kept n s h));
  }

module _ {A : Type 0} where
  pub pure-Keeps : (a : A) → Keeps (pure a)
  pure-Keeps a = record { kept = λ n s h. h }

  pub gets-Keeps : (f : Store → A) → Keeps (gets f)
  gets-Keeps f = record { kept = λ n s h. h }

  pub lift-Keeps : (r : Result A) → Keeps (lift r)
  lift-Keeps r = record { kept = λ n s h. h }

  pub or_raise-Keeps : (o : Option A) (e : Hex) → Keeps (or_raise o e)
  or_raise-Keeps none e = record { kept = λ n s h. h }
  or_raise-Keeps (some a) e = record { kept = λ n s h. h }

-- An equal nullifier does as well.
module _ {A : Type 0} (m : Action A) (n k : Hex) (same : n ≡ k) where
  pub Adds-same : Adds k m → Adds n m
  Adds-same h = rw same h

  pub Blocks-same : Blocks k m → Blocks n m
  Blocks-same h = rw same h

pub raise_if-Keeps : (b : Bool) (e : Hex) → Keeps (raise_if b e)
raise_if-Keeps true e = record { kept = λ n s h. h }
raise_if-Keeps false e = record { kept = λ n s h. h }

-- A write that leaves the spent nullifiers alone.
pub modify-Keeps :
    (f : Store → Store)
    → ((s : Store) → (f s).spent_nullifiers ≡ s.spent_nullifiers)
    → Keeps (modify f)
modify-Keeps f same = record { kept = λ n s h. rw (same s) h }

pub for_each-Keeps :
    {A : Type 0} (xs : List A) (f : A → Action (Unit {0}))
    → ((a : A) → Keeps (f a))
    → Keeps (for_each xs f)
for_each-Keeps [] f k = pure-Keeps tt
for_each-Keeps (x ∷ xs) f k =
    bind-Keeps (f x) (λ _. for_each xs f) (k x) (λ _. for_each-Keeps xs f k)

pub assert_proof-Keeps : (proof : ProofMeta) → Keeps (assert_proof proof)
unfolding assert_proof
assert_proof-Keeps proof = record { kept = λ n s h. ground arith }

pub spend-Keeps : (n : Hex) → Keeps (spend n)
unfolding spend
spend-Keeps n = record { kept = λ m s h. ground (arith, has-add m n s.spent_nullifiers) }

pub spend-Adds : (n : Hex) → Adds n (spend n)
unfolding spend
spend-Adds n = record {
  added = λ s a h. ground (arith, has-add n n s.spent_nullifiers, ===_refl n);
}

pub spend-Blocks : (n : Hex) → Blocks n (spend n)
unfolding spend
spend-Blocks n = record { blocked = λ s a h e. ground arith }
