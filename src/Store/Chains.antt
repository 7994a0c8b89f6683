-- ===== src/Store/Chains.antt =====
-- What a chain of calls that returned went through (server/src/shared/state/store.ts).
use pnlx.Base.{◌≡◌, refl, arith}
use pnlx.Base.Result.{Result, ok, err}
use pnlx.Store.State.{Store}
use pnlx.Store.Monad.{Action, pure, after, ◌>>=◌}

module _ {A B : Type 0} where
  after-eq-ok :
      (f : A → Action B) (r : Result A) (s t : Store) {b : B}
      → after (r, s) f ≡ (ok b, t)
      → (a : A) × (r ≡ ok a) × (f a s ≡ (ok b, t))
  after-eq-ok f (ok a) s t h = (a, refl, h)
  after-eq-ok f (err e) s t h = cc

  -- The first call returned, and the rest returned from the store that it left.
  pub chain-eq-ok :
      (m : Action A) (f : A → Action B) (s t : Store) {b : B}
      → (m >>= f) s ≡ (ok b, t)
      → (a : A) × ((m s).0 ≡ ok a) × (f a (m s).1 ≡ (ok b, t))
  chain-eq-ok m f s t h = after-eq-ok f (m s).0 (m s).1 t h

pub pure-eq-ok :
    {A : Type 0} (a : A) (s t : Store) {b : A} → pure a s ≡ (ok b, t) → (a ≡ b) × (s ≡ t)
pure-eq-ok a s t h = ground arith
