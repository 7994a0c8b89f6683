-- ===== src/Store/DoubleSpend.antt =====
-- A nullifier is spent at most once, whatever calls come between
-- (server/src/shared/state/store.ts).
use pnlx.Base.{◌≡◌, ◌≢◌, true, List, [], ◌∷◌}
use pnlx.Base.Text.{Hex}
use pnlx.Base.Result.{ok}
use pnlx.Base.StringSet
use pnlx.Crypto.Primitives.{Primitives}
use pnlx.Store.State.{Store}
use pnlx.Store.Commands.{Command, step, run, spends}
use pnlx.Store.Effects.{IsSpent}
use pnlx.Store.Steps.{step-Keeps, step-Adds, step-Blocks}

-- A nullifier that is spent stays spent after any sequence of calls, of which some may throw.
pub run-IsSpent :
    (p : Primitives) (calls : List Command) (n : Hex) (s : Store)
    → IsSpent n s
    → IsSpent n (run p calls s)
unfolding run
run-IsSpent p [] n s h = h
run-IsSpent p (c ∷ cs) n s h = run-IsSpent p cs n (step p c s).1 ((step-Keeps p c).kept n s h)

-- When a call that spends a nullifier has returned, then after any further calls, of which some may
-- throw, a call that spends the same nullifier does not return: it throws.
pub spent_once :
    (p : Primitives) (n : Hex) (first second : Command) (between : List Command) (s : Store)
    → StringSet.has n (spends first) ≡ true
    → StringSet.has n (spends second) ≡ true
    → (step p first s).0 ≡ ok tt
    → (step p second (run p between (step p first s).1)).0 ≢ ok tt
spent_once p n first second between s in_first in_second returned =
    (step-Blocks p second n in_second).blocked (run p between (step p first s).1) tt (
      run-IsSpent p between n (step p first s).1
        ((step-Adds p first n in_first).added s tt returned))
