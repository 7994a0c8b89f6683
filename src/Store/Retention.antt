-- ===== src/Store/Retention.antt =====
-- What the trimming of the batch executor's runs leaves (server/src/shared/state/store.ts).
use pnlx.Base.{
  ℕ, suc, ◌-◌, ◌≡◌, refl, true, List, [], ◌∷◌, ltb, length, drop, arith, inl, inr, Bool-cases, ◌≤◌,
  ap,
}
use pnlx.Base.Text.{truthy}
use pnlx.Base.Lists.{All}
use pnlx.Base.Map.{Map}
use pnlx.Protocol.Markets.{BatchExecutionRunRecord}
use pnlx.Store.Markets.{trim_batch_execution_runs}

drop_none : {A : Type 0} (n : ℕ) (xs : List A) → n ≡ 0 → drop n xs ≡ xs
drop_none n xs h = rw h refl

suc_sub : (k n : ℕ) → k ≤ n → suc n - k ≡ suc (n - k)
suc_sub k n h = omega arith

drop_one :
    {A : Type 0} (k : ℕ) (x : A) (xs : List A)
    → k ≤ length xs
    → drop (suc (length xs) - k) (x ∷ xs) ≡ drop (length xs - k) xs
drop_one k x xs h = ap (λ i. drop i (x ∷ xs)) (suc_sub k (length xs) h)

-- When no run has an empty id, the trimming leaves exactly the newest 1000 runs, in their order, and
-- all of them when there are fewer.
pub trim_batch_execution_runs-drop :
    (runs : Map BatchExecutionRunRecord)
    → All (λ e. truthy e.0 ≡ true) runs
    → trim_batch_execution_runs runs ≡ drop (length runs - 1000) runs
unfolding trim_batch_execution_runs
trim_batch_execution_runs-drop [] h = refl
trim_batch_execution_runs-drop ((oldest, r) ∷ newer) h =
    elim (Bool-cases (ltb 1000 (suc (length newer)))) [
      | inl e ↦ ground (
        arith,
        e,
        h.0,
        trim_batch_execution_runs-drop newer h.1,
        drop_one 1000 (oldest, r) newer (ground (arith, e)),
      )
      | inr e ↦ ground (
        arith,
        e,
        drop_none (suc (length newer) - 1000) ((oldest, r) ∷ newer) (ground (arith, e)),
      )
    ]
