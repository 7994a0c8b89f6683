-- ===== src/Store/Monad.antt =====
-- A call of a method of the store: it returns or throws, and what it wrote before a throw stays
-- written (server/src/shared/state/store.ts). The checks and the proof set that all parts use.
use pnlx.Base.{Bool, true, false, not, String, List, [], ◌∷◌, Option, none, some}
use pnlx.Base.Text.{Hex, ◌⧺◌}
use pnlx.Base.Result.{Result, ok, err}
use pnlx.Base.StringSet
use pnlx.Protocol.Proof.{ProofMeta}
use pnlx.Store.State.{Store}

abbrev pub Action : Type 0 → Type 0
Action A = Store → Result A × Store

module _ {A : Type 0} where
  abbrev pub pure : A → Action A
  pure a s = (ok a, s)

  abbrev pub gets : (Store → A) → Action A
  gets f s = (ok (f s), s)

  -- A computation that does not write.
  abbrev pub lift : Result A → Action A
  lift r s = (r, s)

  -- `if (!x) throw new Error(message)`
  abbrev pub or_raise : Option A → String → Action A
  or_raise none e s = (err e, s)
  or_raise (some a) e s = (ok a, s)

-- What follows a call: a throw ends the method.
module _ {A B : Type 0} where
  abbrev pub after : Result A × Store → (A → Action B) → Result B × Store
  after (ok value, s) next = next value s
  after (err message, s) next = (err message, s)

  infixl 5 ◌>>=◌
  abbrev pub ◌>>=◌ : Action A → (A → Action B) → Action B
  ◌>>=◌ call next s = after (call s) next

infixl 5 ◌>>◌
abbrev pub ◌>>◌ : {A B : Type 0} → Action A → Action B → Action B
first >> second = first >>= λ _. second

abbrev pub modify : (Store → Store) → Action (Unit {0})
modify f s = (ok tt, f s)

-- `if (test) throw new Error(message)`
abbrev pub raise_if : Bool → String → Action (Unit {0})
raise_if true message s = (err message, s)
raise_if false message s = (ok tt, s)

-- `for (const x of xs) f(x)`
abbrev pub for_each : {A : Type 0} → List A → (A → Action (Unit {0})) → Action (Unit {0})
for_each [] f = pure tt
for_each (x ∷ xs) f = f x >> for_each xs f

-- `xs.map(f)` where `f` may write and may throw.
abbrev pub map_each : {A B : Type 0} → List A → (A → Action B) → Action (List B)
map_each [] f = pure []
map_each (x ∷ xs) f = do y ← f x; ys ← map_each xs f; pure (y ∷ ys)

unfoldable pub proof_key : ProofMeta → String
proof_key proof =
    proof.circuit_key ⧺ ":" ⧺ proof.verifier_hash ⧺ ":" ⧺ proof.public_input_hash ⧺ ":"
    ⧺ proof.proof_digest

unfoldable pub record_proof : ProofMeta → Action (Unit {0})
record_proof proof = modify (λ s. record s { proofs = StringSet.add (proof_key proof) s.proofs })

abbrev pub has_proof : Store → ProofMeta → Bool
has_proof s proof = StringSet.has (proof_key proof) s.proofs

unfoldable pub assert_proof : ProofMeta → Action (Unit {0})
assert_proof proof s = raise_if (not (has_proof s proof)) "unverified proof" s

unfoldable pub spend : Hex → Action (Unit {0})
spend nullifier = do
  spent ← gets (λ s. StringSet.has nullifier s.spent_nullifiers)
  raise_if spent "nullifier already spent"
  modify (λ s. record s { spent_nullifiers = StringSet.add nullifier s.spent_nullifiers })
