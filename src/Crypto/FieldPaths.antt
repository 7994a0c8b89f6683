-- ===== src/Crypto/FieldPaths.antt =====
-- Membership proofs against the margin tree's root (packages/crypto/src/field-merkle.ts).
use pnlx.Base.{
  ℕ, zero, suc, ◌^◌, ◌≡◌, ◌<◌, ◌≤◌, refl, subst, false, List, [], ◌∷◌, Option, none, some, arith,
  length, inl, inr, ltb, Option-cases,
}
use pnlx.Base.Text.{Hex}
use pnlx.Base.Result.{ok, >>=-eq-ok, throw_if, throw_if-eq-ok, map_result, or_throw}
use pnlx.Crypto.Primitives.{Primitives}
use pnlx.Crypto.Field.{field_hex}
use pnlx.Crypto.FieldMerkle.{
  FieldMerkleProof, to_field, empty_leaf, sort, insert_sorted, pad, root_from, index_in,
  field_merkle_root, field_merkle_proof,
}
use pnlx.Crypto.Paths.{node, climb, proof_of-verifies, ok-injective}

index_in-found :
    (x : ℕ) (level : List ℕ) (i : ℕ)
    → index_in x level ≡ some i
    → (node 0 level i ≡ x) × (i < length level)
unfolding index_in
index_in-found x [] i h = cc
index_in-found x (y ∷ ys) i h = elim (Option-cases (index_in x ys)) [
  | inl e ↦ ground (arith, h, e)
  | inr (j, e) ↦ ground (arith, h, e, index_in-found x ys j e)
]

length-insert_sorted : (x : ℕ) (ys : List ℕ) → length (insert_sorted x ys) ≡ suc (length ys)
unfolding insert_sorted
length-insert_sorted x [] = refl
length-insert_sorted x (y ∷ ys) = ground (arith, length-insert_sorted x ys)

length-sort : (xs : List ℕ) → length (sort xs) ≡ length xs
unfolding sort
length-sort [] = refl
length-sort (x ∷ xs) = omega (arith, length-insert_sorted x (sort xs), length-sort xs)

length-pad : (n : ℕ) (xs : List ℕ) → length xs ≤ n → length (pad n xs) ≡ n
unfolding pad
length-pad zero [] h = refl
length-pad zero (x ∷ xs) h = absurd (omega arith)
length-pad (suc n) [] h = omega (arith, length-pad n [] (omega arith))
length-pad (suc n) (x ∷ xs) h = omega (arith, length-pad n xs (omega arith))

or_throw-eq-ok : {A : Type 0} {a : A} (o : Option A) (e : Hex) → or_throw o e ≡ ok a → o ≡ some a
or_throw-eq-ok none e h = cc
or_throw-eq-ok (some b) e h = cc

root_of :
    (p : Primitives) (leaves : List Hex) (depth : ℕ) (base : List ℕ)
    → map_result to_field leaves ≡ ok base
    → ltb (2 ^ depth) (length base) ≡ false
    → field_merkle_root p leaves depth
      ≡ ok (field_hex (root_from p depth empty_leaf (pad (2 ^ depth) (sort base))))
unfolding field_merkle_root
root_of p leaves depth base be fits = rw (be, fits) refl

-- A proof that the margin tree gives for a leaf has the tree's root: the leaf that it names is the
-- one asked for, its siblings hash up to the root that it names, and that root is the one that the
-- tree computes for the same leaves.
pub field_merkle_proof-verifies :
    (p : Primitives) (leaves : List Hex) (leaf : Hex) (depth : ℕ) (r : FieldMerkleProof)
    → field_merkle_proof p leaves leaf depth ≡ ok r
    → (to_field leaf ≡ ok r.leaf)
      × (climb p r.leaf r.siblings r.indices ≡ r.root)
      × (field_merkle_root p leaves depth ≡ ok (field_hex r.root))
unfolding field_merkle_proof
field_merkle_proof-verifies p leaves leaf depth r h =
    let (x, xe, h1) = >>=-eq-ok (to_field leaf) _ h in
    let (base, be, h2) = >>=-eq-ok (map_result to_field leaves) _ h1 in
    let (u, ue, h3) =
      >>=-eq-ok (throw_if (ltb (2 ^ depth) (length base)) "field merkle tree is full") _ h2 in
    let level = pad (2 ^ depth) (sort base) in
    let (index, ie, h4) = >>=-eq-ok (or_throw (index_in x level) "leaf not found") _ h3 in
    let fits = throw_if-eq-ok (ltb (2 ^ depth) (length base)) "field merkle tree is full" ue in
    let (found, below) =
      index_in-found x level index (or_throw-eq-ok (index_in x level) "leaf not found" ie) in
    let wide = length-pad (2 ^ depth) (sort base) (ground (arith, fits, length-sort base)) in
    subst
      (λ q.
        (to_field leaf ≡ ok q.leaf)
        × (climb p q.leaf q.siblings q.indices ≡ q.root)
        × (field_merkle_root p leaves depth ≡ ok (field_hex q.root)))
      (ok-injective h4)
      (
        xe,
        proof_of-verifies p depth level x index found (omega (arith, below, wide)),
        root_of p leaves depth base be fits,
      )
