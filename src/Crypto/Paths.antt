-- ===== src/Crypto/Paths.antt =====
-- Membership proofs against the position tree's root (packages/crypto/src/field-merkle.ts).
use pnlx.Base.{
  ℕ, zero, suc, ◌+◌, ◌*◌, ◌/◌, ◌%◌, ◌^◌, ◌≡◌, ◌<◌, ◌≤◌, refl, sym, ap, ◌∙◌, Bool, true, false, List,
  [], ◌∷◌, arith, map, subst, length, get_elem?, or_else, if◌then◌else◌, inl, inr, ◌==◌, ltb,
  Bool-cases,
}
use pnlx.Base.Text.{Hex}
use pnlx.Base.Result.{ok, ◌>>=◌, >>=-eq-ok, throw_if, throw_if-eq-ok, map_result}
use pnlx.Crypto.Primitives.{Primitives}
use pnlx.Crypto.Field.{field_hex, field_hash_pair}
use pnlx.Crypto.FieldMerkle.{
  FieldMerkleProof, to_field, empty_leaf, head_or, flip, parents, root_from, path_from, find_leaf,
  position_merkle_root, position_merkle_proof,
}

-- The node at an index, or the empty node.
abbrev pub node : ℕ → List ℕ → ℕ → ℕ
node empty level i = or_else (get_elem? level i) empty

double_suc : (k : ℕ) → 2 * suc k ≡ suc (suc (2 * k))
double_suc k = omega arith

double_suc_one : (k : ℕ) → 2 * suc k + 1 ≡ suc (suc (2 * k + 1))
double_suc_one k = omega arith

node-only :
    (empty : ℕ) (level : List ℕ) (index : ℕ)
    → index < 1
    → node empty level index ≡ head_or empty level
node-only empty [] index h = refl
node-only empty (x ∷ xs) zero h = refl
node-only empty (x ∷ xs) (suc index) h = absurd (omega arith)

half_below : (depth i : ℕ) → i < 2 ^ suc depth → i / 2 < 2 ^ depth
half_below depth i h = ground arith

-- The two children of a node, by the parity of the one that is known.
even_pair : (i : ℕ) → (i % 2 == 1) ≡ false → (i ≡ 2 * (i / 2)) × (flip i ≡ 2 * (i / 2) + 1)
unfolding flip
even_pair i h = ground (arith, h)

odd_pair : (i : ℕ) → (i % 2 == 1) ≡ true → (i ≡ 2 * (i / 2) + 1) × (flip i ≡ 2 * (i / 2))
unfolding flip
odd_pair i h = ground (arith, h)

module _ (p : Primitives) where
  -- The root that a leaf and its siblings have, hashed upwards: a sibling stands on the left where
  -- its bit is set.
  unfoldable pub climb : ℕ → List ℕ → List Bool → ℕ
  climb x (s ∷ siblings) (true ∷ bits) = climb (field_hash_pair p s x) siblings bits
  climb x (s ∷ siblings) (false ∷ bits) = climb (field_hash_pair p x s) siblings bits
  climb x [] bits = x
  climb x (s ∷ siblings) [] = x

  node-parents :
      (empty : ℕ) (level : List ℕ) (k : ℕ)
      → node (field_hash_pair p empty empty) (parents p empty level) k
        ≡ field_hash_pair p (node empty level (2 * k)) (node empty level (2 * k + 1))
  unfolding parents
  node-parents empty [] k = refl
  node-parents empty (a ∷ []) zero = refl
  node-parents empty (a ∷ []) (suc k) = rw (double_suc_one k, double_suc k) refl
  node-parents empty (a ∷ b ∷ r) zero = refl
  node-parents empty (a ∷ b ∷ r) (suc k) =
      rw (double_suc_one k, double_suc k) (node-parents empty r k)

  even_parent :
      (empty : ℕ) (level : List ℕ) (i : ℕ)
      → (i % 2 == 1) ≡ false
      → field_hash_pair p (node empty level i) (node empty level (flip i))
        ≡ node (field_hash_pair p empty empty) (parents p empty level) (i / 2)
  even_parent empty level i h =
      let (self, other) = even_pair i h in
      ap (λ j. field_hash_pair p (node empty level j) (node empty level (flip i))) self
      ∙ ap (λ j. field_hash_pair p (node empty level (2 * (i / 2))) (node empty level j)) other
      ∙ sym (node-parents empty level (i / 2))

  odd_parent :
      (empty : ℕ) (level : List ℕ) (i : ℕ)
      → (i % 2 == 1) ≡ true
      → field_hash_pair p (node empty level (flip i)) (node empty level i)
        ≡ node (field_hash_pair p empty empty) (parents p empty level) (i / 2)
  odd_parent empty level i h =
      let (self, other) = odd_pair i h in
      ap (λ j. field_hash_pair p (node empty level (flip i)) (node empty level j)) self
      ∙ ap (λ j. field_hash_pair p (node empty level j) (node empty level (2 * (i / 2) + 1))) other
      ∙ sym (node-parents empty level (i / 2))

  climb-path_from :
      (depth empty : ℕ) (level : List ℕ) (index : ℕ)
      → index < 2 ^ depth
      → climb
          (node empty level index)
          (map (λ s. s.0) (path_from p depth empty level index))
          (map (λ s. s.1) (path_from p depth empty level index))
        ≡ root_from p depth empty level
  unfolding climb path_from root_from
  climb-path_from zero empty level index h = node-only empty level index h
  climb-path_from (suc depth) empty level index h =
      let above =
        climb-path_from depth (field_hash_pair p empty empty) (parents p empty level) (index / 2)
          (half_below depth index h) in
      let path =
        path_from p depth (field_hash_pair p empty empty) (parents p empty level) (index / 2) in
      elim (Bool-cases (index % 2 == 1)) [
        | inl odd ↦ rw odd (
            ap (λ x. climb x (map (λ s. s.0) path) (map (λ s. s.1) path))
              (odd_parent empty level index odd)
            ∙ above)
        | inr even ↦ rw even (
            ap (λ x. climb x (map (λ s. s.0) path) (map (λ s. s.1) path))
              (even_parent empty level index even)
            ∙ above)
      ]

find_leaf-found :
    (leaf : ℕ) (leaves : List Hex) (level : List ℕ) (index : ℕ)
    → find_leaf leaf leaves ≡ ok index
    → map_result to_field leaves ≡ ok level
    → (node 0 level index ≡ leaf) × (index < length leaves)
unfolding find_leaf
find_leaf-found leaf [] level index h e = cc
find_leaf-found leaf (c ∷ cs) level index h e =
    let (y, ye, e1) = >>=-eq-ok (to_field c) _ e in
    let (ys, yse, e2) = >>=-eq-ok (map_result to_field cs) _ e1 in
    let (x, xe, h1) = >>=-eq-ok (to_field c) _ h in
    elim (Bool-cases (x == leaf)) [
      | inl here ↦ ground (arith, xe, ye, e2, here, h1)
      | inr there ↦
          let (i, ie, h2) = >>=-eq-ok (find_leaf leaf cs) _ (later_found x h1 there) in
          ground (arith, e2, h2, find_leaf-found leaf cs ys i ie yse)
    ]
  where
    later_found :
        (x : ℕ)
        → (if x == leaf then ok 0 else (find_leaf leaf cs >>= λ i. ok (suc i))) ≡ ok index
        → (x == leaf) ≡ false
        → (find_leaf leaf cs >>= λ i. ok (suc i)) ≡ ok index
    later_found x h1 there = ground (arith, h1, there)

pub ok-injective : {A : Type 0} {a b : A} → ok a ≡ ok b → a ≡ b
ok-injective h = cc

fits_below :
    (depth : ℕ) (leaves : List Hex)
    → ltb (2 ^ depth) (length leaves) ≡ false
    → length leaves ≤ 2 ^ depth
fits_below depth leaves h = ground (arith, h)

pub proof_of-verifies :
    (p : Primitives) (depth : ℕ) (level : List ℕ) (x index : ℕ)
    → node 0 level index ≡ x
    → index < 2 ^ depth
    → climb p x
        (map (λ s. s.0) (path_from p depth empty_leaf level index))
        (map (λ s. s.1) (path_from p depth empty_leaf level index))
      ≡ root_from p depth empty_leaf level
proof_of-verifies p depth level x index found below =
    rw (sym found) (climb-path_from p depth empty_leaf level index below)

root_of :
    (p : Primitives) (leaves : List Hex) (depth : ℕ) (level : List ℕ)
    → ltb (2 ^ depth) (length leaves) ≡ false
    → map_result to_field leaves ≡ ok level
    → position_merkle_root p leaves depth ≡ ok (field_hex (root_from p depth empty_leaf level))
unfolding position_merkle_root
root_of p leaves depth level fits le = rw (fits, le) refl

-- A proof that the position tree gives for a leaf has the tree's root: the leaf that it names is the
-- one asked for, its siblings hash up to the root that it names, and that root is the one that the
-- tree computes for the same leaves.
pub position_merkle_proof-verifies :
    (p : Primitives) (leaves : List Hex) (leaf : Hex) (depth : ℕ) (r : FieldMerkleProof)
    → position_merkle_proof p leaves leaf depth ≡ ok r
    → (to_field leaf ≡ ok r.leaf)
      × (climb p r.leaf r.siblings r.indices ≡ r.root)
      × (position_merkle_root p leaves depth ≡ ok (field_hex r.root))
unfolding position_merkle_proof
position_merkle_proof-verifies p leaves leaf depth r h =
    let (x, xe, h1) = >>=-eq-ok (to_field leaf) _ h in
    let (index, ie, h2) = >>=-eq-ok (find_leaf x leaves) _ h1 in
    let (u, ue, h3) =
      >>=-eq-ok (throw_if (ltb (2 ^ depth) (length leaves)) "position merkle tree is full") _ h2 in
    let (level, le, h4) = >>=-eq-ok (map_result to_field leaves) _ h3 in
    let (found, below) = find_leaf-found x leaves level index ie le in
    let fits = throw_if-eq-ok (ltb (2 ^ depth) (length leaves)) "position merkle tree is full" ue in
    subst
      (λ q.
        (to_field leaf ≡ ok q.leaf)
        × (climb p q.leaf q.siblings q.indices ≡ q.root)
        × (position_merkle_root p leaves depth ≡ ok (field_hex q.root)))
      (ok-injective h4)
      (
        xe,
        proof_of-verifies p depth level x index found
            (omega (arith, below, fits_below depth leaves fits)),
        root_of p leaves depth level fits le,
      )
