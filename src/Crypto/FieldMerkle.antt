-- ===== src/Crypto/FieldMerkle.antt =====
-- The two Merkle trees over field elements (packages/crypto/src/field-merkle.ts). A node is a field
-- element, for the padded hexadecimal string that the source keeps: strings of one length sort as
-- their numbers do. A level of the position tree is the list of the nodes that are present, for the
-- map from 0, 1, 2 … to them.
use Prim.Native.Char.{code}
use pnlx.Base.{
  ℕ, zero, suc, ◌+◌, ◌-◌, ◌*◌, ◌/◌, ◌%◌, ◌^◌, Bool, ◌&&◌, ◌||◌, String, List, [], ◌∷◌, Option, none,
  some, ltb, leb, ◌==◌, length, get_elem?, or_else, map, if◌then◌else◌,
}
use pnlx.Base.Text.{Hex}
use pnlx.Base.Result.{Result, ok, err, ◌>>=◌, ◌>>◌, throw_if, or_throw, map_result}
use pnlx.Crypto.Primitives.{Primitives}
use pnlx.Crypto.Field.{field_prime, field_hex, field_hash_pair}

abbrev pub field_merkle_depth : ℕ
field_merkle_depth = 8

abbrev pub position_merkle_depth : ℕ
position_merkle_depth = 20

hex_value : ℕ → Option ℕ
hex_value c =
    if leb b'0' c && leb c b'9'
    then some (c - b'0')
    else if leb b'a' c && leb c b'f'
    then some (c - b'a' + 10)
    else if leb b'A' c && leb c b'F'
    then some (c - b'A' + 10)
    else none

parse_digits : ℕ → String → Option ℕ
parse_digits n String.[] = some n
parse_digits n (String.◌∷◌ c s) = elim (hex_value (code c)) [
  | none ↦ none
  | some d ↦ parse_digits (n * 16 + d) s
]

parse_hex : String → Option ℕ
unfolding parse_digits hex_value
parse_hex (String.◌∷◌ a (String.◌∷◌ b (String.◌∷◌ c s))) =
    if code a == b'0' && (code b == b'x' || code b == b'X')
    then parse_digits 0 (String.◌∷◌ c s)
    else none
parse_hex _ = none

-- `toField` of a `Hex`: `BigInt` throws on a text that is no number.
unfoldable pub to_field : Hex → Result ℕ
unfolding parse_hex
to_field value = do
  n ← or_throw (parse_hex value) "Cannot convert to a BigInt"
  ok (n % field_prime)

unfoldable pub insert_sorted : ℕ → List ℕ → List ℕ
insert_sorted x [] = x ∷ []
insert_sorted x (y ∷ ys) = if leb x y then x ∷ y ∷ ys else y ∷ insert_sorted x ys

unfoldable pub sort : List ℕ → List ℕ
unfolding insert_sorted
sort [] = []
sort (x ∷ xs) = insert_sorted x (sort xs)

abbrev pub empty_leaf : ℕ
empty_leaf = 0

unfoldable pub pad : ℕ → List ℕ → List ℕ
pad zero xs = xs
pad (suc n) [] = empty_leaf ∷ pad n []
pad (suc n) (x ∷ xs) = x ∷ pad n xs

abbrev pub head_or : ℕ → List ℕ → ℕ
head_or d [] = d
head_or d (x ∷ xs) = x

pub record FieldMerkleProof : Type 0 where
  pub index : ℕ
  pub leaf : ℕ
  pub root : ℕ
  pub siblings : List ℕ
  pub indices : List Bool

-- `findIndex`: the candidates are converted until one is the leaf.
unfoldable pub find_leaf : ℕ → List Hex → Result ℕ
find_leaf leaf [] = err "leaf not found"
find_leaf leaf (candidate ∷ leaves) =
    let later = find_leaf leaf leaves in
    to_field candidate >>= λ x. if x == leaf then ok 0 else (later >>= λ i. ok (suc i))

-- `index ^ 1`
unfoldable pub flip : ℕ → ℕ
flip i = if i % 2 == 0 then i + 1 else i - 1

module _ (p : Primitives) where
  -- The parents of a level, where the `empty` node stands in for a missing right child.
  unfoldable pub parents : ℕ → List ℕ → List ℕ
  parents empty [] = []
  parents empty (a ∷ []) = field_hash_pair p a empty ∷ []
  parents empty (a ∷ b ∷ r) = field_hash_pair p a b ∷ parents empty r

  -- The root over a level, or the empty root of its height.
  unfoldable pub root_from : ℕ → ℕ → List ℕ → ℕ
  unfolding parents
  root_from zero empty level = head_or empty level
  root_from (suc depth) empty level =
      root_from depth (field_hash_pair p empty empty) (parents empty level)

  -- The siblings on the way up from an index, and on which side the way lies.
  unfoldable pub path_from : ℕ → ℕ → List ℕ → ℕ → List (ℕ × Bool)
  unfolding parents flip
  path_from zero empty level index = []
  path_from (suc depth) empty level index =
      (or_else (get_elem? level (flip index)) empty, index % 2 == 1)
      ∷ path_from depth (field_hash_pair p empty empty) (parents empty level) (index / 2)

  -- `fieldMerkleRoot`: the leaves are sorted, and padded to the full width.
  unfoldable pub field_merkle_root : List Hex → ℕ → Result Hex
  unfolding sort pad root_from
  field_merkle_root leaves depth = do
    base ← map_result to_field leaves
    throw_if (ltb (2 ^ depth) (length base)) "field merkle tree is full"
    ok (field_hex (root_from depth empty_leaf (pad (2 ^ depth) (sort base))))

  -- `positionMerkleRoot`: the leaves stay in their order, and only nodes above one are computed.
  unfoldable pub position_merkle_root : List Hex → ℕ → Result Hex
  unfolding root_from
  position_merkle_root leaves depth = do
    throw_if (ltb (2 ^ depth) (length leaves)) "position merkle tree is full"
    level ← map_result to_field leaves
    ok (field_hex (root_from depth empty_leaf level))

  -- The siblings of a leaf of a level on its way to the root.
  abbrev pub proof_of : ℕ → List ℕ → ℕ → ℕ → FieldMerkleProof
  proof_of depth level leaf index = record {
    index = index;
    leaf = leaf;
    root = root_from depth empty_leaf level;
    siblings = map (λ s. s.0) (path_from depth empty_leaf level index);
    indices = map (λ s. s.1) (path_from depth empty_leaf level index);
  }

  -- `positionMerkleProof`: the proof for the first of the leaves that equals the one asked for.
  unfoldable pub position_merkle_proof : List Hex → Hex → ℕ → Result FieldMerkleProof
  unfolding find_leaf path_from root_from
  position_merkle_proof leaves leaf depth = do
    x ← to_field leaf
    index ← find_leaf x leaves
    throw_if (ltb (2 ^ depth) (length leaves)) "position merkle tree is full"
    level ← map_result to_field leaves
    ok (proof_of depth level x index)

-- `findIndex` in a level
unfoldable pub index_in : ℕ → List ℕ → Option ℕ
index_in x [] = none
index_in x (y ∷ ys) =
    let rest = index_in x ys in
    if y == x then some 0 else elim rest [ none ↦ none | some i ↦ some (suc i) ]

-- `fieldMerkleProof`: the leaf is looked for in the sorted and padded level, so an empty leaf that
-- pads it has a proof too.
unfoldable pub field_merkle_proof : Primitives → List Hex → Hex → ℕ → Result FieldMerkleProof
unfolding sort pad index_in path_from root_from
field_merkle_proof p leaves leaf depth = do
  x ← to_field leaf
  base ← map_result to_field leaves
  throw_if (ltb (2 ^ depth) (length base)) "field merkle tree is full"
  let level = pad (2 ^ depth) (sort base)
  index ← or_throw (index_in x level) "leaf not found"
  ok (proof_of p depth level x index)
