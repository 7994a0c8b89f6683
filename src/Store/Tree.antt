-- ===== src/Store/Tree.antt =====
-- The roots that the store compares and records (server/src/shared/state/store.ts).
use pnlx.Base.{Bool, true, if◌then◌else◌, List, [], ◌∷◌, ◌++◌}
use pnlx.Base.Text.{Hex, ◌===◌}
use pnlx.Base.Result.{Result, ok, ◌>>=◌}
use pnlx.Crypto.Primitives.{Primitives}
use pnlx.Crypto.FieldMerkle.{
  field_merkle_depth, position_merkle_depth, FieldMerkleProof, field_merkle_root,
  position_merkle_root, field_merkle_proof, position_merkle_proof,
}
use pnlx.Store.State.{Store}

unfoldable pub margin_membership_root : Primitives → Store → Result Hex
margin_membership_root p s = field_merkle_root p s.margin_commitments field_merkle_depth

unfoldable pub position_membership_root : Primitives → Store → Result Hex
position_membership_root p s = position_merkle_root p s.position_commitments position_merkle_depth

unfoldable pub position_membership_root_with : Primitives → Store → Hex → Result Hex
position_membership_root_with p s commitment =
    position_merkle_root p (s.position_commitments ++ commitment ∷ []) position_merkle_depth

unfoldable pub position_membership_root_with_many : Primitives → Store → List Hex → Result Hex
position_membership_root_with_many p s commitments =
    position_merkle_root p (s.position_commitments ++ commitments) position_merkle_depth

unfoldable pub margin_membership_proof : Primitives → Hex → Store → Result FieldMerkleProof
margin_membership_proof p commitment s =
    field_merkle_proof p s.margin_commitments commitment field_merkle_depth

unfoldable pub position_membership_proof : Primitives → Hex → Store → Result FieldMerkleProof
position_membership_proof p commitment s =
    position_merkle_proof p s.position_commitments commitment position_merkle_depth

-- The root is that of the commitments before, or of these and some of those after, in their order;
-- the roots are computed one after the other until one matches.
unfoldable pub root_occurs : Primitives → Hex → List Hex → List Hex → Result Bool
root_occurs p root before [] = do
  found ← position_merkle_root p before position_merkle_depth
  ok (found === root)
root_occurs p root before (c ∷ after) =
    let later = root_occurs p root (before ++ c ∷ []) after in
    position_merkle_root p before position_merkle_depth >>= λ found.
    if found === root then ok true else later

unfoldable pub has_position_membership_root : Primitives → Hex → Store → Result Bool
unfolding root_occurs
has_position_membership_root p root s = root_occurs p root [] s.position_commitments
