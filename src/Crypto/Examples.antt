-- ===== src/Crypto/Examples.antt =====
-- A membership proof in a small tree (packages/crypto/src/field-merkle.ts), with stand-ins for the
-- hashes.
use Prim.Native.String.{count}
use pnlx.Base.{ℕ, ◌+◌, ◌-◌, ◌*◌, arith, ◌≡◌, refl, true, List, [], ◌∷◌}
use pnlx.Base.Text.{Hex}
use pnlx.Base.Result.{ok, is_ok, value_of}
use pnlx.Crypto.Primitives.{Primitives}
use pnlx.Base.Int.{pos, negsuc}
use pnlx.Crypto.Field.{field_prime, field_hash_pair, field_hex, mod_prime}
use pnlx.Crypto.Signed.{encode_signed, decode_signed, decode_signed-encode_signed}
use pnlx.Crypto.Notes.{CircuitPositionNoteInput, circuit_position_commitment}
use pnlx.Crypto.Intents.{CircuitIntentCommitmentInput, circuit_intent_commitment}
use pnlx.Crypto.Binding.{
  SameIntent, SamePosition, circuit_intent_commitment-binding, circuit_position_commitment-binding,
}
use pnlx.Protocol.Orders.{long}
use pnlx.Crypto.FieldMerkle.{
  FieldMerkleProof, to_field, position_merkle_root, position_merkle_proof, field_merkle_root,
  field_merkle_proof,
}
use pnlx.Crypto.FieldPaths.{field_merkle_proof-verifies}
use pnlx.Crypto.Paths.{climb, position_merkle_proof-verifies}

abbrev weighted_sum : List ℕ → ℕ
weighted_sum [] = 1
weighted_sum (x ∷ xs) = x + 3 * weighted_sum xs

abbrev stand_ins : Primitives
stand_ins = record { sha256 = λ s. count s; poseidon2 = weighted_sum }

abbrev three_leaves : List Hex
three_leaves = "0x5" ∷ "0x7" ∷ "0x9" ∷ []

small_proof_ok : is_ok (position_merkle_proof stand_ins three_leaves "0x9" 3) ≡ true
unfolding position_merkle_proof to_field
small_proof_ok = refl

abbrev small_proof :
    (r : FieldMerkleProof) × (position_merkle_proof stand_ins three_leaves "0x9" 3 ≡ ok r)
small_proof = value_of (position_merkle_proof stand_ins three_leaves "0x9" 3) small_proof_ok

position_merkle_proof-verifies_example :
    (to_field "0x9" ≡ ok small_proof.0.leaf)
    × (climb stand_ins small_proof.0.leaf small_proof.0.siblings small_proof.0.indices
        ≡ small_proof.0.root)
    × (position_merkle_root stand_ins three_leaves 3 ≡ ok (field_hex small_proof.0.root))
position_merkle_proof-verifies_example =
    position_merkle_proof-verifies stand_ins three_leaves "0x9" 3 small_proof.0 small_proof.1

field_proof_ok : is_ok (field_merkle_proof stand_ins three_leaves "0x7" 2) ≡ true
unfolding field_merkle_proof to_field
field_proof_ok = refl

abbrev field_proof :
    (r : FieldMerkleProof) × (field_merkle_proof stand_ins three_leaves "0x7" 2 ≡ ok r)
field_proof = value_of (field_merkle_proof stand_ins three_leaves "0x7" 2) field_proof_ok

field_merkle_proof-verifies_example :
    (to_field "0x7" ≡ ok field_proof.0.leaf)
    × (climb stand_ins field_proof.0.leaf field_proof.0.siblings field_proof.0.indices
        ≡ field_proof.0.root)
    × (field_merkle_root stand_ins three_leaves 2 ≡ ok (field_hex field_proof.0.root))
field_merkle_proof-verifies_example =
    field_merkle_proof-verifies stand_ins three_leaves "0x7" 2 field_proof.0 field_proof.1

decode_signed-encode_signed_example : decode_signed (pos (encode_signed (negsuc 41))) ≡ negsuc 41
decode_signed-encode_signed_example = decode_signed-encode_signed (negsuc 41) (omega arith)

abbrev small_intent : CircuitIntentCommitmentInput
small_intent = record {
  batch_digest = 3;
  market_digest = 4;
  owner_commitment_field = 5;
  side = long;
  size = negsuc 6;
  limit_price = pos 100;
  margin = pos 20;
  note_nullifier = 9;
  nonce_digest = 10;
  salt_digest = 11;
}

-- The same intent with its size and its salt written as other numbers of the same classes.
abbrev small_intent_lifted : CircuitIntentCommitmentInput
small_intent_lifted = record {
  batch_digest = 3;
  market_digest = 4;
  owner_commitment_field = 5;
  side = long;
  size = pos (field_prime - 7);
  limit_price = pos 100;
  margin = pos 20;
  note_nullifier = 9;
  nonce_digest = 10;
  salt_digest = field_prime + 11;
}

circuit_intent_commitment-binding_example : SameIntent small_intent small_intent_lifted
unfolding field_hash_pair mod_prime circuit_intent_commitment
circuit_intent_commitment-binding_example =
    circuit_intent_commitment-binding stand_ins small_intent small_intent_lifted
      (
        λ e. (refl, refl),
        (
          λ e. (refl, refl),
          (
            λ e. (refl, refl),
            (
              λ e. (refl, refl),
              (
                λ e. (refl, refl),
                (
                  λ e. (refl, refl),
                  (λ e. (refl, refl), (λ e. (refl, refl), (λ e. (refl, refl), (tt)))),
                ),
              ),
            ),
          ),
        ),
      )
      refl

abbrev small_position : CircuitPositionNoteInput
small_position = record {
  blinding = 1;
  entry_price = pos 100;
  funding_index = negsuc 2;
  margin = pos 20;
  market_digest = 4;
  owner_digest = 5;
  rho_digest = 6;
  side = long;
  size = pos 7;
  spend_secret_digest = 8;
}

-- The same position with another spend secret, which no commitment holds.
abbrev small_position_respent : CircuitPositionNoteInput
small_position_respent = record {
  blinding = 1;
  entry_price = pos 100;
  funding_index = pos (field_prime - 3);
  margin = pos 20;
  market_digest = 4;
  owner_digest = 5;
  rho_digest = 6;
  side = long;
  size = pos 7;
  spend_secret_digest = 9;
}

circuit_position_commitment-binding_example : SamePosition small_position small_position_respent
unfolding field_hash_pair mod_prime circuit_position_commitment
circuit_position_commitment-binding_example =
    circuit_position_commitment-binding stand_ins small_position small_position_respent
      (
        λ e. (refl, refl),
        (
          λ e. (refl, refl),
          (
            λ e. (refl, refl),
            (
              λ e. (refl, refl),
              (
                λ e. (refl, refl),
                (λ e. (refl, refl), (λ e. (refl, refl), (λ e. (refl, refl), (tt)))),
              ),
            ),
          ),
        ),
      )
      refl
