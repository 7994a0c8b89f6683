-- ===== src/Crypto/Field.antt =====
-- The scalar field of the circuits (packages/crypto/src/field.ts; `fieldHex`, `digestToFieldHex`,
-- `fieldHashPair` and `toField` of field-merkle.ts). A field element that the source keeps as a
-- padded hexadecimal string is the number that the string spells.
use pnlx.Base.{ℕ, suc, ◌-◌, ◌%◌, String, [], ◌∷◌, ◌==◌, if◌then◌else◌}
use pnlx.Base.Int.{ℤ, pos, negsuc}
use pnlx.Base.Text.{Hex, ◌⧺◌}
use pnlx.Crypto.Primitives.{Primitives}
use pnlx.Crypto.Hash.{hex_digits}

abbrev pub field_prime : ℕ
field_prime = 21888242871839275222246405745257275088548364400416034343698204186575808495617

unfoldable pub mod_prime : ℤ → ℕ
mod_prime (pos n) = n % field_prime
mod_prime (negsuc n) = let out = suc n % field_prime in if out == 0 then 0 else field_prime - out

unfoldable pub field_hex : ℕ → Hex
unfolding hex_digits
field_hex value = "0x" ⧺ hex_digits 64 (value % field_prime)

unfoldable pub hash_to_field : Primitives → String → ℕ
hash_to_field p input = p.sha256 input % field_prime

unfoldable pub field_hash_pair : Primitives → ℕ → ℕ → ℕ
field_hash_pair p left right =
    p.poseidon2 ((left % field_prime) ∷ (right % field_prime) ∷ []) % field_prime
