-- ===== src/Crypto/Notes.antt =====
-- The commitments and nullifiers of notes and positions (packages/crypto/src/field-merkle.ts).
use pnlx.Base.{ℕ}
use pnlx.Base.Int.{ℤ}
use pnlx.Crypto.Primitives.{Primitives}
use pnlx.Crypto.Field.{mod_prime, field_hash_pair}
use pnlx.Protocol.Orders.{Side, long, short}

pub record CircuitMarginNoteInput : Type 0 where
  pub amount : ℤ
  pub asset_digest : ℕ
  pub blinding : ℕ
  pub owner_digest : ℕ
  pub rho_digest : ℕ
  pub spend_secret_digest : ℕ

pub record CircuitPositionNoteInput : Type 0 where
  pub blinding : ℕ
  pub entry_price : ℤ
  pub funding_index : ℤ
  pub margin : ℤ
  pub market_digest : ℕ
  pub owner_digest : ℕ
  pub rho_digest : ℕ
  pub side : Side
  pub size : ℤ
  pub spend_secret_digest : ℕ

abbrev pub side_code : Side → ℕ
side_code long = 1
side_code short = 2

unfoldable pub circuit_margin_commitment : Primitives → CircuitMarginNoteInput → ℕ
circuit_margin_commitment p i =
    let left = field_hash_pair p i.asset_digest (mod_prime i.amount) in
    let right = field_hash_pair p i.owner_digest (field_hash_pair p i.rho_digest i.blinding) in
    field_hash_pair p left right

unfoldable pub circuit_nullifier : Primitives → ℕ → ℕ → ℕ
circuit_nullifier p rho_digest spend_secret_digest =
    field_hash_pair p spend_secret_digest rho_digest

unfoldable pub circuit_position_commitment : Primitives → CircuitPositionNoteInput → ℕ
circuit_position_commitment p i =
    let left =
      field_hash_pair p (field_hash_pair p i.market_digest (side_code i.side))
        (field_hash_pair p (mod_prime i.size) (mod_prime i.entry_price)) in
    let right =
      field_hash_pair p (field_hash_pair p (mod_prime i.margin) (mod_prime i.funding_index))
        (field_hash_pair p i.owner_digest (field_hash_pair p i.rho_digest i.blinding)) in
    field_hash_pair p left right

unfoldable pub circuit_position_nullifier : Primitives → ℕ → ℕ → ℕ
circuit_position_nullifier p rho_digest spend_secret_digest =
    field_hash_pair p spend_secret_digest rho_digest
