-- ===== src/Crypto/Primitives.antt =====
-- What the code takes from packages that are not in the repository: SHA-256 of node:crypto, whose
-- digest is read as a number of 256 bits, and the Poseidon2 hash of @zkpassport/poseidon2.
use pnlx.Base.{ℕ, String, List}

pub record Primitives : Type 0 where
  pub sha256 : String → ℕ
  pub poseidon2 : List ℕ → ℕ
