-- ===== src/Protocol/Proof.antt =====
-- The receipt of a checked proof (packages/protocol-types/src/index.ts). A `number` here is a time, a count or an index, so a
-- natural number; a `bigint` is an integer; an optional field is an `Option`.
use pnlx.Base.{String, Option}
use pnlx.Base.Text.{Hex}

pub data ProofSystem : Type 0 where
  noir_ultrahonk risc0_groth16 : ProofSystem

pub record ProofMeta : Type 0 where
  pub circuit_id : String
  pub circuit_key : Hex
  pub circuit_hash : Hex
  pub verifier_hash : Hex
  pub public_input_hash : Hex
  pub proof_digest : Hex
  pub proof_system : Option ProofSystem
  pub bytecode_hash : Option Hex
  pub boundless_request_id : Option Hex
  pub image_id : Option Hex
  pub journal_digest : Option Hex
  pub witness_hash : Option Hex
  pub proof_hash : Option Hex
  pub public_inputs_hash : Option Hex
  pub seal_digest : Option Hex
  pub vk_hash : Option Hex
