-- ===== src/Protocol/Accounts.antt =====
-- Deposits, withdrawals, disclosures and account events (packages/protocol-types/src/index.ts). A `number` here is a time, a count or an index, so a
-- natural number; a `bigint` is an integer; an optional field is an `Option`.
use pnlx.Base.{ℕ, String, Option}
use pnlx.Base.Int.{ℤ}
use pnlx.Base.Text.{Hex}
use pnlx.Protocol.Proof.{ProofMeta}

pub record DepositNoteRecord : Type 0 where
  pub amount : ℤ
  pub commitment : Hex
  pub token_digest : Hex
  pub proof : ProofMeta

pub record PendingAssetDepositRecord : Type 0 where
  pub amount : ℤ
  pub commitment : Hex
  pub created_at : ℕ
  pub deposit_proof : DepositNoteRecord
  pub finalized_at : Option ℕ
  pub from : String
  pub prepared_tx_hash : Option Hex
  pub prepared_xdr_digest : Hex
  pub relay_id : Option Hex
  pub token : String
  pub token_digest : Hex
  pub tx_hash : Option Hex

pub record DisclosureRecord : Type 0 where
  pub disclosure_id : Hex
  pub subject : Hex
  pub claim_digest : Hex
  pub root : Hex
  pub threshold : ℤ
  pub proof : ProofMeta

pub record WithdrawalRecord : Type 0 where
  pub root : Hex
  pub nullifier : Hex
  pub recipient : Hex
  pub token_digest : Hex
  pub withdraw_amount : ℤ
  pub change_commitment : Hex
  pub proof : ProofMeta

pub record AccountEventRecord : Type 0 where
  pub ciphertext : String
  pub created_at : ℕ
  pub data_commitment : Hex
  pub event_id : Hex
  pub owner_commitment : Hex

pub record AccountEncryptionKeyRecord : Type 0 where
  pub algorithm : String
  pub created_at : ℕ
  pub owner_commitment : Hex
  pub public_key : String
  pub updated_at : ℕ
