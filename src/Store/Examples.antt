-- ===== src/Store/Examples.antt =====
-- Runs of the store (server/src/shared/state/store.ts) on a few records, with stand-ins for the
-- hashes, and the theorems at those runs.
use Prim.Native.String.{count}
use pnlx.Base.{ℕ, zero, suc, All, ◌-◌, ◌≡◌, ◌≢◌, refl, true, [], ◌∷◌, none, length, drop}
use pnlx.Base.Int.{pos}
use pnlx.Base.Text.{Hex, ◌===◌, truthy}
use pnlx.Base.StringSet
use pnlx.Base.Result.{Result, ok, err}
use pnlx.Base.Map
use pnlx.Base.Map.{Map}
use pnlx.Crypto.Primitives.{Primitives}
use pnlx.Protocol.Proof.{ProofMeta}
use pnlx.Protocol.Orders.{IntentRecord, OrderLifecycleRecord, opened}
use pnlx.Protocol.Accounts.{WithdrawalRecord}
use pnlx.Protocol.Positions.{LiquidationRecord}
use pnlx.Protocol.Markets.{BatchExecutionRunRecord, settled}
use pnlx.Store.State.{Store, new_store}
use pnlx.Store.Tree.{margin_membership_root}
use pnlx.Store.Monad.{proof_key}
use pnlx.Store.Commands.{withdrawal, liquidation, spent, step, run}
use pnlx.Store.Orders.{add_intent, cancel_order, cancel_record}
use pnlx.Store.Markets.{trim_batch_execution_runs}
use pnlx.Store.DoubleSpend.{spent_once}
use pnlx.Store.Retention.{trim_batch_execution_runs-drop}
use pnlx.Store.Cancellation.{cancel_order_twice}
use pnlx.Store.Locks.{add_intent_locks}

-- Stand-ins: the length of the text, and one value for every list.
abbrev stand_ins : Primitives
stand_ins = record { sha256 = λ s. count s; poseidon2 = λ xs. 5 }

abbrev receipt : ProofMeta
receipt = record {
  circuit_id = "0x1";
  circuit_key = "0x1";
  circuit_hash = "0x1";
  verifier_hash = "0x1";
  public_input_hash = "0x1";
  proof_digest = "0x1";
  proof_system = none;
  bytecode_hash = none;
  boundless_request_id = none;
  image_id = none;
  journal_digest = none;
  witness_hash = none;
  proof_hash = none;
  public_inputs_hash = none;
  seal_digest = none;
  vk_hash = none;
}

-- A store whose only content is the receipt.
abbrev start : Store
start = record new_store { proofs = proof_key receipt ∷ [] }

abbrev withdrawn : WithdrawalRecord
withdrawn = record {
  root = "0x1";
  nullifier = "0xa";
  recipient = "0x1";
  token_digest = "0x1";
  withdraw_amount = pos 1;
  change_commitment = "0xc";
  proof = receipt;
}

abbrev liquidated : LiquidationRecord
liquidated = record {
  market_id = "0x1";
  mark_price = pos 1;
  maintenance_rate = pos 1;
  position_commitment = "0x1";
  position_nullifier = "0xa";
  position_root = "0x1";
  reward_commitment = "0x1";
  proof = receipt;
  proof_verification_tx_hash = none;
  settlement_tx_hash = none;
}

has_a : StringSet.has "0xa" ("0xa" ∷ []) ≡ true
unfolding StringSet.has ◌===◌
has_a = refl

withdrawn-ok : (step stand_ins (withdrawal withdrawn) start).0 ≡ ok tt
unfolding step pnlx.Store.Funds.add_withdrawal Map.get StringSet.has ◌===◌ proof_key
withdrawn-ok = refl

spent_once_example :
    (step stand_ins (liquidation 7 liquidated) (
      run stand_ins
        (spent "0xb" ∷ spent "0xa" ∷ [])
        (step stand_ins (withdrawal withdrawn) start).1)).0
    ≢ ok tt
spent_once_example =
    spent_once stand_ins "0xa" (withdrawal withdrawn) (liquidation 7 liquidated)
      (spent "0xb" ∷ spent "0xa" ∷ []) start has_a has_a withdrawn-ok

abbrev text_or : Result Hex → Hex
text_or (ok x) = x
text_or (err e) = e

abbrev an_intent : IntentRecord
an_intent = record {
  batch_id = "0x1";
  batch_digest = "0x1";
  market_id = "0x1";
  market_digest = "0x1";
  margin_root = text_or (margin_membership_root stand_ins start);
  owner_commitment_field = "0x1";
  owner_commitment = "0x1";
  intent_commitment = "0xi";
  matching_payload_commitment = "0x1";
  note_change_commitment = "0x1";
  proof = receipt;
  note_nullifier = "0xn";
  submission_tx_hash = none;
  submission_sequence = none;
}

abbrev next_intent : IntentRecord
next_intent = record an_intent { intent_commitment = "0xj"; market_id = "eth" }

an_intent-ok : (add_intent stand_ins 4 an_intent none start).0 ≡ ok tt
unfolding add_intent Map.get ◌===◌ StringSet.has proof_key margin_membership_root
    pnlx.Crypto.FieldMerkle.field_merkle_root pnlx.Crypto.Field.field_hex
    pnlx.Crypto.Field.field_hash_pair
an_intent-ok = refl

add_intent_locks_example :
    (add_intent stand_ins 5 next_intent none (add_intent stand_ins 4 an_intent none start).1).0
    ≢ ok tt
add_intent_locks_example =
    add_intent_locks stand_ins 4 5 an_intent next_intent none none start an_intent-ok refl

abbrev open_order : OrderLifecycleRecord
open_order = record {
  intent_commitment = "0xi";
  residual_commitment = none;
  status = opened;
  batch_id = "0x1";
  created_at = 1;
  matching_run_id = none;
  market_id = "0x1";
  owner_commitment = "0x1";
  cancellation_tx_hash = none;
  updated_at = 1;
}

abbrev with_order : Store
with_order = record start { order_lifecycle = ("0xi", open_order) ∷ [] }

cancelled-ok : (cancel_order 9 "0xi" none with_order).0 ≡ ok (cancel_record 9 none open_order)
unfolding cancel_order Map.get ◌===◌
cancelled-ok = refl

cancel_order_twice_example :
    cancel_order 10 "0xi" none (cancel_order 9 "0xi" none with_order).1
    ≡ (err "order already cancelled", (cancel_order 9 "0xi" none with_order).1)
cancel_order_twice_example =
    cancel_order_twice 9 10 "0xi" none none with_order (cancel_record 9 none open_order)
      cancelled-ok

abbrev a_run : BatchExecutionRunRecord
a_run = record {
  aggregate_volume = none;
  batch_id = "0x1";
  completed_at = none;
  fill_count = none;
  market_id = "0x1";
  phase = none;
  phase_timestamps = none;
  reason = none;
  run_id = "0x1";
  settlement_digest = none;
  started_at = 1;
  status = settled;
  updated_at = none;
}

-- A number of runs with the same record.
abbrev runs : ℕ → Map BatchExecutionRunRecord
runs zero = []
runs (suc n) = ("0x1", a_run) ∷ runs n

run_id-truthy : truthy "0x1" ≡ true
unfolding ◌===◌
run_id-truthy = refl

runs-truthy : (n : ℕ) → All (λ e. truthy e.0 ≡ true) (runs n)
runs-truthy zero = tt
runs-truthy (suc n) = (run_id-truthy, runs-truthy n)

trim_batch_execution_runs-drop_example :
    trim_batch_execution_runs (runs 1003) ≡ drop (length (runs 1003) - 1000) (runs 1003)
trim_batch_execution_runs-drop_example =
    trim_batch_execution_runs-drop (runs 1003) (runs-truthy 1003)
