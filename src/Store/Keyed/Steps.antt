-- ===== src/Store/Keyed/Steps.antt =====
-- Every call keeps the lists that stand for the store's maps and sets free of repeated keys, so that
-- the round trip of the snapshot speaks of every store that calls make
-- (server/src/shared/state/store.ts).
use pnlx.Base.{◌≡◌, [], ◌∷◌, List, arith}
use pnlx.Crypto.Primitives.{Primitives}
use pnlx.Protocol.Proof.{ProofMeta}
use pnlx.Store.State.{Store, new_store}
use pnlx.Store.Monad.{record_proof}
use pnlx.Store.Funds.{finalize_pending_asset_deposit}
use pnlx.Store.Orders.{update_intent_submission_tx_hash, cancel_order}
use pnlx.Store.Settlement.{update_settlement_transactions}
use pnlx.Store.Snapshot.{snapshot_protocol_store, apply_protocol_store_snapshot}
use pnlx.Store.Commands.{
  Command, margin_commitment, pending_deposit, finalize_deposit, disclosure, withdrawal,
  account_event, encryption_key, new_market, changed_market, funding_update, premium_samples,
  new_job, changed_job, new_run, changed_run, intent, submitted, cancel, residual, opening,
  liquidation, conditional_order, conditional_close, position_close, manual_close, paired_close,
  settlement, transactions, proof, spent, step, run,
}
use pnlx.Store.RoundTrip.{IsKeyed, IsRetained, apply-snapshot}
use pnlx.Store.Keyed.{KeepsKeyed, bind-KeepsKeyed, pure-KeepsKeyed, add-Distinct}
use pnlx.Store.Keyed.Records.{
  add_account_event-KeepsKeyed, add_conditional_close-KeepsKeyed, add_conditional_order-KeepsKeyed,
  add_disclosure-KeepsKeyed, add_intent-KeepsKeyed, add_margin_commitment-KeepsKeyed,
  add_pending_asset_deposit-KeepsKeyed, add_position_opening-KeepsKeyed,
  add_residual_order-KeepsKeyed, cancel_order-KeepsKeyed, finalize_pending_asset_deposit-KeepsKeyed,
  update_intent_submission_tx_hash-KeepsKeyed, update_settlement_transactions-KeepsKeyed,
  upsert_account_encryption_key-KeepsKeyed,
}
use pnlx.Store.Keyed.Markets.{
  add_market-KeepsKeyed, update_market-KeepsKeyed, add_funding_update-KeepsKeyed,
  add_funding_premium_samples-KeepsKeyed, add_liquidation_automation_job-KeepsKeyed,
  update_liquidation_automation_job-KeepsKeyed, add_batch_execution_run-KeepsKeyed,
  upsert_batch_execution_run-KeepsKeyed,
}
use pnlx.Store.Keyed.Spending.{
  add_liquidation-KeepsKeyed, add_manual_position_close-KeepsKeyed,
  add_paired_position_closes-KeepsKeyed, add_position_close-KeepsKeyed, add_withdrawal-KeepsKeyed,
  spend-KeepsKeyed,
}
use pnlx.Store.Keyed.Settlement.{add_settlement-KeepsKeyed}

record_proof-KeepsKeyed : (r : ProofMeta) → KeepsKeyed (record_proof r)
unfolding record_proof
record_proof-KeepsKeyed r = record { kept = λ s k. grind (arith, k, add-Distinct) }

pub step-KeepsKeyed : (p : Primitives) (c : Command) → KeepsKeyed (step p c)
unfolding step
step-KeepsKeyed p (margin_commitment c) = add_margin_commitment-KeepsKeyed c
step-KeepsKeyed p (pending_deposit r) = add_pending_asset_deposit-KeepsKeyed r
step-KeepsKeyed p (finalize_deposit now c relay tx) =
    bind-KeepsKeyed (finalize_pending_asset_deposit now c relay tx) _
      (finalize_pending_asset_deposit-KeepsKeyed now c relay tx) (λ _. pure-KeepsKeyed tt)
step-KeepsKeyed p (disclosure r) = add_disclosure-KeepsKeyed r
step-KeepsKeyed p (withdrawal r) = add_withdrawal-KeepsKeyed r
step-KeepsKeyed p (account_event r) = add_account_event-KeepsKeyed r
step-KeepsKeyed p (encryption_key r) = upsert_account_encryption_key-KeepsKeyed r
step-KeepsKeyed p (new_market m) = add_market-KeepsKeyed m
step-KeepsKeyed p (changed_market m) = update_market-KeepsKeyed m
step-KeepsKeyed p (funding_update r) = add_funding_update-KeepsKeyed r
step-KeepsKeyed p (premium_samples rs) = add_funding_premium_samples-KeepsKeyed rs
step-KeepsKeyed p (new_job r) = add_liquidation_automation_job-KeepsKeyed r
step-KeepsKeyed p (changed_job r) = update_liquidation_automation_job-KeepsKeyed r
step-KeepsKeyed p (new_run r cs) = add_batch_execution_run-KeepsKeyed r cs
step-KeepsKeyed p (changed_run r cs) = upsert_batch_execution_run-KeepsKeyed r cs
step-KeepsKeyed p (intent now r payload) = add_intent-KeepsKeyed p now r payload
step-KeepsKeyed p (submitted c tx) =
    bind-KeepsKeyed (update_intent_submission_tx_hash c tx) _
      (update_intent_submission_tx_hash-KeepsKeyed c tx) (λ _. pure-KeepsKeyed tt)
step-KeepsKeyed p (cancel now c tx) =
    bind-KeepsKeyed (cancel_order now c tx) _ (cancel_order-KeepsKeyed now c tx)
      (λ _. pure-KeepsKeyed tt)
step-KeepsKeyed p (residual r payload) = add_residual_order-KeepsKeyed p r payload
step-KeepsKeyed p (opening r) = add_position_opening-KeepsKeyed r
step-KeepsKeyed p (liquidation now r) = add_liquidation-KeepsKeyed now r
step-KeepsKeyed p (conditional_order r) = add_conditional_order-KeepsKeyed r
step-KeepsKeyed p (conditional_close r) = add_conditional_close-KeepsKeyed r
step-KeepsKeyed p (position_close now r) = add_position_close-KeepsKeyed p now r
step-KeepsKeyed p (manual_close now r) = add_manual_position_close-KeepsKeyed p now r
step-KeepsKeyed p (paired_close now later trader maker conditional) =
    add_paired_position_closes-KeepsKeyed p now later trader maker conditional
step-KeepsKeyed p (settlement now later b openings residuals events payloads) =
    add_settlement-KeepsKeyed p now later b openings residuals events payloads
step-KeepsKeyed p (transactions digest t) =
    bind-KeepsKeyed (update_settlement_transactions digest t) _
      (update_settlement_transactions-KeepsKeyed digest t) (λ _. pure-KeepsKeyed tt)
step-KeepsKeyed p (proof r) = record_proof-KeepsKeyed r
step-KeepsKeyed p (spent n) = spend-KeepsKeyed n

pub new_store-IsKeyed : IsKeyed new_store
new_store-IsKeyed = record {
  margin_commitments_keyed = tt;
  position_commitments_keyed = tt;
  spent_nullifiers_keyed = tt;
  intents_keyed = tt;
  residual_orders_keyed = tt;
  order_lifecycle_keyed = tt;
  position_lifecycle_keyed = tt;
  markets_keyed = tt;
  settlements_keyed = tt;
  market_settlement_volumes_keyed = tt;
  liquidations_keyed = tt;
  conditional_orders_keyed = tt;
  conditional_closes_keyed = tt;
  position_closes_keyed = tt;
  disclosures_keyed = tt;
  funding_updates_keyed = tt;
  funding_premium_samples_keyed = tt;
  liquidation_automation_jobs_keyed = tt;
  batch_execution_runs_keyed = tt;
  withdrawals_keyed = tt;
  account_events_keyed = tt;
  account_encryption_keys_keyed = tt;
  pending_asset_deposits_keyed = tt;
  private_match_intents_keyed = tt;
  proofs_keyed = tt;
}

-- Whatever calls are made of a store in which no key or member stands twice, of which some may throw,
-- none stands twice afterwards.
pub run-IsKeyed :
    (p : Primitives) (calls : List Command) (s : Store) → IsKeyed s → IsKeyed (run p calls s)
unfolding run
run-IsKeyed p [] s k = k
run-IsKeyed p (c ∷ cs) s k = run-IsKeyed p cs (step p c s).1 ((step-KeepsKeyed p c).kept s k)

-- A store that calls have made of a new one, with its samples and runs retained and its volumes
-- recorded, is read back from its own snapshot unchanged: no key stands twice in it.
pub run-apply_snapshot :
    (p : Primitives) (calls : List Command) (before : Store)
    → IsRetained (run p calls new_store)
    → apply_protocol_store_snapshot (snapshot_protocol_store (run p calls new_store)) before
      ≡ run p calls new_store
run-apply_snapshot p calls before retained =
    apply-snapshot (run p calls new_store) before (run-IsKeyed p calls new_store new_store-IsKeyed)
      retained
