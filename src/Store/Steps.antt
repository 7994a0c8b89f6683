-- ===== src/Store/Steps.antt =====
-- What each call does to the set of spent nullifiers (server/src/shared/state/store.ts).
use pnlx.Base.{[], ◌∷◌}
use pnlx.Base.Text.{Hex}
use pnlx.Crypto.Primitives.{Primitives}
use pnlx.Protocol.Proof.{ProofMeta}
use pnlx.Store.Monad.{record_proof}
use pnlx.Store.Funds.{finalize_pending_asset_deposit}
use pnlx.Store.Orders.{update_intent_submission_tx_hash, cancel_order}
use pnlx.Store.Settlement.{update_settlement_transactions}
use pnlx.Base.{◌≡◌, ◌⊎◌, inl, inr, arith, true}
use pnlx.Base.Text.{===_iff}
use pnlx.Base.StringSet
use pnlx.Store.Commands.{
  Command, margin_commitment, pending_deposit, finalize_deposit, disclosure, withdrawal,
  account_event, encryption_key, new_market, changed_market, funding_update, premium_samples,
  new_job, changed_job, new_run, changed_run, intent, submitted, cancel, residual, opening,
  liquidation, conditional_order, conditional_close, position_close, manual_close, paired_close,
  settlement, transactions, proof, spent, step, spends,
}
use pnlx.Store.Effects.{
  Keeps, Adds, Blocks, bind-Keeps, pure-Keeps, spend-Keeps, spend-Adds, spend-Blocks, Adds-same,
  Blocks-same,
}
use pnlx.Store.Keeps.{
  add_margin_commitment-Keeps, add_pending_asset_deposit-Keeps, add_disclosure-Keeps,
  add_account_event-Keeps, upsert_account_encryption_key-Keeps, add_market-Keeps,
  update_market-Keeps, add_funding_update-Keeps, add_funding_premium_samples-Keeps,
  add_liquidation_automation_job-Keeps, update_liquidation_automation_job-Keeps,
  add_batch_execution_run-Keeps, upsert_batch_execution_run-Keeps, add_intent-Keeps,
  add_residual_order-Keeps, add_position_opening-Keeps, add_conditional_order-Keeps,
  add_conditional_close-Keeps, finalize_pending_asset_deposit-Keeps,
  update_intent_submission_tx_hash-Keeps, cancel_order-Keeps, update_settlement_transactions-Keeps,
}
use pnlx.Store.Spending.{
  add_withdrawal-Keeps, add_withdrawal-Adds, add_withdrawal-Blocks, add_liquidation-Keeps,
  add_liquidation-Adds, add_liquidation-Blocks, add_position_close-Keeps, add_position_close-Adds,
  add_position_close-Blocks, add_manual_position_close-Keeps, add_manual_position_close-Adds,
  add_manual_position_close-Blocks,
}
use pnlx.Store.PairedSpending.{
  add_paired_position_closes-Keeps, add_paired_position_closes-Adds_trader,
  add_paired_position_closes-Adds_maker, add_paired_position_closes-Blocks_trader,
  add_paired_position_closes-Blocks_maker,
}
use pnlx.Store.SettlementSpending.{add_settlement-Keeps, add_settlement-Adds, add_settlement-Blocks}

record_proof-Keeps : (r : ProofMeta) → Keeps (record_proof r)
unfolding record_proof
record_proof-Keeps r = record { kept = λ n s h. h }

only : (n m : Hex) → StringSet.has n (m ∷ []) ≡ true → n ≡ m
unfolding StringSet.has
only n m h = ground (arith, h, ===_iff n m)

either : (n l m : Hex) → StringSet.has n (l ∷ m ∷ []) ≡ true → (n ≡ l) ⊎ (n ≡ m)
unfolding StringSet.has
either n l m h = ground (arith, h, ===_iff n l, ===_iff n m)

pub step-Keeps : (p : Primitives) (c : Command) → Keeps (step p c)
unfolding step
step-Keeps p (margin_commitment c) = add_margin_commitment-Keeps c
step-Keeps p (pending_deposit r) = add_pending_asset_deposit-Keeps r
step-Keeps p (finalize_deposit now c relay tx) =
    bind-Keeps (finalize_pending_asset_deposit now c relay tx) _
      (finalize_pending_asset_deposit-Keeps now c relay tx) (λ _. pure-Keeps tt)
step-Keeps p (disclosure r) = add_disclosure-Keeps r
step-Keeps p (withdrawal r) = add_withdrawal-Keeps r
step-Keeps p (account_event r) = add_account_event-Keeps r
step-Keeps p (encryption_key r) = upsert_account_encryption_key-Keeps r
step-Keeps p (new_market m) = add_market-Keeps m
step-Keeps p (changed_market m) = update_market-Keeps m
step-Keeps p (funding_update r) = add_funding_update-Keeps r
step-Keeps p (premium_samples rs) = add_funding_premium_samples-Keeps rs
step-Keeps p (new_job r) = add_liquidation_automation_job-Keeps r
step-Keeps p (changed_job r) = update_liquidation_automation_job-Keeps r
step-Keeps p (new_run r cs) = add_batch_execution_run-Keeps r cs
step-Keeps p (changed_run r cs) = upsert_batch_execution_run-Keeps r cs
step-Keeps p (intent now r payload) = add_intent-Keeps p now r payload
step-Keeps p (submitted c tx) =
    bind-Keeps (update_intent_submission_tx_hash c tx) _
      (update_intent_submission_tx_hash-Keeps c tx) (λ _. pure-Keeps tt)
step-Keeps p (cancel now c tx) =
    bind-Keeps (cancel_order now c tx) _ (cancel_order-Keeps now c tx) (λ _. pure-Keeps tt)
step-Keeps p (residual r payload) = add_residual_order-Keeps p r payload
step-Keeps p (opening r) = add_position_opening-Keeps r
step-Keeps p (liquidation now r) = add_liquidation-Keeps now r
step-Keeps p (conditional_order r) = add_conditional_order-Keeps r
step-Keeps p (conditional_close r) = add_conditional_close-Keeps r
step-Keeps p (position_close now r) = add_position_close-Keeps p now r
step-Keeps p (manual_close now r) = add_manual_position_close-Keeps p now r
step-Keeps p (paired_close now later trader maker conditional) =
    add_paired_position_closes-Keeps p now later trader maker conditional
step-Keeps p (settlement now later b openings residuals events payloads) =
    add_settlement-Keeps p now later b openings residuals events payloads
step-Keeps p (transactions digest t) =
    bind-Keeps (update_settlement_transactions digest t) _
      (update_settlement_transactions-Keeps digest t) (λ _. pure-Keeps tt)
step-Keeps p (proof r) = record_proof-Keeps r
step-Keeps p (spent n') = spend-Keeps n'

pub step-Adds :
    (p : Primitives) (c : Command) (n : Hex) → StringSet.has n (spends c) ≡ true → Adds n (step p c)
unfolding step StringSet.has
step-Adds p (margin_commitment c) n h = cc
step-Adds p (pending_deposit r) n h = cc
step-Adds p (finalize_deposit now c relay tx) n h = cc
step-Adds p (disclosure r) n h = cc
step-Adds p (withdrawal r) n h = Adds-same _ n _ (only n r.nullifier h) (add_withdrawal-Adds r)
step-Adds p (account_event r) n h = cc
step-Adds p (encryption_key r) n h = cc
step-Adds p (new_market m) n h = cc
step-Adds p (changed_market m) n h = cc
step-Adds p (funding_update r) n h = cc
step-Adds p (premium_samples rs) n h = cc
step-Adds p (new_job r) n h = cc
step-Adds p (changed_job r) n h = cc
step-Adds p (new_run r cs) n h = cc
step-Adds p (changed_run r cs) n h = cc
step-Adds p (intent now r payload) n h = cc
step-Adds p (submitted c tx) n h = cc
step-Adds p (cancel now c tx) n h = cc
step-Adds p (residual r payload) n h = cc
step-Adds p (opening r) n h = cc
step-Adds p (liquidation now r) n h =
    Adds-same _ n _ (only n r.position_nullifier h) (add_liquidation-Adds now r)
step-Adds p (conditional_order r) n h = cc
step-Adds p (conditional_close r) n h = cc
step-Adds p (position_close now r) n h =
    Adds-same _ n _ (only n r.position_nullifier h) (add_position_close-Adds p now r)
step-Adds p (manual_close now r) n h =
    Adds-same _ n _ (only n r.position_nullifier h) (add_manual_position_close-Adds p now r)
step-Adds p (paired_close now later trader maker conditional) n h =
    elim (either n trader.position_nullifier maker.position_nullifier h) [
      | inl e ↦
          Adds-same _ n _ e
            (add_paired_position_closes-Adds_trader p now later trader maker conditional)
      | inr e ↦
          Adds-same _ n _ e
            (add_paired_position_closes-Adds_maker p now later trader maker conditional)
    ]
step-Adds p (settlement now later b openings residuals events payloads) n h =
    add_settlement-Adds p now later b openings residuals events payloads n h
step-Adds p (transactions digest t) n h = cc
step-Adds p (proof r) n h = cc
step-Adds p (spent n') n h = Adds-same _ n _ (only n n' h) (spend-Adds n')

pub step-Blocks :
    (p : Primitives) (c : Command) (n : Hex)
    → StringSet.has n (spends c) ≡ true
    → Blocks n (step p c)
unfolding step StringSet.has
step-Blocks p (margin_commitment c) n h = cc
step-Blocks p (pending_deposit r) n h = cc
step-Blocks p (finalize_deposit now c relay tx) n h = cc
step-Blocks p (disclosure r) n h = cc
step-Blocks p (withdrawal r) n h =
    Blocks-same _ n _ (only n r.nullifier h) (add_withdrawal-Blocks r)
step-Blocks p (account_event r) n h = cc
step-Blocks p (encryption_key r) n h = cc
step-Blocks p (new_market m) n h = cc
step-Blocks p (changed_market m) n h = cc
step-Blocks p (funding_update r) n h = cc
step-Blocks p (premium_samples rs) n h = cc
step-Blocks p (new_job r) n h = cc
step-Blocks p (changed_job r) n h = cc
step-Blocks p (new_run r cs) n h = cc
step-Blocks p (changed_run r cs) n h = cc
step-Blocks p (intent now r payload) n h = cc
step-Blocks p (submitted c tx) n h = cc
step-Blocks p (cancel now c tx) n h = cc
step-Blocks p (residual r payload) n h = cc
step-Blocks p (opening r) n h = cc
step-Blocks p (liquidation now r) n h =
    Blocks-same _ n _ (only n r.position_nullifier h) (add_liquidation-Blocks now r)
step-Blocks p (conditional_order r) n h = cc
step-Blocks p (conditional_close r) n h = cc
step-Blocks p (position_close now r) n h =
    Blocks-same _ n _ (only n r.position_nullifier h) (add_position_close-Blocks p now r)
step-Blocks p (manual_close now r) n h =
    Blocks-same _ n _ (only n r.position_nullifier h) (add_manual_position_close-Blocks p now r)
step-Blocks p (paired_close now later trader maker conditional) n h =
    elim (either n trader.position_nullifier maker.position_nullifier h) [
      | inl e ↦
          Blocks-same _ n _ e
            (add_paired_position_closes-Blocks_trader p now later trader maker conditional)
      | inr e ↦
          Blocks-same _ n _ e
            (add_paired_position_closes-Blocks_maker p now later trader maker conditional)
    ]
step-Blocks p (settlement now later b openings residuals events payloads) n h =
    add_settlement-Blocks p now later b openings residuals events payloads n h
step-Blocks p (transactions digest t) n h = cc
step-Blocks p (proof r) n h = cc
step-Blocks p (spent n') n h = Blocks-same _ n _ (only n n' h) (spend-Blocks n')
