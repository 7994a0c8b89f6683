-- ===== src/Store/Commands.antt =====
-- Every method of `ProtocolStore` that writes, as one type of calls
-- (server/src/shared/state/store.ts). A number is a value of `Date.now()`.
use pnlx.Base.{ℕ, Bool, List, [], ◌∷◌, Option}
use pnlx.Base.Text.{Hex}
use pnlx.Crypto.Primitives.{Primitives}
use pnlx.Protocol.Proof.{ProofMeta}
use pnlx.Protocol.Orders.{IntentRecord, ResidualOrderRecord, PrivateMatchIntent}
use pnlx.Protocol.Positions.{
  PositionLifecycleRecord, LiquidationRecord, LiquidationAutomationJobRecord,
  ConditionalOrderCommitment, ConditionalOrderRecord, PositionCloseRecord,
}
use pnlx.Protocol.Markets.{
  MarketConfig, FundingUpdateRecord, FundingPremiumSampleRecord, BatchExecutionRunRecord,
}
use pnlx.Protocol.Settlements.{BatchSettlement}
use pnlx.Protocol.Accounts.{
  PendingAssetDepositRecord, DisclosureRecord, WithdrawalRecord, AccountEventRecord,
  AccountEncryptionKeyRecord,
}
use pnlx.Store.State.{Store}
use pnlx.Store.Monad.{Action, pure, ◌>>◌, record_proof, spend}
use pnlx.Store.Funds.{
  add_margin_commitment, add_pending_asset_deposit, finalize_pending_asset_deposit, add_disclosure,
  add_withdrawal, add_account_event, upsert_account_encryption_key,
}
use pnlx.Store.Markets.{
  add_market, update_market, add_funding_update, add_funding_premium_samples,
  add_liquidation_automation_job, update_liquidation_automation_job, add_batch_execution_run,
  upsert_batch_execution_run,
}
use pnlx.Store.Orders.{
  add_intent, update_intent_submission_tx_hash, cancel_order, add_residual_order,
}
use pnlx.Store.Positions.{
  add_position_opening, add_liquidation, add_conditional_order, add_conditional_close,
  add_position_close, add_manual_position_close, add_paired_position_closes,
}
use pnlx.Store.Settlement.{SettlementTransactions, add_settlement, update_settlement_transactions}

pub data Command : Type 0 where
  margin_commitment : Hex → Command
  pending_deposit : PendingAssetDepositRecord → Command
  finalize_deposit : ℕ → Hex → Hex → Option Hex → Command
  disclosure : DisclosureRecord → Command
  withdrawal : WithdrawalRecord → Command
  account_event : AccountEventRecord → Command
  encryption_key : AccountEncryptionKeyRecord → Command
  new_market : MarketConfig → Command
  changed_market : MarketConfig → Command
  funding_update : FundingUpdateRecord → Command
  premium_samples : List FundingPremiumSampleRecord → Command
  new_job : LiquidationAutomationJobRecord → Command
  changed_job : LiquidationAutomationJobRecord → Command
  new_run : BatchExecutionRunRecord → List Hex → Command
  changed_run : BatchExecutionRunRecord → List Hex → Command
  intent : ℕ → IntentRecord → Option PrivateMatchIntent → Command
  submitted : Hex → Hex → Command
  cancel : ℕ → Hex → Option Hex → Command
  residual : ResidualOrderRecord → Option PrivateMatchIntent → Command
  opening : PositionLifecycleRecord → Command
  liquidation : ℕ → LiquidationRecord → Command
  conditional_order : ConditionalOrderCommitment → Command
  conditional_close : ConditionalOrderRecord → Command
  position_close : ℕ → PositionCloseRecord → Command
  manual_close : ℕ → PositionCloseRecord → Command
  paired_close : ℕ → ℕ → PositionCloseRecord → PositionCloseRecord → Bool → Command
  settlement :
      ℕ
      → ℕ
      → BatchSettlement
      → List PositionLifecycleRecord
      → List ResidualOrderRecord
      → List AccountEventRecord
      → List PrivateMatchIntent
      → Command
  transactions : Hex → SettlementTransactions → Command
  proof : ProofMeta → Command
  spent : Hex → Command

unfoldable pub step : Primitives → Command → Action (Unit {0})
step p (margin_commitment c) = add_margin_commitment c
step p (pending_deposit r) = add_pending_asset_deposit r
step p (finalize_deposit now c relay tx) = finalize_pending_asset_deposit now c relay tx >> pure tt
step p (disclosure r) = add_disclosure r
step p (withdrawal r) = add_withdrawal r
step p (account_event r) = add_account_event r
step p (encryption_key r) = upsert_account_encryption_key r
step p (new_market m) = add_market m
step p (changed_market m) = update_market m
step p (funding_update r) = add_funding_update r
step p (premium_samples rs) = add_funding_premium_samples rs
step p (new_job r) = add_liquidation_automation_job r
step p (changed_job r) = update_liquidation_automation_job r
step p (new_run r cs) = add_batch_execution_run r cs
step p (changed_run r cs) = upsert_batch_execution_run r cs
step p (intent now r payload) = add_intent p now r payload
step p (submitted c tx) = update_intent_submission_tx_hash c tx >> pure tt
step p (cancel now c tx) = cancel_order now c tx >> pure tt
step p (residual r payload) = add_residual_order p r payload
step p (opening r) = add_position_opening r
step p (liquidation now r) = add_liquidation now r
step p (conditional_order r) = add_conditional_order r
step p (conditional_close r) = add_conditional_close r
step p (position_close now r) = add_position_close p now r
step p (manual_close now r) = add_manual_position_close p now r
step p (paired_close now later trader maker conditional) =
    add_paired_position_closes p now later trader maker conditional
step p (settlement now later b openings residuals events payloads) =
    add_settlement p now later b openings residuals events payloads
step p (transactions digest t) = update_settlement_transactions digest t >> pure tt
step p (proof r) = record_proof r
step p (spent n) = spend n

-- A sequence of calls; a call that throws keeps what it wrote, and the next one follows.
unfoldable pub run : Primitives → List Command → Store → Store
run p [] s = s
run p (c ∷ cs) s = run p cs (step p c s).1

-- The nullifiers that a call spends when it returns.
abbrev pub spends : Command → List Hex
spends (withdrawal r) = r.nullifier ∷ []
spends (liquidation now r) = r.position_nullifier ∷ []
spends (position_close now r) = r.position_nullifier ∷ []
spends (manual_close now r) = r.position_nullifier ∷ []
spends (paired_close now later trader maker conditional) =
    trader.position_nullifier ∷ maker.position_nullifier ∷ []
spends (settlement now later b openings residuals events payloads) = b.spent_nullifiers
spends (spent n) = n ∷ []
spends _ = []
