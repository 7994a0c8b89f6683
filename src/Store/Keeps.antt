-- ===== src/Store/Keeps.antt =====
-- No call that spends nothing takes a nullifier out of the spent set
-- (server/src/shared/state/store.ts).
use pnlx.Base.{ℕ, List, Option, arith}
use pnlx.Base.Text.{Hex}
use pnlx.Crypto.Primitives.{Primitives}
use pnlx.Protocol.Orders.{IntentRecord, ResidualOrderRecord, PrivateMatchIntent}
use pnlx.Protocol.Positions.{
  PositionLifecycleRecord, LiquidationRecord, LiquidationAutomationJobRecord,
  ConditionalOrderCommitment, ConditionalOrderRecord, PositionCloseRecord,
}
use pnlx.Protocol.Markets.{
  MarketConfig, FundingUpdateRecord, FundingPremiumSampleRecord, BatchExecutionRunRecord,
}
use pnlx.Protocol.Accounts.{
  PendingAssetDepositRecord, DisclosureRecord, AccountEventRecord, AccountEncryptionKeyRecord,
}
use pnlx.Store.Monad.{assert_proof}
use pnlx.Store.Funds.{
  add_margin_commitment, add_pending_asset_deposit, finalize_pending_asset_deposit, add_disclosure,
  add_account_event, upsert_account_encryption_key,
}
use pnlx.Store.Markets.{
  add_market, update_market, add_funding_update, add_funding_premium_samples,
  add_liquidation_automation_job, update_liquidation_automation_job, add_batch_execution_run,
  upsert_batch_execution_run,
}
use pnlx.Store.Orders.{
  add_intent, update_intent_submission_tx_hash, cancel_order, add_residual_order,
}
use pnlx.Store.Positions.{
  add_position_opening, mark_position_closed, mark_position_liquidated, add_conditional_order,
  add_conditional_close,
}
use pnlx.Store.Settlement.{SettlementTransactions, update_settlement_transactions}
use pnlx.Store.Effects.{Keeps}

pub add_margin_commitment-Keeps : (c : Hex) → Keeps (add_margin_commitment c)
unfolding add_margin_commitment
add_margin_commitment-Keeps c = record { kept = λ n s h. ground arith }

pub add_pending_asset_deposit-Keeps :
    (r : PendingAssetDepositRecord) → Keeps (add_pending_asset_deposit r)
unfolding add_pending_asset_deposit
add_pending_asset_deposit-Keeps r = record { kept = λ n s h. ground arith }

pub finalize_pending_asset_deposit-Keeps :
    (now : ℕ) (c relay : Hex) (tx : Option Hex)
    → Keeps (finalize_pending_asset_deposit now c relay tx)
unfolding finalize_pending_asset_deposit
finalize_pending_asset_deposit-Keeps now c relay tx = record { kept = λ n s h. ground arith }

pub add_disclosure-Keeps : (r : DisclosureRecord) → Keeps (add_disclosure r)
unfolding add_disclosure
add_disclosure-Keeps r = record { kept = λ n s h. ground arith }

pub add_account_event-Keeps : (r : AccountEventRecord) → Keeps (add_account_event r)
unfolding add_account_event
add_account_event-Keeps r = record { kept = λ n s h. ground arith }

pub upsert_account_encryption_key-Keeps :
    (r : AccountEncryptionKeyRecord) → Keeps (upsert_account_encryption_key r)
unfolding upsert_account_encryption_key
upsert_account_encryption_key-Keeps r = record { kept = λ n s h. ground arith }

pub add_market-Keeps : (m : MarketConfig) → Keeps (add_market m)
unfolding add_market
add_market-Keeps m = record { kept = λ n s h. ground arith }

pub update_market-Keeps : (m : MarketConfig) → Keeps (update_market m)
unfolding update_market
update_market-Keeps m = record { kept = λ n s h. ground arith }

pub add_funding_update-Keeps : (r : FundingUpdateRecord) → Keeps (add_funding_update r)
unfolding add_funding_update
add_funding_update-Keeps r = record { kept = λ n s h. ground arith }

pub add_funding_premium_samples-Keeps :
    (rs : List FundingPremiumSampleRecord) → Keeps (add_funding_premium_samples rs)
unfolding add_funding_premium_samples
add_funding_premium_samples-Keeps rs = record { kept = λ n s h. ground arith }

pub add_liquidation_automation_job-Keeps :
    (r : LiquidationAutomationJobRecord) → Keeps (add_liquidation_automation_job r)
unfolding add_liquidation_automation_job
add_liquidation_automation_job-Keeps r = record { kept = λ n s h. ground arith }

pub update_liquidation_automation_job-Keeps :
    (r : LiquidationAutomationJobRecord) → Keeps (update_liquidation_automation_job r)
unfolding update_liquidation_automation_job
update_liquidation_automation_job-Keeps r = record { kept = λ n s h. ground arith }

pub add_batch_execution_run-Keeps :
    (r : BatchExecutionRunRecord) (cs : List Hex) → Keeps (add_batch_execution_run r cs)
unfolding add_batch_execution_run
add_batch_execution_run-Keeps r cs = record { kept = λ n s h. ground arith }

pub upsert_batch_execution_run-Keeps :
    (r : BatchExecutionRunRecord) (cs : List Hex) → Keeps (upsert_batch_execution_run r cs)
unfolding upsert_batch_execution_run
upsert_batch_execution_run-Keeps r cs = record { kept = λ n s h. ground arith }

pub add_intent-Keeps :
    (p : Primitives) (now : ℕ) (r : IntentRecord) (o : Option PrivateMatchIntent)
    → Keeps (add_intent p now r o)
unfolding add_intent
add_intent-Keeps p now r o = record { kept = λ n s h. ground arith }

pub update_intent_submission_tx_hash-Keeps :
    (c tx : Hex) → Keeps (update_intent_submission_tx_hash c tx)
unfolding update_intent_submission_tx_hash
update_intent_submission_tx_hash-Keeps c tx = record { kept = λ n s h. ground arith }

pub cancel_order-Keeps : (now : ℕ) (c : Hex) (tx : Option Hex) → Keeps (cancel_order now c tx)
unfolding cancel_order
cancel_order-Keeps now c tx = record { kept = λ n s h. ground arith }

pub add_residual_order-Keeps :
    (p : Primitives) (r : ResidualOrderRecord) (o : Option PrivateMatchIntent)
    → Keeps (add_residual_order p r o)
unfolding add_residual_order
add_residual_order-Keeps p r o = record { kept = λ n s h. ground arith }

pub add_position_opening-Keeps : (r : PositionLifecycleRecord) → Keeps (add_position_opening r)
unfolding add_position_opening
add_position_opening-Keeps r = record { kept = λ n s h. ground arith }

pub mark_position_closed-Keeps :
    (now : ℕ) (r : PositionCloseRecord) → Keeps (mark_position_closed now r)
unfolding mark_position_closed
mark_position_closed-Keeps now r = record { kept = λ n s h. ground arith }

pub add_conditional_order-Keeps : (r : ConditionalOrderCommitment) → Keeps (add_conditional_order r)
unfolding add_conditional_order
add_conditional_order-Keeps r = record { kept = λ n s h. ground arith }

pub add_conditional_close-Keeps : (r : ConditionalOrderRecord) → Keeps (add_conditional_close r)
unfolding add_conditional_close assert_proof
add_conditional_close-Keeps r = record { kept = λ n s h. ground arith }

pub mark_position_liquidated-Keeps :
    (now : ℕ) (r : LiquidationRecord) → Keeps (mark_position_liquidated now r)
unfolding mark_position_liquidated
mark_position_liquidated-Keeps now r = record { kept = λ n s h. ground arith }

pub update_settlement_transactions-Keeps :
    (digest : Hex) (t : SettlementTransactions) → Keeps (update_settlement_transactions digest t)
unfolding update_settlement_transactions
update_settlement_transactions-Keeps digest t = record { kept = λ n s h. ground arith }
