-- ===== src/Store/Keyed/Records.antt =====
-- The calls that spend nothing store no key or member twice
-- (server/src/shared/state/store.ts).
use pnlx.Base.{ℕ, Option, none, some, arith, not, ◌||◌}
use pnlx.Base.Text.{truthy, ◌===◌}
use pnlx.Base.StringSet
use pnlx.Store.Tree.{margin_membership_root}
use pnlx.Base.Map
use pnlx.Base.Map.{Map}
use pnlx.Base.Text.{Hex}
use pnlx.Crypto.Primitives.{Primitives}
use pnlx.Protocol.Orders.{IntentRecord, ResidualOrderRecord, PrivateMatchIntent}
use pnlx.Protocol.Positions.{
  PositionLifecycleRecord, LiquidationRecord, ConditionalOrderCommitment, ConditionalOrderRecord,
  PositionCloseRecord,
}
use pnlx.Protocol.Accounts.{
  PendingAssetDepositRecord, DisclosureRecord, AccountEventRecord, AccountEncryptionKeyRecord,
}
use pnlx.Store.PrivateIntent.{PublicRecord, of_intent}
use pnlx.Store.Monad.{Action, assert_proof, gets, raise_if, lift, modify, ◌>>=◌, ◌>>◌}
use pnlx.Store.Funds.{
  add_margin_commitment, add_pending_asset_deposit, finalize_pending_asset_deposit, add_disclosure,
  add_account_event, upsert_account_encryption_key,
}
use pnlx.Store.Orders.{
  is_locked, open_order, put_private, add_intent, update_intent_submission_tx_hash, cancel_order,
  add_residual_order,
}
use pnlx.Store.Positions.{
  add_position_opening, mark_position_closed, mark_position_liquidated, add_conditional_order,
  add_conditional_close,
}
use pnlx.Store.Settlement.{SettlementTransactions, update_settlement_transactions}
use pnlx.Store.Keyed.{
  KeepsKeyed, bind-KeepsKeyed, read-KeepsKeyed, guard-KeepsKeyed, set-Distinct, add-Distinct,
}

pub add_margin_commitment-KeepsKeyed : (c : Hex) → KeepsKeyed (add_margin_commitment c)
unfolding add_margin_commitment
add_margin_commitment-KeepsKeyed c = record {
  kept = λ s k. grind (arith, k, set-Distinct, add-Distinct);
}

pub add_pending_asset_deposit-KeepsKeyed :
    (r : PendingAssetDepositRecord) → KeepsKeyed (add_pending_asset_deposit r)
unfolding add_pending_asset_deposit
add_pending_asset_deposit-KeepsKeyed r = record {
  kept = λ s k. grind (arith, k, set-Distinct, add-Distinct);
}

pub finalize_pending_asset_deposit-KeepsKeyed :
    (now : ℕ) (c relay : Hex) (tx : Option Hex)
    → KeepsKeyed (finalize_pending_asset_deposit now c relay tx)
unfolding finalize_pending_asset_deposit
finalize_pending_asset_deposit-KeepsKeyed now c relay tx = record {
  kept = λ s k. grind (arith, k, set-Distinct, add-Distinct);
}

pub add_disclosure-KeepsKeyed : (r : DisclosureRecord) → KeepsKeyed (add_disclosure r)
unfolding add_disclosure
add_disclosure-KeepsKeyed r = record { kept = λ s k. grind (arith, k, set-Distinct, add-Distinct) }

pub add_account_event-KeepsKeyed : (r : AccountEventRecord) → KeepsKeyed (add_account_event r)
unfolding add_account_event
add_account_event-KeepsKeyed r = record {
  kept = λ s k. grind (arith, k, set-Distinct, add-Distinct);
}

pub upsert_account_encryption_key-KeepsKeyed :
    (r : AccountEncryptionKeyRecord) → KeepsKeyed (upsert_account_encryption_key r)
unfolding upsert_account_encryption_key
upsert_account_encryption_key-KeepsKeyed r = record {
  kept = λ s k. grind (arith, k, set-Distinct, add-Distinct);
}

put_private-KeepsKeyed :
    (p : Primitives) (r : PublicRecord) (o : Option PrivateMatchIntent)
    → KeepsKeyed (put_private p r o)
unfolding put_private
put_private-KeepsKeyed p r none = record { kept = λ s k. k }
put_private-KeepsKeyed p r (some payload) = record { kept = λ s k. grind (arith, k, set-Distinct) }

-- What `add_intent` does after the private payload is kept.
put_checked_intent : Primitives → ℕ → IntentRecord → Action (Unit {0})
put_checked_intent p now r = do
  assert_proof r.proof
  computed ← gets (margin_membership_root p)
  root ← lift computed
  raise_if (not (r.margin_root === root)) "intent margin root is not current"
  spent ← gets (λ s. StringSet.has r.note_nullifier s.spent_nullifiers)
  raise_if spent "intent nullifier already spent"
  locked ← gets (λ s. is_locked s r.note_nullifier)
  raise_if locked "intent nullifier already locked"
  modify (λ s. record s {
    intents = Map.set r.intent_commitment r s.intents;
    order_lifecycle = Map.set r.intent_commitment (open_order r now) s.order_lifecycle;
  })

put_checked_intent-KeepsKeyed :
    (p : Primitives) (now : ℕ) (r : IntentRecord) → KeepsKeyed (put_checked_intent p now r)
unfolding put_checked_intent assert_proof
put_checked_intent-KeepsKeyed p now r = record {
  kept = λ s k. ground (
    arith,
    k,
    set-Distinct r.intent_commitment r s.intents,
    set-Distinct r.intent_commitment (open_order r now) s.order_lifecycle,
  );
}

pub add_intent-KeepsKeyed :
    (p : Primitives) (now : ℕ) (r : IntentRecord) (o : Option PrivateMatchIntent)
    → KeepsKeyed (add_intent p now r o)
unfolding add_intent put_checked_intent
add_intent-KeepsKeyed p now r o =
    read-KeepsKeyed (λ s. Map.has r.intent_commitment s.intents) _
      (λ known. guard-KeepsKeyed known "intent commitment already exists" _ (
        guard-KeepsKeyed
          (not (truthy r.batch_digest)
            || not (truthy r.market_digest)
            || not (truthy r.owner_commitment_field))
          "intent public binding is required" _
          (guard-KeepsKeyed (not (truthy r.matching_payload_commitment))
            "intent matching payload commitment is required" _
            (bind-KeepsKeyed (put_private p (of_intent r) o) (λ _. put_checked_intent p now r)
              (put_private-KeepsKeyed p (of_intent r) o)
              (λ _. put_checked_intent-KeepsKeyed p now r)))))

pub update_intent_submission_tx_hash-KeepsKeyed :
    (c tx : Hex) → KeepsKeyed (update_intent_submission_tx_hash c tx)
unfolding update_intent_submission_tx_hash
update_intent_submission_tx_hash-KeepsKeyed c tx = record {
  kept = λ s k. grind (arith, k, set-Distinct, add-Distinct);
}

pub cancel_order-KeepsKeyed :
    (now : ℕ) (c : Hex) (tx : Option Hex) → KeepsKeyed (cancel_order now c tx)
unfolding cancel_order
cancel_order-KeepsKeyed now c tx = record {
  kept = λ s k. grind (arith, k, set-Distinct, add-Distinct);
}

pub add_residual_order-KeepsKeyed :
    (p : Primitives) (r : ResidualOrderRecord) (o : Option PrivateMatchIntent)
    → KeepsKeyed (add_residual_order p r o)
unfolding add_residual_order
add_residual_order-KeepsKeyed p r o = record {
  kept = λ s k. grind (arith, k, set-Distinct, add-Distinct);
}

pub add_position_opening-KeepsKeyed :
    (r : PositionLifecycleRecord) → KeepsKeyed (add_position_opening r)
unfolding add_position_opening
add_position_opening-KeepsKeyed r = record {
  kept = λ s k. grind (arith, k, set-Distinct, add-Distinct);
}

pub mark_position_closed-KeepsKeyed :
    (now : ℕ) (r : PositionCloseRecord) → KeepsKeyed (mark_position_closed now r)
unfolding mark_position_closed
mark_position_closed-KeepsKeyed now r = record {
  kept = λ s k. grind (arith, k, set-Distinct, add-Distinct);
}

pub add_conditional_order-KeepsKeyed :
    (r : ConditionalOrderCommitment) → KeepsKeyed (add_conditional_order r)
unfolding add_conditional_order
add_conditional_order-KeepsKeyed r = record {
  kept = λ s k. grind (arith, k, set-Distinct, add-Distinct);
}

pub add_conditional_close-KeepsKeyed :
    (r : ConditionalOrderRecord) → KeepsKeyed (add_conditional_close r)
unfolding add_conditional_close assert_proof
add_conditional_close-KeepsKeyed r = record {
  kept = λ s k. grind (arith, k, set-Distinct, add-Distinct);
}

pub mark_position_liquidated-KeepsKeyed :
    (now : ℕ) (r : LiquidationRecord) → KeepsKeyed (mark_position_liquidated now r)
unfolding mark_position_liquidated
mark_position_liquidated-KeepsKeyed now r = record {
  kept = λ s k. grind (arith, k, set-Distinct, add-Distinct);
}

pub update_settlement_transactions-KeepsKeyed :
    (digest : Hex) (t : SettlementTransactions)
    → KeepsKeyed (update_settlement_transactions digest t)
unfolding update_settlement_transactions
update_settlement_transactions-KeepsKeyed digest t = record {
  kept = λ s k. grind (arith, k, set-Distinct, add-Distinct);
}
