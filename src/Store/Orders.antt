-- ===== src/Store/Orders.antt =====
-- Intents, residual orders and the life of an order (server/src/shared/state/store.ts).
use pnlx.Base.{ℕ, Bool, true, false, not, ◌&&◌, ◌||◌, Option, none, some, some_of, if◌then◌else◌}
use pnlx.Base.Text.{Hex, ◌===◌, truthy, truthy?}
use pnlx.Base.Map
use pnlx.Base.Map.{Map}
use pnlx.Base.StringSet
use pnlx.Crypto.Primitives.{Primitives}
use pnlx.Protocol.Orders.{
  IntentRecord, ResidualOrderRecord, OrderStatus, opened, partially_filled, filled, cancelled,
  OrderLifecycleRecord, PrivateMatchIntent,
}
use pnlx.Store.State.{Store}
use pnlx.Store.Monad.{
  Action, pure, gets, lift, or_raise, raise_if, modify, ◌>>=◌, ◌>>◌, assert_proof,
}
use pnlx.Store.Tree.{margin_membership_root}
use pnlx.Store.PrivateIntent.{PublicRecord, of_intent, of_residual, assert_private_match_intent}

abbrev pub is_cancelled : OrderStatus → Bool
is_cancelled cancelled = true
is_cancelled _ = false

abbrev pub is_filled : OrderStatus → Bool
is_filled filled = true
is_filled _ = false

abbrev pub is_partially_filled : OrderStatus → Bool
is_partially_filled partially_filled = true
is_partially_filled _ = false

-- `lifecycle?.status !== "cancelled"`
abbrev pub is_live : Option OrderLifecycleRecord → Bool
is_live none = true
is_live (some r) = not (is_cancelled r.status)

-- An intent of the store that locks the nullifier.
abbrev pub locks : Store → Hex → IntentRecord → Bool
locks s nullifier existing =
    existing.note_nullifier === nullifier
    && is_live (Map.get existing.intent_commitment s.order_lifecycle)

abbrev pub is_locked : Store → Hex → Bool
is_locked s nullifier = some_of (locks s nullifier) (Map.values s.intents)

-- Checks the private payload, if there is one, and keeps it.
unfoldable pub put_private :
    Primitives → PublicRecord → Option PrivateMatchIntent → Action (Unit {0})
put_private p r none = pure tt
put_private p r (some payload) = do
  lift (assert_private_match_intent p r payload)
  modify (λ s. record s {
    private_match_intents = Map.set r.intent_commitment payload s.private_match_intents;
  })

abbrev pub open_order : IntentRecord → ℕ → OrderLifecycleRecord
open_order r now = record {
  intent_commitment = r.intent_commitment;
  residual_commitment = none;
  status = opened;
  batch_id = r.batch_id;
  created_at = now;
  matching_run_id = none;
  market_id = r.market_id;
  owner_commitment = r.owner_commitment;
  cancellation_tx_hash = none;
  updated_at = now;
}

unfoldable pub add_intent :
    Primitives → ℕ → IntentRecord → Option PrivateMatchIntent → Action (Unit {0})
unfolding put_private assert_proof
add_intent p now r payload = do
  known ← gets (λ s. Map.has r.intent_commitment s.intents)
  raise_if known "intent commitment already exists"
  raise_if
      (not (truthy r.batch_digest)
        || not (truthy r.market_digest)
        || not (truthy r.owner_commitment_field))
      "intent public binding is required"
  raise_if (not (truthy r.matching_payload_commitment))
      "intent matching payload commitment is required"
  put_private p (of_intent r) payload
  assert_proof r.proof
  computed ← gets (margin_membership_root p)
  root ← lift computed
  raise_if (not (r.margin_root === root)) "intent margin root is not current"
  spent ← gets (λ s. StringSet.has r.note_nullifier s.spent_nullifiers)
  raise_if spent "intent nullifier already spent"
  locked ← gets (λ s. is_locked s r.note_nullifier)
  raise_if locked "intent nullifier already locked"
  modify (λ s. record s {
    intents = Map.set r.intent_commitment r s.intents;
    order_lifecycle = Map.set r.intent_commitment (open_order r now) s.order_lifecycle;
  })

unfoldable pub update_intent_submission_tx_hash : Hex → Hex → Action IntentRecord
update_intent_submission_tx_hash commitment tx_hash = do
  found ← gets (λ s. Map.get commitment s.intents)
  intent ← or_raise found "unknown intent"
  let updated = record intent { submission_tx_hash = some tx_hash }
  modify (λ s. record s { intents = Map.set commitment updated s.intents })
  pure updated

-- The checks of `assertOrderCancellable`, which `cancelOrder` repeats.
unfoldable pub assert_order_cancellable : Hex → Action OrderLifecycleRecord
assert_order_cancellable commitment = do
  found ← gets (λ s. Map.get commitment s.order_lifecycle)
  existing ← or_raise found "unknown order"
  raise_if (is_filled existing.status) "filled order cannot be cancelled"
  raise_if (is_cancelled existing.status) "order already cancelled"
  raise_if (is_partially_filled existing.status && truthy? existing.residual_commitment)
      "This order has rolled over; cancel its active residual instead"
  pure existing

-- The hash is kept if it is given, and the old one otherwise.
abbrev pub cancel_record : ℕ → Option Hex → OrderLifecycleRecord → OrderLifecycleRecord
cancel_record now tx_hash existing = record existing {
  cancellation_tx_hash = if truthy? tx_hash then tx_hash else existing.cancellation_tx_hash;
  status = cancelled;
  updated_at = now;
}

unfoldable pub cancel_order : ℕ → Hex → Option Hex → Action OrderLifecycleRecord
unfolding assert_order_cancellable
cancel_order now commitment tx_hash = do
  existing ← assert_order_cancellable commitment
  let updated = cancel_record now tx_hash existing
  modify (λ s. record s { order_lifecycle = Map.set commitment updated s.order_lifecycle })
  pure updated

abbrev pub open_residual : ResidualOrderRecord → OrderLifecycleRecord
open_residual r = record {
  intent_commitment = r.intent_commitment;
  residual_commitment = none;
  status = opened;
  batch_id = r.batch_id;
  created_at = r.created_at;
  matching_run_id = none;
  market_id = r.market_id;
  owner_commitment = r.owner_commitment;
  cancellation_tx_hash = none;
  updated_at = r.updated_at;
}

unfoldable pub add_residual_order :
    Primitives → ResidualOrderRecord → Option PrivateMatchIntent → Action (Unit {0})
unfolding put_private
add_residual_order p r payload = do
  known ← gets (λ s. Map.has r.intent_commitment s.residual_orders)
  raise_if known "residual order already exists"
  raise_if (not (truthy r.matching_payload_commitment))
      "residual order matching payload commitment is required"
  put_private p (of_residual r) payload
  modify (λ s. record s {
    residual_orders = Map.set r.intent_commitment r s.residual_orders;
    order_lifecycle = Map.set r.intent_commitment (open_residual r) s.order_lifecycle;
  })
