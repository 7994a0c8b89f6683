-- ===== src/Store/Settlement.antt =====
-- The settlement of a batch (server/src/shared/state/store.ts). A settlement always carries its
-- order updates and its margin changes, as its type says.
use pnlx.Base.{
  ℕ, ◌+◌, not, ◌&&◌, String, List, [], ◌∷◌, Option, none, some, or_else, length, find_by,
  if◌then◌else◌,
}
use pnlx.Base.Int.{pos, ◌/ℤ◌}
use pnlx.Base.Text.{Hex, ◌===◌, ◌⧺◌, truthy, truthy?}
use pnlx.Base.Map
use pnlx.Base.Map.{Map}
use pnlx.Base.StringSet
use pnlx.Crypto.Primitives.{Primitives}
use pnlx.Protocol.Proof.{ProofMeta}
use pnlx.Protocol.Orders.{
  IntentRecord, ResidualOrderRecord, OrderLifecycleUpdate, OrderLifecycleRecord, PrivateMatchIntent,
}
use pnlx.Protocol.Positions.{PositionLifecycleRecord}
use pnlx.Protocol.Settlements.{BatchSettlement}
use pnlx.Protocol.Accounts.{AccountEventRecord}
use pnlx.Store.State.{Store, MarketSettlementVolumeRecord}
use pnlx.Store.Monad.{
  Action, pure, gets, or_raise, raise_if, modify, for_each, ◌>>=◌, ◌>>◌, assert_proof, spend,
}
use pnlx.Store.Orders.{is_partially_filled, add_residual_order}
use pnlx.Store.Positions.{add_position_opening}
use pnlx.Store.Funds.{add_account_event}

unfoldable pub settlement_key : BatchSettlement → String
settlement_key settlement = settlement.market_id ⧺ ":" ⧺ settlement.batch_id

-- One opening against its settlement.
unfoldable pub validate_position_opening :
    BatchSettlement → PositionLifecycleRecord → Action (Unit {0})
validate_position_opening settlement opening = do
  raise_if (not (opening.batch_id === settlement.batch_id)) "position opening batch mismatch"
  raise_if (not (opening.market_id === settlement.market_id)) "position opening market mismatch"
  raise_if (not (opening.settlement_digest === settlement.settlement_digest))
      "position opening settlement mismatch"
  raise_if (not (StringSet.has opening.position_commitment settlement.new_commitments))
      "position opening commitment mismatch"

unfoldable pub validate_position_openings :
    BatchSettlement → List PositionLifecycleRecord → Action (Unit {0})
unfolding validate_position_opening
validate_position_openings settlement openings =
    for_each openings (validate_position_opening settlement)

-- The intents that are partially filled, by their residual's commitment.
unfoldable pub residual_updates : List OrderLifecycleUpdate → Map Hex → Map Hex
residual_updates [] updates = updates
residual_updates (u ∷ us) updates = residual_updates us (
    if is_partially_filled u.status && truthy? u.residual_commitment
    then Map.set (or_else u.residual_commitment "") u.intent_commitment updates
    else updates)

unfoldable pub validate_residual_order : BatchSettlement → ResidualOrderRecord → Action (Unit {0})
unfolding residual_updates
validate_residual_order settlement residual = do
  raise_if (not (residual.batch_id === settlement.batch_id)) "residual order batch mismatch"
  raise_if (not (residual.market_id === settlement.market_id)) "residual order market mismatch"
  let source = Map.get residual.intent_commitment (residual_updates settlement.order_updates [])
  raise_if (not (truthy? source)) "residual order update mismatch"
  raise_if (not (or_else source "" === residual.source_intent_commitment))
      "residual order source mismatch"

unfoldable pub validate_residual_orders :
    BatchSettlement → List ResidualOrderRecord → Action (Unit {0})
unfolding validate_residual_order
validate_residual_orders settlement residuals =
    for_each residuals (validate_residual_order settlement)

-- The batch, the market and the owner of an order, from its intent or else its residual order.
pub record OrderSource : Type 0 where
  pub batch_id : String
  pub market_id : String
  pub owner_commitment : Hex

abbrev pub order_source : Option IntentRecord → Option ResidualOrderRecord → Option OrderSource
order_source (some i) _ = some (record {
  batch_id = i.batch_id;
  market_id = i.market_id;
  owner_commitment = i.owner_commitment;
})
order_source none (some r) = some (record {
  batch_id = r.batch_id;
  market_id = r.market_id;
  owner_commitment = r.owner_commitment;
})
order_source none none = none

abbrev pub previous_run : Option OrderLifecycleRecord → Option Hex
previous_run none = none
previous_run (some r) = r.matching_run_id

abbrev pub previous_time : ℕ → Option OrderLifecycleRecord → ℕ
previous_time now none = now
previous_time now (some r) = r.created_at

abbrev pub updated_order :
    ℕ → OrderLifecycleUpdate → OrderSource → Option OrderLifecycleRecord → OrderLifecycleRecord
updated_order now update order previous = record {
  intent_commitment = update.intent_commitment;
  residual_commitment = update.residual_commitment;
  status = update.status;
  batch_id = order.batch_id;
  created_at = previous_time now previous;
  matching_run_id = previous_run previous;
  market_id = order.market_id;
  owner_commitment = order.owner_commitment;
  cancellation_tx_hash = none;
  updated_at = now;
}

unfoldable pub apply_order_update : ℕ → OrderLifecycleUpdate → Action (Unit {0})
apply_order_update now update = do
  source ← gets (λ s.
      order_source (Map.get update.intent_commitment s.intents)
        (Map.get update.intent_commitment s.residual_orders))
  order ← or_raise source "unknown settlement intent"
  modify (λ s. record s {
    order_lifecycle =
        Map.set update.intent_commitment
          (updated_order now update order (Map.get update.intent_commitment s.order_lifecycle))
          s.order_lifecycle;
  })

unfoldable pub apply_settlement_order_updates : ℕ → BatchSettlement → Action (Unit {0})
unfolding apply_order_update
apply_settlement_order_updates now settlement =
    for_each settlement.order_updates (apply_order_update now)

-- `indexOf`
unfoldable pub index_of : Hex → List Hex → Option ℕ
index_of x [] = none
index_of x (y ∷ ys) =
    let rest = index_of x ys in
    if x === y then some 0 else elim rest [ none ↦ none | some i ↦ some (i + 1) ]

unfoldable pub open_position : ℕ → BatchSettlement → PositionLifecycleRecord → Action (Unit {0})
unfolding index_of add_position_opening
open_position first settlement opening = do
  offset ←
      or_raise (index_of opening.position_commitment settlement.new_commitments)
        "position opening commitment is not in settlement"
  add_position_opening (record opening { position_index = some (first + offset) })

unfoldable pub private_by_intent :
    List PrivateMatchIntent → Map PrivateMatchIntent → Map PrivateMatchIntent
private_by_intent [] payloads = payloads
private_by_intent (x ∷ xs) payloads = private_by_intent xs (Map.set x.intent_commitment x payloads)

-- The commitments of a settlement join the two sets.
unfoldable pub credit_settlement : BatchSettlement → Store → Store
credit_settlement settlement s = record s {
  position_commitments = StringSet.add_all settlement.new_commitments s.position_commitments;
  margin_commitments = StringSet.add_all settlement.margin_change_commitments s.margin_commitments;
}

abbrev pub settlement_volume : ℕ → BatchSettlement → MarketSettlementVolumeRecord
settlement_volume now settlement = record {
  market_id = settlement.market_id;
  matched_volume = settlement.aggregate_volume /ℤ pos 2;
  settled_at = now;
  settlement_digest = settlement.settlement_digest;
}

-- The settlement and its volume are recorded last.
unfoldable pub record_settlement : ℕ → BatchSettlement → Store → Store
record_settlement later settlement s = record s {
  settlements = Map.set (settlement_key settlement) settlement s.settlements;
  market_settlement_volumes =
      Map.set settlement.settlement_digest (settlement_volume later settlement)
        s.market_settlement_volumes;
}

-- What `addSettlement` checks before it writes.
unfoldable pub check_settlement :
    BatchSettlement → List PositionLifecycleRecord → List ResidualOrderRecord → Action (Unit {0})
unfolding validate_position_openings validate_residual_orders
check_settlement settlement openings residuals = do
  known ← gets (λ s. Map.has (settlement_key settlement) s.settlements)
  raise_if known "batch already settled"
  raise_if (not (truthy settlement.match_transcript_digest)) "match transcript digest is required"
  assert_proof settlement.proof
  validate_position_openings settlement openings
  validate_residual_orders settlement residuals

-- `now` is the time of the order updates, `later` that of the volume record.
unfoldable pub add_settlement :
    Primitives
    → ℕ
    → ℕ
    → BatchSettlement
    → List PositionLifecycleRecord
    → List ResidualOrderRecord
    → List AccountEventRecord
    → List PrivateMatchIntent
    → Action (Unit {0})
unfolding check_settlement credit_settlement record_settlement apply_settlement_order_updates
    open_position private_by_intent
add_settlement p now later settlement openings residuals events payloads = do
  check_settlement settlement openings residuals
  first ← gets (λ s. length s.position_commitments)
  modify (credit_settlement settlement)
  for_each settlement.spent_nullifiers spend
  apply_settlement_order_updates now settlement
  for_each openings (open_position first settlement)
  let by_intent = private_by_intent payloads []
  for_each residuals (λ r. add_residual_order p r (Map.get r.intent_commitment by_intent))
  for_each events add_account_event
  modify (record_settlement later settlement)

unfoldable pub settlement_by_digest : Hex → Store → Option BatchSettlement
settlement_by_digest digest s =
    find_by (λ x. x.settlement_digest === digest) (Map.values s.settlements)

-- What a call gives. A hash is `none` where the object has no such key, which keeps the old one, and
-- `some none` where the key is there and undefined, which the spread writes.
pub record SettlementTransactions : Type 0 where
  pub proof_verification_tx_hash : Option (Option Hex)
  pub settlement_tx_hash : Option (Option Hex)
  pub boundless_request_id : Option Hex

-- One key of `{ ...settlement, ...transactionHashes }`.
abbrev pub spread : Option (Option Hex) → Option Hex → Option Hex
spread none old = old
spread (some given) old = given

abbrev pub with_request : Option Hex → ProofMeta → ProofMeta
with_request request proof =
    if truthy? request then record proof { boundless_request_id = request } else proof

unfoldable pub update_settlement_transactions :
    Hex → SettlementTransactions → Action BatchSettlement
update_settlement_transactions digest transactions = do
  found ← gets (λ s. find_by (λ e. e.1.settlement_digest === digest) s.settlements)
  entry ← or_raise found "unknown settlement"
  let settlement = entry.1
  let updated = record settlement {
    proof_verification_tx_hash =
        spread transactions.proof_verification_tx_hash settlement.proof_verification_tx_hash;
    settlement_tx_hash = spread transactions.settlement_tx_hash settlement.settlement_tx_hash;
    proof = with_request transactions.boundless_request_id settlement.proof;
  }
  modify (λ s. record s { settlements = Map.set entry.0 updated s.settlements })
  pure updated
