-- ===== src/Store/Keyed/Settlement.antt =====
-- A settlement stores no key or member twice (server/src/shared/state/store.ts).
use pnlx.Base.{ℕ, ◌+◌, not, List, [], String, Option, none, some, length, arith}
use pnlx.Base.Text.{truthy}
use pnlx.Base.Map
use pnlx.Base.Map.{Map}
use pnlx.Crypto.Primitives.{Primitives}
use pnlx.Protocol.Proof.{ProofMeta}
use pnlx.Protocol.Orders.{OrderLifecycleUpdate, ResidualOrderRecord, PrivateMatchIntent}
use pnlx.Protocol.Positions.{PositionLifecycleRecord}
use pnlx.Protocol.Settlements.{BatchSettlement}
use pnlx.Protocol.Accounts.{AccountEventRecord}
use pnlx.Store.Monad.{Action, gets, or_raise, modify, for_each, ◌>>◌, assert_proof, spend}
use pnlx.Store.Funds.{add_account_event}
use pnlx.Store.Orders.{add_residual_order}
use pnlx.Store.Positions.{add_position_opening}
use pnlx.Store.Settlement.{
  settlement_key, validate_position_opening, validate_position_openings, validate_residual_order,
  validate_residual_orders, apply_order_update, apply_settlement_order_updates, index_of,
  open_position, private_by_intent, credit_settlement, record_settlement, check_settlement,
  add_settlement,
}
use pnlx.Store.Keyed.{
  KeepsKeyed, bind-KeepsKeyed, read-KeepsKeyed, guard-KeepsKeyed, for_each-KeepsKeyed, set-Distinct,
  all-Distinct, gets-KeepsKeyed,
}
use pnlx.Store.Keyed.Records.{
  add_position_opening-KeepsKeyed, add_residual_order-KeepsKeyed, add_account_event-KeepsKeyed,
}
use pnlx.Store.Keyed.Spending.{spend-KeepsKeyed}

assert_proof-KeepsKeyed : (proof : ProofMeta) → KeepsKeyed (assert_proof proof)
unfolding assert_proof
assert_proof-KeepsKeyed proof = record { kept = λ s k. ground (arith, k) }

or_raise-KeepsKeyed : {A : Type 0} (o : Option A) (e : String) → KeepsKeyed (or_raise o e)
or_raise-KeepsKeyed none e = record { kept = λ s k. k }
or_raise-KeepsKeyed (some a) e = record { kept = λ s k. k }

module _ (settlement : BatchSettlement) where
  validate_position_opening-KeepsKeyed :
      (o : PositionLifecycleRecord) → KeepsKeyed (validate_position_opening settlement o)
  unfolding validate_position_opening
  validate_position_opening-KeepsKeyed o = record { kept = λ s k. grind (arith, k, set-Distinct) }

  validate_residual_order-KeepsKeyed :
      (r : ResidualOrderRecord) → KeepsKeyed (validate_residual_order settlement r)
  unfolding validate_residual_order
  validate_residual_order-KeepsKeyed r = record { kept = λ s k. grind (arith, k, set-Distinct) }

  apply_order_update-KeepsKeyed :
      (now : ℕ) (u : OrderLifecycleUpdate) → KeepsKeyed (apply_order_update now u)
  unfolding apply_order_update
  apply_order_update-KeepsKeyed now u = record { kept = λ s k. grind (arith, k, set-Distinct) }

  open_position-KeepsKeyed :
      (first : ℕ) (o : PositionLifecycleRecord) → KeepsKeyed (open_position first settlement o)
  unfolding open_position
  open_position-KeepsKeyed first o =
      bind-KeepsKeyed (or_raise (index_of o.position_commitment settlement.new_commitments) _)
        (λ offset. add_position_opening (record o { position_index = some (first + offset) }))
        (or_raise-KeepsKeyed (index_of o.position_commitment settlement.new_commitments) _)
        (λ offset.
          add_position_opening-KeepsKeyed (record o { position_index = some (first + offset) }))

  record_settlement-KeepsKeyed :
      (later : ℕ) → KeepsKeyed (modify (record_settlement later settlement))
  unfolding record_settlement
  record_settlement-KeepsKeyed later = record { kept = λ s k. grind (arith, k, set-Distinct) }

  credit_settlement-KeepsKeyed : KeepsKeyed (modify (credit_settlement settlement))
  unfolding credit_settlement
  credit_settlement-KeepsKeyed = record { kept = λ s k. grind (arith, k, all-Distinct) }

  check_settlement-KeepsKeyed :
      (openings : List PositionLifecycleRecord) (residuals : List ResidualOrderRecord)
      → KeepsKeyed (check_settlement settlement openings residuals)
  unfolding check_settlement validate_position_openings validate_residual_orders
  check_settlement-KeepsKeyed openings residuals =
      read-KeepsKeyed (λ s. Map.has (settlement_key settlement) s.settlements) _
        (λ known. guard-KeepsKeyed known "batch already settled" _ (
          guard-KeepsKeyed (not (truthy settlement.match_transcript_digest))
            "match transcript digest is required" _
            (bind-KeepsKeyed (assert_proof settlement.proof) _
              (assert_proof-KeepsKeyed settlement.proof)
              (λ _.
                bind-KeepsKeyed (for_each openings (validate_position_opening settlement)) _
                  (for_each-KeepsKeyed openings _ validate_position_opening-KeepsKeyed)
                  (λ _.
                    for_each-KeepsKeyed residuals (validate_residual_order settlement)
                      validate_residual_order-KeepsKeyed)))))

module _ (p : Primitives) (now later : ℕ) (settlement : BatchSettlement)
    (openings : List PositionLifecycleRecord) (residuals : List ResidualOrderRecord)
    (events : List AccountEventRecord) (payloads : List PrivateMatchIntent) where
  by_intent : Map PrivateMatchIntent
  by_intent = private_by_intent payloads []

  put_residual : ResidualOrderRecord → Action (Unit {0})
  unfolding by_intent
  put_residual r = add_residual_order p r (Map.get r.intent_commitment by_intent)

  -- What a settlement does after its nullifiers are spent.
  put_orders : ℕ → Action (Unit {0})
  unfolding put_residual
  put_orders first = do
    apply_settlement_order_updates now settlement
    for_each openings (open_position first settlement)
    for_each residuals put_residual
    for_each events add_account_event
    modify (record_settlement later settlement)

  put_orders-KeepsKeyed : (first : ℕ) → KeepsKeyed (put_orders first)
  unfolding put_orders put_residual apply_settlement_order_updates
  put_orders-KeepsKeyed first =
      bind-KeepsKeyed (for_each settlement.order_updates (apply_order_update now)) _
        (for_each-KeepsKeyed settlement.order_updates (apply_order_update now)
          (apply_order_update-KeepsKeyed settlement now))
        (λ _.
          bind-KeepsKeyed (for_each openings (open_position first settlement)) _
            (for_each-KeepsKeyed openings (open_position first settlement)
              (open_position-KeepsKeyed settlement first))
            (λ _.
              bind-KeepsKeyed (for_each residuals put_residual) _
                (for_each-KeepsKeyed residuals put_residual
                  (λ r. add_residual_order-KeepsKeyed p r (Map.get r.intent_commitment by_intent)))
                (λ _.
                  bind-KeepsKeyed (for_each events add_account_event) _
                    (for_each-KeepsKeyed events add_account_event add_account_event-KeepsKeyed)
                    (λ _. record_settlement-KeepsKeyed settlement later))))

  pub add_settlement-KeepsKeyed :
      KeepsKeyed (add_settlement p now later settlement openings residuals events payloads)
  unfolding add_settlement put_orders put_residual by_intent
  add_settlement-KeepsKeyed =
      bind-KeepsKeyed (check_settlement settlement openings residuals) _
        (check_settlement-KeepsKeyed settlement openings residuals)
        (λ _.
          bind-KeepsKeyed (gets (λ s. length s.position_commitments)) _ (gets-KeepsKeyed _)
            (λ first.
              bind-KeepsKeyed (modify (credit_settlement settlement)) _
                (credit_settlement-KeepsKeyed settlement)
                (λ _.
                  bind-KeepsKeyed (for_each settlement.spent_nullifiers spend)
                    (λ _. put_orders first)
                    (for_each-KeepsKeyed settlement.spent_nullifiers spend spend-KeepsKeyed)
                    (λ _. put_orders-KeepsKeyed first))))
