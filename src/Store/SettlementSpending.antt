-- ===== src/Store/SettlementSpending.antt =====
-- What a settlement does to the set of spent nullifiers (server/src/shared/state/store.ts).
use pnlx.Base.{
  ℕ, ◌≡◌, true, not, List, [], ◌∷◌, some, arith, length, ◌+◌, inl, inr, Bool-cases, sym,
}
use pnlx.Base.Text.{Hex, truthy, ◌===◌, ===_iff}
use pnlx.Base.StringSet
use pnlx.Base.Map
use pnlx.Base.Map.{Map}
use pnlx.Crypto.Primitives.{Primitives}
use pnlx.Protocol.Orders.{ResidualOrderRecord, OrderLifecycleUpdate, PrivateMatchIntent}
use pnlx.Protocol.Positions.{PositionLifecycleRecord}
use pnlx.Protocol.Settlements.{BatchSettlement}
use pnlx.Protocol.Accounts.{AccountEventRecord}
use pnlx.Store.Monad.{Action, gets, raise_if, or_raise, modify, for_each, assert_proof, spend, ◌>>◌}
use pnlx.Store.Funds.{add_account_event}
use pnlx.Store.Orders.{add_residual_order}
use pnlx.Store.Positions.{add_position_opening}
use pnlx.Store.Settlement.{
  check_settlement, credit_settlement, record_settlement, add_settlement, validate_position_opening,
  validate_position_openings, validate_residual_order, validate_residual_orders, apply_order_update,
  apply_settlement_order_updates, open_position, private_by_intent, settlement_key, index_of,
}
use pnlx.Store.Effects.{
  Keeps, Adds, Blocks, bind-Keeps, bind-Adds, bind-Adds_first, bind-Blocks, bind-Blocks_first,
  gets-Keeps, for_each-Keeps, spend-Keeps, spend-Adds, spend-Blocks, raise_if-Keeps,
  assert_proof-Keeps, or_raise-Keeps,
}
use pnlx.Store.Keeps.{add_account_event-Keeps, add_residual_order-Keeps, add_position_opening-Keeps}

for_each-spend-Keeps : (ns : List Hex) → Keeps (for_each ns spend)
for_each-spend-Keeps ns = for_each-Keeps ns spend spend-Keeps

for_each-spend-Adds :
    (n : Hex) (ns : List Hex) → StringSet.has n ns ≡ true → Adds n (for_each ns spend)
unfolding StringSet.has
for_each-spend-Adds n [] h = cc
for_each-spend-Adds n (x ∷ xs) h = elim (Bool-cases (n === x)) [
  | inl e ↦
      bind-Adds_first n (spend x) (λ _. for_each xs spend)
        (rw (sym ((===_iff n x).0 e)) (spend-Adds n)) (λ _. for_each-spend-Keeps xs)
  | inr e ↦
      bind-Adds n (spend x) (λ _. for_each xs spend)
        (λ _. for_each-spend-Adds n xs (ground (arith, e, h)))
]

for_each-spend-Blocks :
    (n : Hex) (ns : List Hex) → StringSet.has n ns ≡ true → Blocks n (for_each ns spend)
unfolding StringSet.has
for_each-spend-Blocks n [] h = cc
for_each-spend-Blocks n (x ∷ xs) h = elim (Bool-cases (n === x)) [
  | inl e ↦
      bind-Blocks_first n (spend x) (λ _. for_each xs spend)
        (rw (sym ((===_iff n x).0 e)) (spend-Blocks n))
  | inr e ↦
      bind-Blocks n (spend x) (λ _. for_each xs spend) (spend-Keeps x)
        (λ _. for_each-spend-Blocks n xs (ground (arith, e, h)))
]

module _ (settlement : BatchSettlement) where
  validate_position_opening-Keeps :
      (o : PositionLifecycleRecord) → Keeps (validate_position_opening settlement o)
  unfolding validate_position_opening
  validate_position_opening-Keeps o = record { kept = λ n s h. ground arith }

  validate_residual_order-Keeps :
      (r : ResidualOrderRecord) → Keeps (validate_residual_order settlement r)
  unfolding validate_residual_order
  validate_residual_order-Keeps r = record { kept = λ n s h. ground arith }

  apply_order_update-Keeps : (now : ℕ) (u : OrderLifecycleUpdate) → Keeps (apply_order_update now u)
  unfolding apply_order_update
  apply_order_update-Keeps now u = record { kept = λ n s h. ground arith }

  open_position-Keeps :
      (first : ℕ) (o : PositionLifecycleRecord) → Keeps (open_position first settlement o)
  unfolding open_position
  open_position-Keeps first o =
      bind-Keeps (or_raise (index_of o.position_commitment settlement.new_commitments) _)
        (λ offset. add_position_opening (record o { position_index = some (first + offset) }))
        (or_raise-Keeps (index_of o.position_commitment settlement.new_commitments) _)
        (λ offset. add_position_opening-Keeps (record o { position_index = some (first + offset) }))

  record_settlement-Keeps : (later : ℕ) → Keeps (modify (record_settlement later settlement))
  unfolding record_settlement
  record_settlement-Keeps later = record { kept = λ n s h. h }

  credit_settlement-Keeps : Keeps (modify (credit_settlement settlement))
  unfolding credit_settlement
  credit_settlement-Keeps = record { kept = λ n s h. h }

module _ (p : Primitives) (now later : ℕ) (settlement : BatchSettlement)
    (openings : List PositionLifecycleRecord) (residuals : List ResidualOrderRecord)
    (events : List AccountEventRecord) (payloads : List PrivateMatchIntent) where
  check_settlement-Keeps : Keeps (check_settlement settlement openings residuals)
  unfolding check_settlement assert_proof validate_position_openings validate_residual_orders
  check_settlement-Keeps =
      bind-Keeps (gets (λ s. Map.has (settlement_key settlement) s.settlements)) _ (gets-Keeps _)
        (λ known.
          bind-Keeps (raise_if known "batch already settled") _ (raise_if-Keeps known _) (λ _.
            bind-Keeps
              (raise_if (not (truthy settlement.match_transcript_digest))
                "match transcript digest is required")
              _ (raise_if-Keeps _ _)
              (λ _.
                bind-Keeps (assert_proof settlement.proof) _ (assert_proof-Keeps settlement.proof)
                  (λ _.
                    bind-Keeps (for_each openings (validate_position_opening settlement)) _
                      (for_each-Keeps openings _ (validate_position_opening-Keeps settlement))
                      (λ _.
                        for_each-Keeps residuals (validate_residual_order settlement)
                          (validate_residual_order-Keeps settlement))))))

  by_intent : Map PrivateMatchIntent
  by_intent = private_by_intent payloads []

  put_residual : ResidualOrderRecord → Action (Unit {0})
  unfolding by_intent
  put_residual r = add_residual_order p r (Map.get r.intent_commitment by_intent)

  -- What a settlement does after its nullifiers are spent.
  put_orders : ℕ → Action (Unit {0})
  unfolding put_residual
  put_orders first = do
    apply_settlement_order_updates now settlement
    for_each openings (open_position first settlement)
    for_each residuals put_residual
    for_each events add_account_event
    modify (record_settlement later settlement)

  put_orders-Keeps : (first : ℕ) → Keeps (put_orders first)
  unfolding put_orders put_residual apply_settlement_order_updates
  put_orders-Keeps first =
      bind-Keeps (for_each settlement.order_updates (apply_order_update now)) _
        (for_each-Keeps settlement.order_updates (apply_order_update now)
          (apply_order_update-Keeps settlement now))
        (λ _.
          bind-Keeps (for_each openings (open_position first settlement)) _
            (for_each-Keeps openings (open_position first settlement)
              (open_position-Keeps settlement first))
            (λ _.
              bind-Keeps (for_each residuals put_residual) _
                (for_each-Keeps residuals put_residual
                  (λ r. add_residual_order-Keeps p r (Map.get r.intent_commitment by_intent)))
                (λ _.
                  bind-Keeps (for_each events add_account_event) _
                    (for_each-Keeps events add_account_event add_account_event-Keeps)
                    (λ _. record_settlement-Keeps settlement later))))

  pub add_settlement-Keeps :
      Keeps (add_settlement p now later settlement openings residuals events payloads)
  unfolding add_settlement put_orders put_residual by_intent
  add_settlement-Keeps =
      bind-Keeps (check_settlement settlement openings residuals) _ check_settlement-Keeps (λ _.
        bind-Keeps (gets (λ s. length s.position_commitments)) _ (gets-Keeps _) (λ first.
          bind-Keeps (modify (credit_settlement settlement)) _ (credit_settlement-Keeps settlement)
            (λ _.
              bind-Keeps (for_each settlement.spent_nullifiers spend) (λ _. put_orders first)
                (for_each-spend-Keeps settlement.spent_nullifiers) (λ _. put_orders-Keeps first))))

  pub add_settlement-Adds :
      (n : Hex)
      → StringSet.has n settlement.spent_nullifiers ≡ true
      → Adds n (add_settlement p now later settlement openings residuals events payloads)
  unfolding add_settlement put_orders put_residual by_intent
  add_settlement-Adds n h = bind-Adds n (check_settlement settlement openings residuals) _ (λ _.
      bind-Adds n (gets (λ s. length s.position_commitments)) _ (λ first.
        bind-Adds n (modify (credit_settlement settlement)) _ (λ _.
          bind-Adds_first n (for_each settlement.spent_nullifiers spend) (λ _. put_orders first)
            (for_each-spend-Adds n settlement.spent_nullifiers h) (λ _. put_orders-Keeps first))))

  pub add_settlement-Blocks :
      (n : Hex)
      → StringSet.has n settlement.spent_nullifiers ≡ true
      → Blocks n (add_settlement p now later settlement openings residuals events payloads)
  unfolding add_settlement put_orders put_residual by_intent
  add_settlement-Blocks n h =
      bind-Blocks n (check_settlement settlement openings residuals) _ check_settlement-Keeps (λ _.
        bind-Blocks n (gets (λ s. length s.position_commitments)) _ (gets-Keeps _) (λ first.
          bind-Blocks n (modify (credit_settlement settlement)) _
            (credit_settlement-Keeps settlement)
            (λ _.
              bind-Blocks_first n (for_each settlement.spent_nullifiers spend)
                (λ _. put_orders first) (for_each-spend-Blocks n settlement.spent_nullifiers h))))
