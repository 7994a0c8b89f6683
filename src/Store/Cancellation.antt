-- ===== src/Store/Cancellation.antt =====
-- What a cancellation of an order does, and what a second one right after it does
-- (server/src/shared/state/store.ts).
use pnlx.Base.{
  ℕ, ◌≡◌, ◌≢◌, refl, not, Bool, true, false, ◌&&◌, Option, none, some, arith, ap, inl, inr, ◌||◌,
  Bool-cases, Option-cases,
}
use pnlx.Base.Text.{Hex, ◌===◌, truthy?}
use pnlx.Base.Map
use pnlx.Base.Map.{get-set_self}
use pnlx.Base.Result.{Result, ok, err}
use pnlx.Protocol.Orders.{IntentRecord, OrderLifecycleRecord, cancelled}
use pnlx.Store.State.{Store}
use pnlx.Store.Orders.{
  is_filled, is_cancelled, is_partially_filled, locks, cancel_record, cancel_order,
}

-- An order that is filled, cancelled, or partially filled with a residual order that took it over.
abbrev pub is_final : OrderLifecycleRecord → Bool
is_final r =
    is_filled r.status
    || is_cancelled r.status
    || (is_partially_filled r.status && truthy? r.residual_commitment)

abbrev pub cancelled_in : ℕ → Hex → Option Hex → OrderLifecycleRecord → Store → Store
cancelled_in now c tx r s = record s {
  order_lifecycle = Map.set c (cancel_record now tx r) s.order_lifecycle;
}

cancel_order_open :
    (now : ℕ) (c : Hex) (tx : Option Hex) (s : Store) (r : OrderLifecycleRecord)
    → Map.get c s.order_lifecycle ≡ some r
    → is_final r ≡ false
    → cancel_order now c tx s ≡ (ok (cancel_record now tx r), cancelled_in now c tx r s)
unfolding cancel_order
cancel_order_open now c tx s r h live = ground (arith, h, live)

cancel_order_final :
    (now : ℕ) (c : Hex) (tx : Option Hex) (s : Store) (r : OrderLifecycleRecord)
    → Map.get c s.order_lifecycle ≡ some r
    → is_final r ≡ true
    → (x : OrderLifecycleRecord) → (cancel_order now c tx s).0 ≢ ok x
unfolding cancel_order
cancel_order_final now c tx s r h final x e = ground (arith, h, final)

cancel_order_unknown :
    (now : ℕ) (c : Hex) (tx : Option Hex) (s : Store)
    → Map.get c s.order_lifecycle ≡ none
    → (cancel_order now c tx s).0 ≡ err "unknown order"
unfolding cancel_order
cancel_order_unknown now c tx s h = ground (arith, h)

cancel_order_again :
    (now : ℕ) (c : Hex) (tx : Option Hex) (s : Store) (r : OrderLifecycleRecord)
    → Map.get c s.order_lifecycle ≡ some r
    → r.status ≡ cancelled
    → cancel_order now c tx s ≡ (err "order already cancelled", s)
unfolding cancel_order
cancel_order_again now c tx s r h e = ground (arith, h, e)

-- The record that is returned is cancelled and stored for the order, no other order is touched, and an
-- intent locks its note afterwards if it did before and is not the one that is cancelled.
pub record IsCancelled (c : Hex) (s : Store) (out : Result OrderLifecycleRecord × Store)
    : Type 0 where
  pub written : OrderLifecycleRecord
  pub returned : out.0 ≡ ok written
  pub status_eq : written.status ≡ cancelled
  pub stored : Map.get c out.1.order_lifecycle ≡ some written
  pub others : (d : Hex) → d ≢ c → Map.get d out.1.order_lifecycle ≡ Map.get d s.order_lifecycle
  pub intents_eq : out.1.intents ≡ s.intents
  pub spent_eq : out.1.spent_nullifiers ≡ s.spent_nullifiers
  pub locked :
      (n : Hex) (i : IntentRecord)
      → locks out.1 n i ≡ (locks s n i && not (i.intent_commitment === c))

-- A cancellation that returned wrote the order as cancelled.
cancel_order_wrote :
    (now : ℕ) (c : Hex) (tx : Option Hex) (s : Store) (r : OrderLifecycleRecord)
    → (cancel_order now c tx s).0 ≡ ok r
    → (old : OrderLifecycleRecord) × ((cancel_order now c tx s).1 ≡ cancelled_in now c tx old s)
cancel_order_wrote now c tx s r h = elim (Option-cases (Map.get c s.order_lifecycle)) [
  | inl e ↦ cc (h, cancel_order_unknown now c tx s e)
  | inr (old, e) ↦ elim (Bool-cases (is_final old)) [
    | inl final ↦ absurd (cancel_order_final now c tx s old e final r h)
    | inr live ↦ (old, ap (λ x. x.1) (cancel_order_open now c tx s old e live))
  ]
]

-- When a cancellation has returned, a second one of the same order throws that it is already
-- cancelled, and changes nothing.
pub cancel_order_twice :
    (now later : ℕ) (c : Hex) (tx tx' : Option Hex) (s : Store) (r : OrderLifecycleRecord)
    → (cancel_order now c tx s).0 ≡ ok r
    → cancel_order later c tx' (cancel_order now c tx s).1
      ≡ (err "order already cancelled", (cancel_order now c tx s).1)
cancel_order_twice now later c tx tx' s r h =
    let wrote = cancel_order_wrote now c tx s r h in
    rw wrote.1 (
      cancel_order_again later c tx' (cancelled_in now c tx wrote.0 s)
        (cancel_record now tx wrote.0)
        (get-set_self c (cancel_record now tx wrote.0) s.order_lifecycle) refl)
