-- ===== src/Store/Locks.antt =====
-- An accepted intent locks the nullifier of its note (server/src/shared/state/store.ts).
use pnlx.Base.{ℕ, ◌≡◌, ◌≢◌, Bool, true, [], ◌∷◌, Option, some, some_of, arith}
use pnlx.Base.Text.{Hex, ===_refl}
use pnlx.Base.Map
use pnlx.Base.Map.{Map, get-set_self}
use pnlx.Base.Result.{ok}
use pnlx.Crypto.Primitives.{Primitives}
use pnlx.Protocol.Orders.{IntentRecord, PrivateMatchIntent}
use pnlx.Store.State.{Store}
use pnlx.Store.Orders.{is_locked, locks, open_order, add_intent}

some_of-set :
    {V : Type 0} (test : V → Bool) (k : Hex) (v : V) (m : Map V)
    → test v ≡ true
    → some_of test (Map.values (Map.set k v m)) ≡ true
unfolding Map.set
some_of-set test k v [] h = ground (arith, h)
some_of-set test k v ((j, w) ∷ m) h = ground (arith, h, some_of-set test k v m h)

module _ (p : Primitives) (now : ℕ) (r : IntentRecord) (payload : Option PrivateMatchIntent)
    (s : Store) where
  add_intent-intents :
      (add_intent p now r payload s).0 ≡ ok tt
      → (add_intent p now r payload s).1.intents ≡ Map.set r.intent_commitment r s.intents
  unfolding add_intent
  add_intent-intents h = ground (arith, h)

  add_intent-order_lifecycle :
      (add_intent p now r payload s).0 ≡ ok tt
      → (add_intent p now r payload s).1.order_lifecycle
        ≡ Map.set r.intent_commitment (open_order r now) s.order_lifecycle
  unfolding add_intent
  add_intent-order_lifecycle h = ground (arith, h)

  add_intent-unlocked :
      is_locked s r.note_nullifier ≡ true → (add_intent p now r payload s).0 ≢ ok tt
  unfolding add_intent
  add_intent-unlocked locked h = ground (arith, h, locked)

locks_own :
    (s : Store) (r : IntentRecord) (now : ℕ)
    → Map.get r.intent_commitment s.order_lifecycle ≡ some (open_order r now)
    → locks s r.note_nullifier r ≡ true
locks_own s r now h = ground (arith, h, ===_refl r.note_nullifier)

add_intent-locked :
    (p : Primitives) (now : ℕ) (r : IntentRecord) (payload : Option PrivateMatchIntent) (s : Store)
    → (add_intent p now r payload s).0 ≡ ok tt
    → is_locked (add_intent p now r payload s).1 r.note_nullifier ≡ true
add_intent-locked p now r payload s h =
    let after = (add_intent p now r payload s).1 in
    let own = locks_own after r now (
      rw (add_intent-order_lifecycle p now r payload s h)
        (get-set_self r.intent_commitment (open_order r now) s.order_lifecycle)) in
    rw (add_intent-intents p now r payload s h)
      (some_of-set (locks after r.note_nullifier) r.intent_commitment r s.intents own)

-- When an intent has been added, no other intent with the same note nullifier is accepted next,
-- whichever commitment, batch and market it has.
pub add_intent_locks :
    (p : Primitives) (now later : ℕ) (r next : IntentRecord)
    (payload other : Option PrivateMatchIntent) (s : Store)
    → (add_intent p now r payload s).0 ≡ ok tt
    → next.note_nullifier ≡ r.note_nullifier
    → (add_intent p later next other (add_intent p now r payload s).1).0 ≢ ok tt
add_intent_locks p now later r next payload other s h same =
    add_intent-unlocked p later next other (add_intent p now r payload s).1
      (rw same (add_intent-locked p now r payload s h))
