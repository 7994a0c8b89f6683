-- ===== src/Store/Spending.antt =====
-- The calls that spend a nullifier: a spent one stays spent, theirs is spent when they return, and
-- they do not return when it already was (server/src/shared/state/store.ts).
use pnlx.Base.{ℕ, arith}
use pnlx.Base.Text.{===_refl}
use pnlx.Base.StringSet.{has-add}
use pnlx.Protocol.Accounts.{WithdrawalRecord}
use pnlx.Protocol.Positions.{LiquidationRecord, PositionCloseRecord}
use pnlx.Crypto.Primitives.{Primitives}
use pnlx.Store.Positions.{
  add_liquidation, mark_position_liquidated, mark_position_closed, add_position_close_record,
  add_position_close, add_manual_position_close,
}
use pnlx.Store.Monad.{assert_proof, spend}
use pnlx.Store.Funds.{add_withdrawal}
use pnlx.Store.Effects.{Keeps, Adds, Blocks}

pub add_withdrawal-Keeps : (r : WithdrawalRecord) → Keeps (add_withdrawal r)
unfolding add_withdrawal spend assert_proof
add_withdrawal-Keeps r = record {
  kept = λ n s h. ground (arith, has-add n r.nullifier s.spent_nullifiers);
}

pub add_withdrawal-Adds : (r : WithdrawalRecord) → Adds r.nullifier (add_withdrawal r)
unfolding add_withdrawal spend assert_proof
add_withdrawal-Adds r = record {
  added = λ s a h.
      ground (arith, has-add r.nullifier r.nullifier s.spent_nullifiers, ===_refl r.nullifier);
}

pub add_withdrawal-Blocks : (r : WithdrawalRecord) → Blocks r.nullifier (add_withdrawal r)
unfolding add_withdrawal spend assert_proof
add_withdrawal-Blocks r = record { blocked = λ s a h e. ground arith }

pub add_liquidation-Keeps : (now : ℕ) (r : LiquidationRecord) → Keeps (add_liquidation now r)
unfolding add_liquidation mark_position_liquidated spend assert_proof
add_liquidation-Keeps now r = record {
  kept = λ n s h. ground (arith, has-add n r.position_nullifier s.spent_nullifiers);
}

pub add_liquidation-Adds :
    (now : ℕ) (r : LiquidationRecord) → Adds r.position_nullifier (add_liquidation now r)
unfolding add_liquidation mark_position_liquidated spend assert_proof
add_liquidation-Adds now r = record {
  added = λ s a h. ground (
    arith,
    has-add r.position_nullifier r.position_nullifier s.spent_nullifiers,
    ===_refl r.position_nullifier,
  );
}

pub add_liquidation-Blocks :
    (now : ℕ) (r : LiquidationRecord) → Blocks r.position_nullifier (add_liquidation now r)
unfolding add_liquidation spend assert_proof
add_liquidation-Blocks now r = record { blocked = λ s a h e. ground arith }

pub add_position_close_record-Keeps :
    (p : Primitives) (now : ℕ) (r : PositionCloseRecord) → Keeps (add_position_close_record p now r)
unfolding add_position_close_record mark_position_closed spend assert_proof
add_position_close_record-Keeps p now r = record {
  kept = λ n s h. ground (arith, has-add n r.position_nullifier s.spent_nullifiers);
}

pub add_position_close_record-Adds :
    (p : Primitives) (now : ℕ) (r : PositionCloseRecord)
    → Adds r.position_nullifier (add_position_close_record p now r)
unfolding add_position_close_record mark_position_closed spend assert_proof
add_position_close_record-Adds p now r = record {
  added = λ s a h. ground (
    arith,
    has-add r.position_nullifier r.position_nullifier s.spent_nullifiers,
    ===_refl r.position_nullifier,
  );
}

pub add_position_close_record-Blocks :
    (p : Primitives) (now : ℕ) (r : PositionCloseRecord)
    → Blocks r.position_nullifier (add_position_close_record p now r)
unfolding add_position_close_record mark_position_closed spend assert_proof
add_position_close_record-Blocks p now r = record { blocked = λ s a h e. ground arith }

pub add_position_close-Keeps :
    (p : Primitives) (now : ℕ) (r : PositionCloseRecord) → Keeps (add_position_close p now r)
unfolding add_position_close add_position_close_record mark_position_closed spend assert_proof
add_position_close-Keeps p now r = record {
  kept = λ n s h. ground (arith, has-add n r.position_nullifier s.spent_nullifiers);
}

pub add_position_close-Adds :
    (p : Primitives) (now : ℕ) (r : PositionCloseRecord)
    → Adds r.position_nullifier (add_position_close p now r)
unfolding add_position_close add_position_close_record mark_position_closed spend assert_proof
add_position_close-Adds p now r = record {
  added = λ s a h. ground (
    arith,
    has-add r.position_nullifier r.position_nullifier s.spent_nullifiers,
    ===_refl r.position_nullifier,
  );
}

pub add_position_close-Blocks :
    (p : Primitives) (now : ℕ) (r : PositionCloseRecord)
    → Blocks r.position_nullifier (add_position_close p now r)
unfolding add_position_close add_position_close_record mark_position_closed spend assert_proof
add_position_close-Blocks p now r = record { blocked = λ s a h e. ground arith }

pub add_manual_position_close-Keeps :
    (p : Primitives) (now : ℕ) (r : PositionCloseRecord) → Keeps (add_manual_position_close p now r)
unfolding add_manual_position_close add_position_close_record mark_position_closed spend
    assert_proof
add_manual_position_close-Keeps p now r = record {
  kept = λ n s h. ground (arith, has-add n r.position_nullifier s.spent_nullifiers);
}

pub add_manual_position_close-Adds :
    (p : Primitives) (now : ℕ) (r : PositionCloseRecord)
    → Adds r.position_nullifier (add_manual_position_close p now r)
unfolding add_manual_position_close add_position_close_record mark_position_closed spend
    assert_proof
add_manual_position_close-Adds p now r = record {
  added = λ s a h. ground (
    arith,
    has-add r.position_nullifier r.position_nullifier s.spent_nullifiers,
    ===_refl r.position_nullifier,
  );
}

pub add_manual_position_close-Blocks :
    (p : Primitives) (now : ℕ) (r : PositionCloseRecord)
    → Blocks r.position_nullifier (add_manual_position_close p now r)
unfolding add_manual_position_close add_position_close_record mark_position_closed spend
    assert_proof
add_manual_position_close-Blocks p now r = record { blocked = λ s a h e. ground arith }
