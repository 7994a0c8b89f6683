-- ===== src/Store/Keyed/Spending.antt =====
-- The calls that spend a nullifier store no key or member twice (server/src/shared/state/store.ts).
use pnlx.Base.{ℕ, Bool, arith}
use pnlx.Base.Text.{Hex}
use pnlx.Protocol.Accounts.{WithdrawalRecord}
use pnlx.Protocol.Positions.{LiquidationRecord, PositionCloseRecord}
use pnlx.Crypto.Primitives.{Primitives}
use pnlx.Store.Positions.{
  add_liquidation, mark_position_liquidated, mark_position_closed, add_position_close_record,
  add_position_close, add_manual_position_close, check_paired_closes, add_paired_position_closes,
}
use pnlx.Store.Monad.{assert_proof, spend}
use pnlx.Store.Funds.{add_withdrawal}
use pnlx.Store.Keyed.{KeepsKeyed, bind-KeepsKeyed, set-Distinct, add-Distinct}

pub spend-KeepsKeyed : (n : Hex) → KeepsKeyed (spend n)
unfolding spend
spend-KeepsKeyed n = record { kept = λ s k. grind (arith, k, add-Distinct) }

pub add_withdrawal-KeepsKeyed : (r : WithdrawalRecord) → KeepsKeyed (add_withdrawal r)
unfolding add_withdrawal spend assert_proof
add_withdrawal-KeepsKeyed r = record { kept = λ s k. grind (arith, k, set-Distinct, add-Distinct) }

pub add_liquidation-KeepsKeyed :
    (now : ℕ) (r : LiquidationRecord) → KeepsKeyed (add_liquidation now r)
unfolding add_liquidation mark_position_liquidated spend assert_proof
add_liquidation-KeepsKeyed now r = record {
  kept = λ s k. grind (arith, k, set-Distinct, add-Distinct);
}

pub add_position_close_record-KeepsKeyed :
    (p : Primitives) (now : ℕ) (r : PositionCloseRecord)
    → KeepsKeyed (add_position_close_record p now r)
unfolding add_position_close_record mark_position_closed spend assert_proof
add_position_close_record-KeepsKeyed p now r = record {
  kept = λ s k. grind (arith, k, set-Distinct, add-Distinct);
}

pub add_position_close-KeepsKeyed :
    (p : Primitives) (now : ℕ) (r : PositionCloseRecord) → KeepsKeyed (add_position_close p now r)
unfolding add_position_close add_position_close_record mark_position_closed spend assert_proof
add_position_close-KeepsKeyed p now r = record {
  kept = λ s k. grind (arith, k, set-Distinct, add-Distinct);
}

pub add_manual_position_close-KeepsKeyed :
    (p : Primitives) (now : ℕ) (r : PositionCloseRecord)
    → KeepsKeyed (add_manual_position_close p now r)
unfolding add_manual_position_close add_position_close_record mark_position_closed spend
    assert_proof
add_manual_position_close-KeepsKeyed p now r = record {
  kept = λ s k. grind (arith, k, set-Distinct, add-Distinct);
}

check_paired_closes-KeepsKeyed :
    (trader maker : PositionCloseRecord) (conditional : Bool)
    → KeepsKeyed (check_paired_closes trader maker conditional)
unfolding check_paired_closes assert_proof
check_paired_closes-KeepsKeyed trader maker conditional = record { kept = λ s k. ground (arith, k) }

pub add_paired_position_closes-KeepsKeyed :
    (p : Primitives) (now later : ℕ) (trader maker : PositionCloseRecord) (conditional : Bool)
    → KeepsKeyed (add_paired_position_closes p now later trader maker conditional)
unfolding add_paired_position_closes
add_paired_position_closes-KeepsKeyed p now later trader maker conditional =
    bind-KeepsKeyed (check_paired_closes trader maker conditional) _
      (check_paired_closes-KeepsKeyed trader maker conditional)
      (λ _.
        bind-KeepsKeyed (add_position_close_record p now trader) _
          (add_position_close_record-KeepsKeyed p now trader)
          (λ _. add_position_close_record-KeepsKeyed p later maker))
