-- ===== src/Store/PairedSpending.antt =====
-- What the paired closes of two positions do to the set of spent nullifiers
-- (server/src/shared/state/store.ts).
use pnlx.Base.{ℕ, Bool, arith}
use pnlx.Crypto.Primitives.{Primitives}
use pnlx.Protocol.Positions.{PositionCloseRecord}
use pnlx.Store.Monad.{Action, assert_proof, ◌>>◌}
use pnlx.Store.Positions.{
  add_position_close_record, check_paired_closes, add_paired_position_closes,
}
use pnlx.Store.Effects.{
  Keeps, Adds, Blocks, bind-Keeps, bind-Adds, bind-Adds_first, bind-Blocks, bind-Blocks_first,
}
use pnlx.Store.Spending.{
  add_position_close_record-Keeps, add_position_close_record-Adds, add_position_close_record-Blocks,
}

module _ (p : Primitives) (now later : ℕ) (trader maker : PositionCloseRecord)
    (conditional : Bool) where
  check_paired_closes-Keeps : Keeps (check_paired_closes trader maker conditional)
  unfolding check_paired_closes assert_proof
  check_paired_closes-Keeps = record { kept = λ n s h. ground arith }

  closes : Action (Unit {0})
  closes = add_position_close_record p now trader >> add_position_close_record p later maker

  pub add_paired_position_closes-Keeps :
      Keeps (add_paired_position_closes p now later trader maker conditional)
  unfolding add_paired_position_closes closes
  add_paired_position_closes-Keeps =
      bind-Keeps (check_paired_closes trader maker conditional) (λ _. closes)
        check_paired_closes-Keeps
        (λ _.
          bind-Keeps (add_position_close_record p now trader)
            (λ _. add_position_close_record p later maker)
            (add_position_close_record-Keeps p now trader)
            (λ _. add_position_close_record-Keeps p later maker))

  pub add_paired_position_closes-Adds_trader :
      Adds trader.position_nullifier
        (add_paired_position_closes p now later trader maker conditional)
  unfolding add_paired_position_closes closes
  add_paired_position_closes-Adds_trader =
      bind-Adds trader.position_nullifier (check_paired_closes trader maker conditional)
        (λ _. closes)
        (λ _.
          bind-Adds_first trader.position_nullifier (add_position_close_record p now trader)
            (λ _. add_position_close_record p later maker)
            (add_position_close_record-Adds p now trader)
            (λ _. add_position_close_record-Keeps p later maker))

  pub add_paired_position_closes-Adds_maker :
      Adds maker.position_nullifier
        (add_paired_position_closes p now later trader maker conditional)
  unfolding add_paired_position_closes closes
  add_paired_position_closes-Adds_maker =
      bind-Adds maker.position_nullifier (check_paired_closes trader maker conditional)
        (λ _. closes)
        (λ _.
          bind-Adds maker.position_nullifier (add_position_close_record p now trader)
            (λ _. add_position_close_record p later maker)
            (λ _. add_position_close_record-Adds p later maker))

  pub add_paired_position_closes-Blocks_trader :
      Blocks trader.position_nullifier
        (add_paired_position_closes p now later trader maker conditional)
  unfolding add_paired_position_closes closes
  add_paired_position_closes-Blocks_trader =
      bind-Blocks trader.position_nullifier (check_paired_closes trader maker conditional)
        (λ _. closes) check_paired_closes-Keeps
        (λ _.
          bind-Blocks_first trader.position_nullifier (add_position_close_record p now trader)
            (λ _. add_position_close_record p later maker)
            (add_position_close_record-Blocks p now trader))

  pub add_paired_position_closes-Blocks_maker :
      Blocks maker.position_nullifier
        (add_paired_position_closes p now later trader maker conditional)
  unfolding add_paired_position_closes closes
  add_paired_position_closes-Blocks_maker =
      bind-Blocks maker.position_nullifier (check_paired_closes trader maker conditional)
        (λ _. closes) check_paired_closes-Keeps
        (λ _.
          bind-Blocks maker.position_nullifier (add_position_close_record p now trader)
            (λ _. add_position_close_record p later maker)
            (add_position_close_record-Keeps p now trader)
            (λ _. add_position_close_record-Blocks p later maker))
