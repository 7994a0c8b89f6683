-- ===== src/Store/StateExamples.antt =====
-- The whole store at concrete inputs: its keys, its snapshot and its roots
-- (server/src/shared/state/store.ts, protocol-snapshot.ts).
use Prim.Native.String.{count}
use pnlx.Base.{ℕ, ◌+◌, ◌*◌, ◌≡◌, refl, sym, true, List, [], ◌∷◌, none, arith}
use pnlx.Base.Int.{pos}
use pnlx.Base.Text.{Hex, ◌===◌}
use pnlx.Base.Result.{ok, is_ok, value_of}
use pnlx.Crypto.Primitives.{Primitives}
use pnlx.Crypto.FieldMerkle.{to_field, position_merkle_depth, position_merkle_root}
use pnlx.Protocol.Markets.{MarketConfig, BatchExecutionRunRecord, failed}
use pnlx.Store.State.{Store, new_store}
use pnlx.Store.Commands.{Command, margin_commitment, new_market, new_run, spent, run}
use pnlx.Store.Tree.{has_position_membership_root}
use pnlx.Store.Snapshot.{snapshot_protocol_store, apply_protocol_store_snapshot}
use pnlx.Store.RoundTrip.{IsKeyed, IsRetained, apply-snapshot}
use pnlx.Store.Roots.{earlier_root_known}
use pnlx.Store.Keyed.Steps.{new_store-IsKeyed, run-IsKeyed}

-- Stand-ins for the two hashes.
abbrev weighted_sum : List ℕ → ℕ
weighted_sum [] = 1
weighted_sum (x ∷ xs) = x + 3 * weighted_sum xs

abbrev stand_ins : Primitives
stand_ins = record { sha256 = λ s. count s; poseidon2 = weighted_sum }

abbrev a_market : MarketConfig
a_market = record {
  market_id = "eth";
  oracle_price = pos 100;
  max_leverage = pos 10;
  initial_margin_rate = pos 100000;
  maintenance_margin_rate = pos 50000;
  funding_index = pos 0;
}

abbrev a_run : BatchExecutionRunRecord
a_run = record {
  aggregate_volume = none;
  batch_id = "b";
  completed_at = none;
  fill_count = none;
  market_id = "eth";
  phase = none;
  phase_timestamps = none;
  reason = none;
  run_id = "0x1";
  settlement_digest = none;
  started_at = 1;
  status = failed;
  updated_at = none;
}

-- The second market and the second commitment are refused.
abbrev calls : List Command
calls =
    margin_commitment "0xa"
    ∷ new_market a_market
    ∷ new_market a_market
    ∷ margin_commitment "0xa"
    ∷ new_run a_run []
    ∷ spent "0xb"
    ∷ []

abbrev used : Store
used = run stand_ins calls new_store

used-IsKeyed : IsKeyed (run stand_ins calls new_store)
used-IsKeyed = run-IsKeyed stand_ins calls new_store new_store-IsKeyed

abbrev expected : Store
expected = record new_store {
  margin_commitments = "0xa" ∷ [];
  markets = ("eth", a_market) ∷ [];
  batch_execution_runs = ("0x1", a_run) ∷ [];
  spent_nullifiers = "0xb" ∷ [];
}

used_is : run stand_ins calls new_store ≡ expected
unfolding run pnlx.Store.Commands.step pnlx.Store.Monad.spend pnlx.Base.StringSet.has
    pnlx.Store.Markets.add_batch_execution_run pnlx.Base.Map.get
    pnlx.Store.Funds.add_margin_commitment pnlx.Store.Markets.add_market pnlx.Base.Map.set ◌===◌
    pnlx.Base.StringSet.add
used_is = refl

expected-IsRetained : IsRetained expected
unfolding pnlx.Store.Markets.retained_funding_premium_samples
    pnlx.Store.Markets.backfill_market_settlement_volumes
expected-IsRetained = record { samples = refl; runs = omega arith; volumes = refl }

abbrev expected-IsKeyed : IsKeyed expected
expected-IsKeyed = rw (sym used_is) used-IsKeyed

apply-snapshot_example :
    apply_protocol_store_snapshot (snapshot_protocol_store expected) new_store ≡ expected
apply-snapshot_example = apply-snapshot expected new_store expected-IsKeyed expected-IsRetained

root-ok : is_ok (position_merkle_root stand_ins ("0x5" ∷ []) position_merkle_depth) ≡ true
unfolding position_merkle_root to_field
root-ok = refl

abbrev first_root :
    (r : Hex) × (position_merkle_root stand_ins ("0x5" ∷ []) position_merkle_depth ≡ ok r)
first_root = value_of (position_merkle_root stand_ins ("0x5" ∷ []) position_merkle_depth) root-ok

abbrev with_positions : Store
with_positions = record new_store { position_commitments = "0x5" ∷ "0x7" ∷ [] }

earlier_root_known_example :
    has_position_membership_root stand_ins first_root.0 with_positions ≡ ok true
earlier_root_known_example =
    earlier_root_known stand_ins with_positions ("0x5" ∷ []) ("0x7" ∷ []) first_root.0 refl
      first_root.1
