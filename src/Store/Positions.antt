-- ===== src/Store/Positions.antt =====
-- Positions: opening, liquidation, triggers and closes (server/src/shared/state/store.ts).
use pnlx.Base.{
  ℕ, Bool, true, false, not, ◌&&◌, ◌||◌, Option, none, some, find_by, length, filter_by, String,
  List, ◌==◌, if◌then◌else◌,
}
use pnlx.Base.Int.{ℤ, pos, ◌-ℤ◌, ◌==ℤ◌}
use pnlx.Base.Sort.{sort_by}
use pnlx.Base.Text.{Hex, ◌===◌}
use pnlx.Base.Map
use pnlx.Base.Map.{Map}
use pnlx.Base.StringSet
use pnlx.Base.StringSet.{StringSet}
use pnlx.Crypto.Primitives.{Primitives}
use pnlx.Protocol.Positions.{
  PositionStatus, PositionLifecycleRecord, LiquidationRecord, ConditionalOrderCommitment,
  ConditionalOrderRecord, PositionCloseRecord,
}
use pnlx.Store.State.{Store}
use pnlx.Store.Monad.{Action, gets, lift, raise_if, modify, ◌>>=◌, ◌>>◌, assert_proof, spend}
use pnlx.Store.Tree.{position_membership_root}

-- By its commitment, or else the first with the nullifier.
unfoldable pub find_position :
    Hex → Hex → Map PositionLifecycleRecord → Option PositionLifecycleRecord
find_position commitment nullifier positions = elim (Map.get commitment positions) [
  | some position ↦ some position
  | none ↦ find_by (λ x. x.position_nullifier === nullifier) (Map.values positions)
]

unfoldable pub position_for : Hex → Hex → Store → Option PositionLifecycleRecord
unfolding find_position
position_for commitment nullifier s = find_position commitment nullifier s.position_lifecycle

-- The entry of a position that was found, written anew.
abbrev pub rewrite_position :
    (PositionLifecycleRecord → PositionLifecycleRecord)
    → Option PositionLifecycleRecord
    → Map PositionLifecycleRecord
    → Map PositionLifecycleRecord
rewrite_position change none positions = positions
rewrite_position change (some position) positions =
    Map.set position.position_commitment (change position) positions

unfoldable pub mark_position_closed : ℕ → PositionCloseRecord → Action (Unit {0})
unfolding find_position
mark_position_closed now r = modify (λ s. record s {
  position_lifecycle =
      rewrite_position
        (λ position. record position {
          close_commitment = some r.close_commitment;
          margin_output_commitment = some r.margin_output_commitment;
          new_position_commitment = some r.new_position_commitment;
          status = PositionStatus.closed;
          updated_at = now;
        })
        (find_position r.position_commitment r.position_nullifier s.position_lifecycle)
        s.position_lifecycle;
})

unfoldable pub mark_position_liquidated : ℕ → LiquidationRecord → Action (Unit {0})
unfolding find_position
mark_position_liquidated now r = modify (λ s. record s {
  position_lifecycle =
      rewrite_position
        (λ position. record position {
          liquidation_reward_commitment = some r.reward_commitment;
          status = PositionStatus.liquidated;
          updated_at = now;
        })
        (find_position r.position_commitment r.position_nullifier s.position_lifecycle)
        s.position_lifecycle;
})

abbrev pub is_open_position : PositionStatus → Bool
is_open_position PositionStatus.opened = true
is_open_position _ = false

unfoldable pub add_position_opening : PositionLifecycleRecord → Action (Unit {0})
add_position_opening r = do
  known ← gets (λ s. Map.has r.position_commitment s.position_lifecycle)
  raise_if known "position lifecycle already exists"
  raise_if (not (is_open_position r.status)) "position opening must be open"
  committed ← gets (λ s. StringSet.has r.position_commitment s.position_commitments)
  raise_if (not committed) "unknown position commitment"
  modify
      (λ s. record s { position_lifecycle = Map.set r.position_commitment r s.position_lifecycle })

unfoldable pub add_liquidation : ℕ → LiquidationRecord → Action (Unit {0})
unfolding mark_position_liquidated
add_liquidation now r = do
  known ← gets (λ s. Map.has r.position_nullifier s.liquidations)
  raise_if known "position already liquidated"
  assert_proof r.proof
  spend r.position_nullifier
  mark_position_liquidated now r
  modify (λ s. record s { liquidations = Map.set r.position_nullifier r s.liquidations })

unfoldable pub add_conditional_order : ConditionalOrderCommitment → Action (Unit {0})
add_conditional_order r = do
  known ← gets (λ s. Map.has r.close_commitment s.conditional_orders)
  raise_if known "conditional order already exists"
  modify (λ s. record s { conditional_orders = Map.set r.close_commitment r s.conditional_orders })

unfoldable pub has_conditional_order : Hex → Store → Bool
has_conditional_order close_commitment s = Map.has close_commitment s.conditional_orders

unfoldable pub add_conditional_close : ConditionalOrderRecord → Action (Unit {0})
add_conditional_close r = do
  known ← gets (λ s. Map.has r.close_commitment s.conditional_closes)
  raise_if known "conditional close already exists"
  assert_proof r.proof
  modify (λ s. record s { conditional_closes = Map.set r.close_commitment r s.conditional_closes })

-- The trigger of a close: there is one, of the same market and position.
abbrev pub is_triggered : PositionCloseRecord → Option ConditionalOrderRecord → Bool
is_triggered r none = false
is_triggered r (some c) =
    c.market_id === r.market_id && c.position_nullifier === r.position_nullifier

-- The output of a close joins the commitments.
abbrev pub credit_close : PositionCloseRecord → Store → Store
credit_close r s = record s {
  position_commitments = StringSet.add r.new_position_commitment s.position_commitments;
  margin_commitments = StringSet.add r.margin_output_commitment s.margin_commitments;
}

abbrev pub recorded_close : PositionCloseRecord → ℕ → Hex → PositionCloseRecord
recorded_close r index root = record r {
  output_position_index = some index;
  output_position_root = some root;
}

unfoldable pub add_position_close_record : Primitives → ℕ → PositionCloseRecord → Action (Unit {0})
unfolding mark_position_closed
add_position_close_record p now r = do
  known ← gets (λ s. Map.has r.close_commitment s.position_closes)
  raise_if known "position close already exists"
  assert_proof r.proof
  spend r.position_nullifier
  index ← gets (λ s. length s.position_commitments)
  modify (credit_close r)
  mark_position_closed now r
  computed ← gets (position_membership_root p)
  root ← lift computed
  modify (λ s. record s {
    position_closes = Map.set r.close_commitment (recorded_close r index root) s.position_closes;
  })

unfoldable pub add_position_close : Primitives → ℕ → PositionCloseRecord → Action (Unit {0})
unfolding add_position_close_record
add_position_close p now r = do
  triggered ← gets (λ s. is_triggered r (Map.get r.close_commitment s.conditional_closes))
  raise_if (not triggered) "conditional close not triggered"
  add_position_close_record p now r

unfoldable pub add_manual_position_close : Primitives → ℕ → PositionCloseRecord → Action (Unit {0})
add_manual_position_close p now r = add_position_close_record p now r

-- The checks on the two records alone.
abbrev pub is_mispaired : PositionCloseRecord → PositionCloseRecord → Bool
is_mispaired trader maker =
    not (trader.market_id === maker.market_id)
    || not (trader.mark_price ==ℤ maker.mark_price)
    || trader.position_nullifier === maker.position_nullifier
    || trader.close_commitment === maker.close_commitment
    || trader.margin_output_commitment === maker.margin_output_commitment

abbrev pub is_closed_already : PositionCloseRecord → PositionCloseRecord → Store → Bool
is_closed_already trader maker s =
    Map.has trader.close_commitment s.position_closes
    || Map.has maker.close_commitment s.position_closes
    || StringSet.has trader.position_nullifier s.spent_nullifiers
    || StringSet.has maker.position_nullifier s.spent_nullifiers

-- Everything that `addPairedPositionCloses` checks before it writes.
unfoldable pub check_paired_closes :
    PositionCloseRecord → PositionCloseRecord → Bool → Action (Unit {0})
check_paired_closes trader maker conditional = do
  raise_if (is_mispaired trader maker) "invalid paired position closes"
  closed ← gets (is_closed_already trader maker)
  raise_if closed "paired position already closed"
  assert_proof trader.proof
  assert_proof maker.proof
  triggered ← gets (λ s. is_triggered trader (Map.get trader.close_commitment s.conditional_closes))
  raise_if (conditional && not triggered) "conditional close not triggered"

-- The two closes are recorded one after the other, at their own times.
unfoldable pub add_paired_position_closes :
    Primitives → ℕ → ℕ → PositionCloseRecord → PositionCloseRecord → Bool → Action (Unit {0})
unfolding check_paired_closes
add_paired_position_closes p now later trader maker conditional = do
  check_paired_closes trader maker conditional
  add_position_close_record p now trader
  add_position_close_record p later maker

-- The earliest first, and at one time in the order of the commitments in the locale.
unfoldable pub compare_positions :
    (String → String → ℤ) → PositionLifecycleRecord → PositionLifecycleRecord → ℤ
compare_positions locale_compare a b =
    if a.opened_at == b.opened_at
    then locale_compare a.position_commitment b.position_commitment
    else pos a.opened_at -ℤ pos b.opened_at

unfoldable pub positions_for : (String → String → ℤ) → Hex → Store → List PositionLifecycleRecord
positions_for locale_compare owner_commitment s =
    sort_by (compare_positions locale_compare)
      (filter_by (λ r. r.owner_commitment === owner_commitment) (Map.values s.position_lifecycle))
