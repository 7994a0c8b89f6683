-- ===== src/Store/Funds.antt =====
-- Margin commitments, deposits, withdrawals, disclosures and account events
-- (server/src/shared/state/store.ts).
use pnlx.Base.{
  ℕ, Bool, false, List, [], ◌∷◌, Option, none, some, ltb, leb, if◌then◌else◌, filter_by,
}
use pnlx.Base.Text.{Hex, ◌===◌}
use pnlx.Base.Map
use pnlx.Base.StringSet
use pnlx.Protocol.Accounts.{
  PendingAssetDepositRecord, DisclosureRecord, WithdrawalRecord, AccountEventRecord,
  AccountEncryptionKeyRecord,
}
use pnlx.Store.State.{Store}
use pnlx.Store.Monad.{
  Action, pure, gets, or_raise, raise_if, modify, ◌>>=◌, ◌>>◌, assert_proof, spend,
}

unfoldable pub add_margin_commitment : Hex → Action (Unit {0})
add_margin_commitment commitment = do
  known ← gets (λ s. StringSet.has commitment s.margin_commitments)
  raise_if known "margin commitment already exists"
  modify (λ s. record s { margin_commitments = StringSet.add commitment s.margin_commitments })

unfoldable pub add_pending_asset_deposit : PendingAssetDepositRecord → Action (Unit {0})
add_pending_asset_deposit r = do
  credited ← gets (λ s. StringSet.has r.commitment s.margin_commitments)
  raise_if credited "asset deposit already credited"
  pending ← gets (λ s. Map.has r.commitment s.pending_asset_deposits)
  raise_if pending "asset deposit already pending"
  modify
      (λ s. record s { pending_asset_deposits = Map.set r.commitment r s.pending_asset_deposits })

-- A time is falsy where it is absent or zero.
abbrev pub is_set : Option ℕ → Bool
is_set none = false
is_set (some t) = ltb 0 t

unfoldable pub finalize_pending_asset_deposit :
    ℕ → Hex → Hex → Option Hex → Action PendingAssetDepositRecord
finalize_pending_asset_deposit now commitment relay_id tx_hash = do
  found ← gets (λ s. Map.get commitment s.pending_asset_deposits)
  pending ← or_raise found "pending asset deposit not found"
  raise_if (is_set pending.finalized_at) "asset deposit already finalized"
  let finalized = record pending {
    finalized_at = some now;
    relay_id = some relay_id;
    tx_hash = tx_hash;
  }
  modify (λ s. record s {
    pending_asset_deposits = Map.set commitment finalized s.pending_asset_deposits;
  })
  pure finalized

unfoldable pub add_disclosure : DisclosureRecord → Action (Unit {0})
unfolding assert_proof
add_disclosure r = do
  known ← gets (λ s. Map.has r.disclosure_id s.disclosures)
  raise_if known "disclosure already exists"
  assert_proof r.proof
  modify (λ s. record s { disclosures = Map.set r.disclosure_id r s.disclosures })

-- `if (record.changeCommitment !== "0x0") this.marginCommitments.add(record.changeCommitment)`
abbrev pub credit_change : Hex → Store → Store
credit_change change s =
    if change === "0x0"
    then s
    else record s { margin_commitments = StringSet.add change s.margin_commitments }

unfoldable pub add_withdrawal : WithdrawalRecord → Action (Unit {0})
unfolding assert_proof spend
add_withdrawal r = do
  known ← gets (λ s. Map.has r.nullifier s.withdrawals)
  raise_if known "withdrawal already exists"
  assert_proof r.proof
  spend r.nullifier
  modify (credit_change r.change_commitment)
  modify (λ s. record s { withdrawals = Map.set r.nullifier r s.withdrawals })

unfoldable pub add_account_event : AccountEventRecord → Action (Unit {0})
add_account_event r = do
  known ← gets (λ s. Map.has r.event_id s.account_events)
  raise_if known "account event already exists"
  modify (λ s. record s { account_events = Map.set r.event_id r s.account_events })

unfoldable pub upsert_account_encryption_key : AccountEncryptionKeyRecord → Action (Unit {0})
upsert_account_encryption_key r = modify (λ s. record s {
  account_encryption_keys = Map.set r.owner_commitment r s.account_encryption_keys;
})

unfoldable pub account_encryption_key : Hex → Store → Option AccountEncryptionKeyRecord
account_encryption_key owner s = Map.get owner s.account_encryption_keys

insert_event : AccountEventRecord → List AccountEventRecord → List AccountEventRecord
insert_event x [] = x ∷ []
insert_event x (y ∷ ys) =
    if leb x.created_at y.created_at then x ∷ y ∷ ys else y ∷ insert_event x ys

sort_events : List AccountEventRecord → List AccountEventRecord
unfolding insert_event
sort_events [] = []
sort_events (x ∷ xs) = insert_event x (sort_events xs)

unfoldable pub account_events_for : Hex → Store → List AccountEventRecord
unfolding sort_events
account_events_for owner s =
    sort_events (filter_by (λ e. e.owner_commitment === owner) (Map.values s.account_events))
