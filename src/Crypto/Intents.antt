-- ===== src/Crypto/Intents.antt =====
-- The commitments of intents and conditional orders (packages/crypto/src/commitments.ts), of
-- disclosures (`circuitDisclosureCommitment` of field-merkle.ts), of the notes by hash, and the
-- note nullifier (nullifiers.ts).
use pnlx.Base.{ℕ, String, Bool, [], ◌∷◌, if◌then◌else◌}
use pnlx.Base.Int.{ℤ}
use pnlx.Base.Text.{Hex, ◌⧺◌}
use pnlx.Base.Result.{Result, ok, ◌>>=◌}
use pnlx.Crypto.Primitives.{Primitives}
use pnlx.Crypto.Hash.{bigint, text, hash_fields}
use pnlx.Crypto.Field.{mod_prime, hash_to_field, field_hash_pair}
use pnlx.Crypto.FieldMerkle.{to_field}
use pnlx.Crypto.Notes.{side_code}
use pnlx.Protocol.Orders.{Side, long, short, PositionNote, TradeIntent}

pub record MarginNote : Type 0 where
  pub asset_id : String
  pub amount : ℤ
  pub owner : String
  pub rho : String
  pub blinding : String

side_text : Side → String
side_text long = "long"
side_text short = "short"

unfoldable pub commit_margin : Primitives → MarginNote → Hex
commit_margin p note = hash_fields p "margin-note" (
    text note.asset_id
    ∷ bigint note.amount
    ∷ text note.owner
    ∷ text note.rho
    ∷ text note.blinding
    ∷ [])

unfoldable pub commit_position : Primitives → PositionNote → Hex
unfolding side_text
commit_position p note = hash_fields p "position-note" (
    text note.market_id
    ∷ text (side_text note.side)
    ∷ bigint note.size
    ∷ bigint note.entry_price
    ∷ bigint note.margin
    ∷ bigint note.funding_index
    ∷ text note.owner
    ∷ text note.rho
    ∷ text note.blinding
    ∷ [])

unfoldable pub nullifier : Primitives → String → String → Hex
nullifier p spend_secret rho = hash_fields p "nullifier" (text spend_secret ∷ text rho ∷ [])

unfoldable pub owner_commitment : Primitives → String → Hex
owner_commitment p owner = hash_fields p "owner" (text owner ∷ [])

-- A digest is a field element; `note_nullifier` is the number that its text spells.
pub record CircuitIntentCommitmentInput : Type 0 where
  pub batch_digest : ℕ
  pub market_digest : ℕ
  pub owner_commitment_field : ℕ
  pub side : Side
  pub size : ℤ
  pub limit_price : ℤ
  pub margin : ℤ
  pub note_nullifier : ℕ
  pub nonce_digest : ℕ
  pub salt_digest : ℕ

unfoldable pub circuit_intent_commitment : Primitives → CircuitIntentCommitmentInput → ℕ
circuit_intent_commitment p i =
    let scope =
      field_hash_pair p (field_hash_pair p i.batch_digest i.market_digest)
        (field_hash_pair p i.owner_commitment_field (side_code i.side)) in
    let economics =
      field_hash_pair p (field_hash_pair p (mod_prime i.size) (mod_prime i.limit_price))
        (field_hash_pair p (mod_prime i.margin) i.note_nullifier) in
    let entropy = field_hash_pair p i.nonce_digest i.salt_digest in
    field_hash_pair p (field_hash_pair p scope economics) entropy

unfoldable pub intent_owner_commitment_field : Hex → Result ℕ
intent_owner_commitment_field commitment = to_field commitment

-- The fields and, beside them, the commitment.
pub record IntentBindingFields : Type 0 where
  pub input : CircuitIntentCommitmentInput
  pub intent_commitment : ℕ

-- The source keeps the text of the nullifier and reads it inside `circuitIntentCommitment`, which
-- throws when it is no number; here it is read before that call.
unfoldable pub intent_binding_fields : Primitives → TradeIntent → Result IntentBindingFields
intent_binding_fields p intent = do
  owner ← intent_owner_commitment_field (owner_commitment p intent.owner)
  spent ← to_field intent.note_nullifier
  let input : CircuitIntentCommitmentInput = record {
    batch_digest = hash_to_field p ("batch:" ⧺ intent.batch_id);
    market_digest = hash_to_field p ("market:" ⧺ intent.market_id);
    owner_commitment_field = owner;
    side = intent.side;
    size = intent.size;
    limit_price = intent.limit_price;
    margin = intent.margin;
    note_nullifier = spent;
    nonce_digest = hash_to_field p ("nonce:" ⧺ intent.nonce);
    salt_digest = hash_to_field p ("salt:" ⧺ intent.salt);
  }
  ok (record { input = input; intent_commitment = circuit_intent_commitment p input })

unfoldable pub commit_intent : Primitives → TradeIntent → Result ℕ
commit_intent p intent = do fields ← intent_binding_fields p intent; ok fields.intent_commitment

pub data ConditionalOrderKind : Type 0 where
  take_profit stop_loss : ConditionalOrderKind

pub record ConditionalOrderWitness : Type 0 where
  pub market_id : String
  pub position_nullifier : Hex
  pub side : Side
  pub kind : ConditionalOrderKind
  pub trigger_price : ℤ
  pub mark_price : ℤ
  pub size : ℤ
  pub reduce_only : Bool
  pub salt : String

pub record CircuitConditionalOrderCommitmentInput : Type 0 where
  pub market_digest : ℕ
  pub position_nullifier : ℕ
  pub side : Side
  pub kind : ConditionalOrderKind
  pub trigger_price : ℤ
  pub size : ℤ
  pub reduce_only : Bool
  pub salt_digest : ℕ

abbrev pub kind_code : ConditionalOrderKind → ℕ
kind_code take_profit = 1
kind_code stop_loss = 2

abbrev pub flag_code : Bool → ℕ
flag_code b = if b then 1 else 0

unfoldable pub circuit_conditional_order_commitment :
    Primitives → CircuitConditionalOrderCommitmentInput → ℕ
circuit_conditional_order_commitment p i =
    let scope =
      field_hash_pair p (field_hash_pair p i.market_digest i.position_nullifier)
        (field_hash_pair p (side_code i.side) (kind_code i.kind)) in
    let trigger =
      field_hash_pair p (field_hash_pair p (mod_prime i.trigger_price) (mod_prime i.size))
        (field_hash_pair p (flag_code i.reduce_only) i.salt_digest) in
    field_hash_pair p scope trigger

pub record ConditionalOrderBindingFields : Type 0 where
  pub input : CircuitConditionalOrderCommitmentInput
  pub close_commitment : ℕ

unfoldable pub conditional_order_binding_fields :
    Primitives → ConditionalOrderWitness → Result ConditionalOrderBindingFields
conditional_order_binding_fields p order = do
  spent ← to_field order.position_nullifier
  let input : CircuitConditionalOrderCommitmentInput = record {
    market_digest = hash_to_field p ("market:" ⧺ order.market_id);
    position_nullifier = spent;
    side = order.side;
    kind = order.kind;
    trigger_price = order.trigger_price;
    size = order.size;
    reduce_only = order.reduce_only;
    salt_digest = hash_to_field p ("salt:" ⧺ order.salt);
  }
  ok (record { input = input; close_commitment = circuit_conditional_order_commitment p input })

unfoldable pub commit_conditional_order : Primitives → ConditionalOrderWitness → Result ℕ
commit_conditional_order p order = do
  fields ← conditional_order_binding_fields p order
  ok fields.close_commitment

pub record CircuitDisclosureInput : Type 0 where
  pub claim_digest : ℕ
  pub salt_digest : ℕ
  pub subject : ℕ
  pub value : ℤ

unfoldable pub circuit_disclosure_commitment : Primitives → CircuitDisclosureInput → ℕ
circuit_disclosure_commitment p i =
    field_hash_pair p (field_hash_pair p i.subject i.claim_digest)
      (field_hash_pair p (mod_prime i.value) i.salt_digest)
