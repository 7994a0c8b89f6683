-- ===== src/Crypto/Binding.antt =====
-- What a commitment of packages/crypto/src binds: two inputs with one commitment agree field by
-- field, when the hash separates the pairs that are hashed for the one from those of the other.
use pnlx.Base.{ℕ, ◌%◌, ◌≡◌, refl, List, [], ◌∷◌, arith}
use pnlx.Base.Int.{ℤ, pos, negsuc}
use pnlx.Crypto.Primitives.{Primitives}
use pnlx.Crypto.Field.{field_prime, mod_prime, field_hash_pair}
use pnlx.Crypto.Notes.{side_code, CircuitPositionNoteInput, circuit_position_commitment}
use pnlx.Crypto.Intents.{CircuitIntentCommitmentInput, circuit_intent_commitment}
use pnlx.Protocol.Orders.{Side, long, short}

-- Two numbers that are one element of the field.
infix 50 ◌≈◌
abbrev pub ◌≈◌ : ℕ → ℕ → Type 0
a ≈ b = a % field_prime ≡ b % field_prime

-- The hash is one-to-one on two pairs, and on two lists of pairs position by position.
abbrev pub SeparatesPair : Primitives → ℕ → ℕ → ℕ → ℕ → Type 0
SeparatesPair p a b c d = field_hash_pair p a b ≡ field_hash_pair p c d → (a ≈ c) × (b ≈ d)

abbrev pub Separates : Primitives → List (ℕ × ℕ) → List (ℕ × ℕ) → Type 0
Separates p [] ys = Unit
Separates p (x ∷ xs) [] = Unit
Separates p (x ∷ xs) (y ∷ ys) = SeparatesPair p x.0 x.1 y.0 y.1 × Separates p xs ys

reduced :
    (p : Primitives) (a b c d : ℕ)
    → field_hash_pair p a b ≈ field_hash_pair p c d
    → field_hash_pair p a b ≡ field_hash_pair p c d
unfolding field_hash_pair
reduced p a b c d h = ground arith

unhash :
    (p : Primitives) (a b c d : ℕ)
    → SeparatesPair p a b c d
    → field_hash_pair p a b ≈ field_hash_pair p c d
    → (a ≈ c) × (b ≈ d)
unhash p a b c d separates h = separates (reduced p a b c d h)

side_of_code : (s t : Side) → side_code s ≈ side_code t → s ≡ t
side_of_code long long h = refl
side_of_code long short h = absurd (omega arith)
side_of_code short long h = absurd (omega arith)
side_of_code short short h = refl

same_residue : (a b : ℤ) → mod_prime a ≈ mod_prime b → mod_prime a ≡ mod_prime b
unfolding mod_prime
same_residue (pos n) (pos m) h = ground arith
same_residue (pos n) (negsuc m) h = ground arith
same_residue (negsuc n) (pos m) h = ground arith
same_residue (negsuc n) (negsuc m) h = ground arith

-- Two intents that a circuit does not tell apart.
abbrev pub SameIntent : CircuitIntentCommitmentInput → CircuitIntentCommitmentInput → Type 0
SameIntent i j =
    (i.batch_digest ≈ j.batch_digest)
    × (i.market_digest ≈ j.market_digest)
    × (i.owner_commitment_field ≈ j.owner_commitment_field)
    × (i.side ≡ j.side)
    × (mod_prime i.size ≡ mod_prime j.size)
    × (mod_prime i.limit_price ≡ mod_prime j.limit_price)
    × (mod_prime i.margin ≡ mod_prime j.margin)
    × (i.note_nullifier ≈ j.note_nullifier)
    × (i.nonce_digest ≈ j.nonce_digest)
    × (i.salt_digest ≈ j.salt_digest)

-- The pairs that are hashed for the commitment of an intent, the last one first.
abbrev pub intent_pairs : Primitives → CircuitIntentCommitmentInput → List (ℕ × ℕ)
intent_pairs p i =
    let place = field_hash_pair p i.batch_digest i.market_digest in
    let who = field_hash_pair p i.owner_commitment_field (side_code i.side) in
    let order = field_hash_pair p (mod_prime i.size) (mod_prime i.limit_price) in
    let backing = field_hash_pair p (mod_prime i.margin) i.note_nullifier in
    let scope = field_hash_pair p place who in
    let economics = field_hash_pair p order backing in
    (field_hash_pair p scope economics, field_hash_pair p i.nonce_digest i.salt_digest)
    ∷ (i.nonce_digest, i.salt_digest)
    ∷ (scope, economics)
    ∷ (place, who)
    ∷ (order, backing)
    ∷ (i.batch_digest, i.market_digest)
    ∷ (i.owner_commitment_field, side_code i.side)
    ∷ (mod_prime i.size, mod_prime i.limit_price)
    ∷ (mod_prime i.margin, i.note_nullifier)
    ∷ []

-- If the hash separates the pairs that are hashed for two intents, and the two commitments are
-- equal, then the intents have the same side, the same size, limit price and margin in the field,
-- and field elements that are equal for each digest and for the nullifier.
pub circuit_intent_commitment-binding :
    (p : Primitives) (i j : CircuitIntentCommitmentInput)
    → Separates p (intent_pairs p i) (intent_pairs p j)
    → circuit_intent_commitment p i ≡ circuit_intent_commitment p j
    → SameIntent i j
unfolding circuit_intent_commitment
circuit_intent_commitment-binding p i j (s0, (s1, (s2, (s3, (s4, (s5, (s6, (s7, (s8, _))))))))) h =
    let top = s0 h in
    let entropy = unhash p _ _ _ _ s1 top.1 in
    let parts = unhash p _ _ _ _ s2 top.0 in
    let scope = unhash p _ _ _ _ s3 parts.0 in
    let economics = unhash p _ _ _ _ s4 parts.1 in
    let place = unhash p _ _ _ _ s5 scope.0 in
    let who = unhash p _ _ _ _ s6 scope.1 in
    let order = unhash p _ _ _ _ s7 economics.0 in
    let backing = unhash p _ _ _ _ s8 economics.1 in
    (
      place.0,
      place.1,
      who.0,
      side_of_code i.side j.side who.1,
      same_residue i.size j.size order.0,
      same_residue i.limit_price j.limit_price order.1,
      same_residue i.margin j.margin backing.0,
      backing.1,
      entropy.0,
      entropy.1,
    )

-- Two positions that a circuit does not tell apart; the spend secret is not committed.
abbrev pub SamePosition : CircuitPositionNoteInput → CircuitPositionNoteInput → Type 0
SamePosition i j =
    (i.market_digest ≈ j.market_digest)
    × (i.side ≡ j.side)
    × (mod_prime i.size ≡ mod_prime j.size)
    × (mod_prime i.entry_price ≡ mod_prime j.entry_price)
    × (mod_prime i.margin ≡ mod_prime j.margin)
    × (mod_prime i.funding_index ≡ mod_prime j.funding_index)
    × (i.owner_digest ≈ j.owner_digest)
    × (i.rho_digest ≈ j.rho_digest)
    × (i.blinding ≈ j.blinding)

-- The pairs that are hashed for the commitment of a position, the last one first.
abbrev pub position_pairs : Primitives → CircuitPositionNoteInput → List (ℕ × ℕ)
position_pairs p i =
    let market = field_hash_pair p i.market_digest (side_code i.side) in
    let opened = field_hash_pair p (mod_prime i.size) (mod_prime i.entry_price) in
    let backing = field_hash_pair p (mod_prime i.margin) (mod_prime i.funding_index) in
    let hidden = field_hash_pair p i.rho_digest i.blinding in
    let owned = field_hash_pair p i.owner_digest hidden in
    (field_hash_pair p market opened, field_hash_pair p backing owned)
    ∷ (market, opened)
    ∷ (backing, owned)
    ∷ (i.market_digest, side_code i.side)
    ∷ (mod_prime i.size, mod_prime i.entry_price)
    ∷ (mod_prime i.margin, mod_prime i.funding_index)
    ∷ (i.owner_digest, hidden)
    ∷ (i.rho_digest, i.blinding)
    ∷ []

-- If the hash separates the pairs that are hashed for two position notes, and the two commitments
-- are equal, then the notes have the same side, the same size, entry price, margin and funding
-- index in the field, and field elements that are equal for the market, the owner, `rho` and the
-- blinding.
pub circuit_position_commitment-binding :
    (p : Primitives) (i j : CircuitPositionNoteInput)
    → Separates p (position_pairs p i) (position_pairs p j)
    → circuit_position_commitment p i ≡ circuit_position_commitment p j
    → SamePosition i j
unfolding circuit_position_commitment
circuit_position_commitment-binding p i j (s0, (s1, (s2, (s3, (s4, (s5, (s6, (s7, _)))))))) h =
    let top = s0 h in
    let left = unhash p _ _ _ _ s1 top.0 in
    let right = unhash p _ _ _ _ s2 top.1 in
    let market = unhash p _ _ _ _ s3 left.0 in
    let opened = unhash p _ _ _ _ s4 left.1 in
    let backing = unhash p _ _ _ _ s5 right.0 in
    let owned = unhash p _ _ _ _ s6 right.1 in
    let hidden = unhash p _ _ _ _ s7 owned.1 in
    (
      market.0,
      side_of_code i.side j.side market.1,
      same_residue i.size j.size opened.0,
      same_residue i.entry_price j.entry_price opened.1,
      same_residue i.margin j.margin backing.0,
      same_residue i.funding_index j.funding_index backing.1,
      owned.0,
      hidden.0,
      hidden.1,
    )
