-- ===== src/Crypto/Signed.antt =====
-- Signed numbers as elements of the field (`encodeSigned` and `decodeSigned` of
-- packages/crypto/src/field.ts).
use pnlx.Base.{ℕ, ◌+◌, ◌/◌, ◌≤◌, ◌≡◌, ltb, if◌then◌else◌, arith}
use pnlx.Base.Int.{ℤ, pos, negsuc, pos_part, neg_part, ◌-ℤ◌}
use pnlx.Crypto.Field.{field_prime, mod_prime}

unfoldable pub encode_signed : ℤ → ℕ
encode_signed value = mod_prime value

unfoldable pub decode_signed : ℤ → ℤ
decode_signed value =
    let normalized = mod_prime value in
    if ltb (field_prime / 2) normalized then pos normalized -ℤ pos field_prime else pos normalized

-- A number whose absolute value is at most half of the prime is the decoding of its encoding.
pub decode_signed-encode_signed :
    (value : ℤ)
    → pos_part value + neg_part value ≤ field_prime / 2
    → decode_signed (pos (encode_signed value)) ≡ value
unfolding encode_signed decode_signed mod_prime ◌-ℤ◌
decode_signed-encode_signed (pos n) h = ground arith
decode_signed-encode_signed (negsuc n) h = ground arith

-- The encoding of a decoded number is the number reduced into the field.
pub encode_signed-decode_signed :
    (value : ℤ) → encode_signed (decode_signed value) ≡ mod_prime value
unfolding encode_signed decode_signed mod_prime ◌-ℤ◌
encode_signed-decode_signed (pos n) = ground arith
encode_signed-decode_signed (negsuc n) = ground arith
