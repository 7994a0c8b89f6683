-- ===== src/Crypto/Hash.antt =====
-- The domain-separated hash of a list of fields (packages/crypto/src/hash.ts). A field that is an
-- object with named entries does not occur in the modelled calls.
use pnlx.Base.{ℕ, zero, suc, ◌/◌, ◌%◌, Bool, String, List, [], ◌∷◌, ltb, if◌then◌else◌}
use pnlx.Base.Int.{ℤ}
use pnlx.Base.Text.{Hex, ◌⧺◌, decimal, decimal_ℤ}
use pnlx.Crypto.Primitives.{Primitives}

-- A value that `normalize` prints.
mutual
  pub data Field : Type 0 where
    bigint : ℤ → Field
    number : ℕ → Field
    text : String → Field
    boolean : Bool → Field
    nullish : Field
    array : Fields → Field

  pub data Fields : Type 0 where
    nil : Fields
    cons : Field → Fields → Fields

abbrev pub fields : List Field → Fields
fields [] = nil
fields (x ∷ xs) = cons x (fields xs)

-- `xs.join(separator)`
unfoldable pub join : String → List String → String
join separator [] = ""
join separator (x ∷ []) = x
join separator (x ∷ y ∷ r) = x ⧺ separator ⧺ join separator (y ∷ r)

unfoldable mutual
  unfolding decimal decimal_ℤ join

  pub normalize : Field → String
  normalize (bigint value) = decimal_ℤ value
  normalize (number value) = decimal value
  normalize (text value) = value
  normalize (boolean value) = if value then "true" else "false"
  normalize nullish = ""
  normalize (array values) = "[" ⧺ join "," (normalize_all values) ⧺ "]"

  pub normalize_all : Fields → List String
  normalize_all nil = []
  normalize_all (cons x xs) = normalize x ∷ normalize_all xs

hex_digit : ℕ → String
hex_digit d =
    if ltb d 10
    then decimal d
    else if ltb d 11
    then "a"
    else if ltb d 12
    then "b"
    else if ltb d 13
    then "c"
    else if ltb d 14
    then "d"
    else if ltb d 15
    then "e"
    else "f"

-- The low digits of a number in base 16, most significant first.
unfoldable pub hex_digits : ℕ → ℕ → String
unfolding hex_digit decimal
hex_digits zero n = ""
hex_digits (suc k) n = hex_digits k (n / 16) ⧺ hex_digit (n % 16)

unfoldable pub hash_fields : Primitives → String → List Field → Hex
unfolding hex_digits normalize_all join
hash_fields p domain values =
    "0x"
    ⧺ hex_digits 64 (p.sha256 ("pnlx:" ⧺ domain ⧺ ":" ⧺ join "|" (normalize_all (fields values))))
