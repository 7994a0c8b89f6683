-- ===== src/Json/Value.antt =====
-- Values, and the two functions that carry bigints through JSON
-- (server/src/shared/state/protocol-snapshot.ts). An object is the list of its properties; one that is
-- undefined is left out of it, as JSON leaves it out. A number is a natural number.
use pnlx.Base.{ℕ, Bool, true, not, ◌&&◌, String, Option, none, some, if◌then◌else◌}
use pnlx.Base.Int.{ℤ}
use pnlx.Base.Text.{◌===◌, decimal_ℤ}
use pnlx.Base.Result.{Result, ok, ◌>>=◌}
use pnlx.Json.Decimal.{big_int}

mutual
  pub data Value : Type 0 where
    null : Value
    boolean : Bool → Value
    number : ℕ → Value
    text : String → Value
    bigint : ℤ → Value
    array : Values → Value
    object : Properties → Value

  pub data Values : Type 0 where
    none_left : Values
    element : Value → Values → Values

  pub data Properties : Type 0 where
    no_more : Properties
    property : String → Value → Properties → Properties

abbrev pub bigint_key : String
bigint_key = "__pnlxBigInt"

-- `bigintReplacer`, which `JSON.stringify` calls on a value before it goes into what comes back.
unfoldable mutual
  unfolding decimal_ℤ

  pub replace : Value → Value
  replace null = null
  replace (boolean b) = boolean b
  replace (number n) = number n
  replace (text s) = text s
  replace (bigint n) = object (property bigint_key (text (decimal_ℤ n)) no_more)
  replace (array vs) = array (replace_elements vs)
  replace (object ps) = object (replace_properties ps)

  pub replace_elements : Values → Values
  replace_elements none_left = none_left
  replace_elements (element v vs) = element (replace v) (replace_elements vs)

  pub replace_properties : Properties → Properties
  replace_properties no_more = no_more
  replace_properties (property k v ps) = property k (replace v) (replace_properties ps)

abbrev pub as_text : Value → Option String
as_text (text s) = some s
as_text _ = none

-- The text of the property that marks a bigint, if there is one.
unfoldable pub marked : Properties → Option String
marked no_more = none
marked (property k v ps) = let rest = marked ps in if k === bigint_key then as_text v else rest

unfoldable pub from_mark : Option String → Properties → Result Value
from_mark none ps = ok (object ps)
from_mark (some s) ps = big_int s >>= λ n. ok (bigint n)

-- `bigintReviver` on an object whose properties are revived.
unfoldable pub revive_object : Properties → Result Value
unfolding marked from_mark
revive_object ps = from_mark (marked ps) ps

-- `JSON.parse` calls the reviver on the parts of a value before the value.
unfoldable mutual
  unfolding revive_object

  pub revive : Value → Result Value
  revive null = ok null
  revive (boolean b) = ok (boolean b)
  revive (number n) = ok (number n)
  revive (text s) = ok (text s)
  revive (bigint n) = ok (bigint n)
  revive (array vs) = revive_elements vs >>= λ us. ok (array us)
  revive (object ps) = revive_properties ps >>= λ qs. revive_object qs

  pub revive_elements : Values → Result Values
  revive_elements none_left = ok none_left
  revive_elements (element v vs) = revive v >>= λ u. revive_elements vs >>= λ us. ok (element u us)

  pub revive_properties : Properties → Result Properties
  revive_properties no_more = ok no_more
  revive_properties (property k v ps) =
      revive v >>= λ u. revive_properties ps >>= λ qs. ok (property k u qs)

-- No object of the value has the property that marks a bigint.
unfoldable mutual
  pub is_plain : Value → Bool
  is_plain (array vs) = are_plain vs
  is_plain (object ps) = have_no_mark ps
  is_plain _ = true

  pub are_plain : Values → Bool
  are_plain none_left = true
  are_plain (element v vs) = is_plain v && are_plain vs

  pub have_no_mark : Properties → Bool
  have_no_mark no_more = true
  have_no_mark (property k v ps) = not (k === bigint_key) && is_plain v && have_no_mark ps
