-- ===== src/Json/RoundTrip.antt =====
-- Bigints survive the way through JSON (server/src/shared/state/protocol-snapshot.ts).
use pnlx.Base.{◌≡◌, refl, ap, ◌∙◌, Bool, true, false, not, ◌&&◌, String, none, some, arith}
use pnlx.Base.Int.{ℤ}
use pnlx.Base.Text.{◌===◌, decimal_ℤ}
use pnlx.Base.Result.{ok, ◌>>=◌}
use pnlx.Json.Decimal.{big_int-decimal_ℤ}
use pnlx.Json.Value.{
  Value, null, boolean, number, text, bigint, array, object, Values, none_left, element, Properties,
  no_more, property, bigint_key, replace, replace_elements, replace_properties, marked, from_mark,
  revive_object, revive, revive_elements, revive_properties, is_plain, are_plain, have_no_mark,
}

both : (a b : Bool) → (a && b) ≡ true → (a ≡ true) × (b ≡ true)
both a b h = ground (arith, h)

unmarked : (a b c : Bool) → (not a && b && c) ≡ true → (a ≡ false) × (b ≡ true) × (c ≡ true)
unmarked a b c h = ground (arith, h)

marked-plain : (ps : Properties) → have_no_mark ps ≡ true → marked ps ≡ none
unfolding marked have_no_mark
marked-plain no_more h = refl
marked-plain (property k v ps) h =
    let (other, plain, rest) = unmarked (k === bigint_key) (is_plain v) (have_no_mark ps) h in
    rw other (marked-plain ps rest)

marked-text : (s : String) → marked (property bigint_key (text s) no_more) ≡ some s
unfolding marked ◌===◌
marked-text s = refl

revive_marked :
    (n : ℤ) → revive_object (property bigint_key (text (decimal_ℤ n)) no_more) ≡ ok (bigint n)
unfolding revive_object from_mark
revive_marked n =
    ap (λ m. from_mark m (property bigint_key (text (decimal_ℤ n)) no_more))
      (marked-text (decimal_ℤ n))
    ∙ ap (λ r. r >>= λ k. ok (bigint k)) (big_int-decimal_ℤ n)

revive_plain : (ps : Properties) → have_no_mark ps ≡ true → revive_object ps ≡ ok (object ps)
unfolding revive_object from_mark
revive_plain ps h = ap (λ m. from_mark m ps) (marked-plain ps h)

mutual
  unfolding revive replace is_plain

  value-cancel : (v : Value) → is_plain v ≡ true → revive (replace v) ≡ ok v
  value-cancel null h = refl
  value-cancel (boolean b) h = refl
  value-cancel (number n) h = refl
  value-cancel (text s) h = refl
  value-cancel (bigint n) h = revive_marked n
  value-cancel (array vs) h = rw (elements-cancel vs h) refl
  value-cancel (object ps) h = rw (properties-cancel ps h) (revive_plain ps h)

  elements-cancel :
      (vs : Values) → are_plain vs ≡ true → revive_elements (replace_elements vs) ≡ ok vs
  elements-cancel none_left h = refl
  elements-cancel (element v vs) h =
      let (first, rest) = both (is_plain v) (are_plain vs) h in
      rw (value-cancel v first, elements-cancel vs rest) refl

  properties-cancel :
      (ps : Properties) → have_no_mark ps ≡ true → revive_properties (replace_properties ps) ≡ ok ps
  properties-cancel no_more h = refl
  properties-cancel (property k v ps) h =
      let (other, first, rest) = unmarked (k === bigint_key) (is_plain v) (have_no_mark ps) h in
      rw (value-cancel v first, properties-cancel ps rest) refl

-- A value in which no object has the property that marks a bigint comes back from JSON as it was, its
-- bigints included.
pub revive-replace : (v : Value) → is_plain v ≡ true → revive (replace v) ≡ ok v
revive-replace v h = value-cancel v h
