-- ===== src/Json/Examples.antt =====
-- A value with a bigint on its way through JSON
-- (server/src/shared/state/protocol-snapshot.ts).
use pnlx.Base.{◌≡◌, refl, true}
use pnlx.Base.Int.{negsuc}
use pnlx.Base.Text.{◌===◌}
use pnlx.Base.Result.{ok}
use pnlx.Json.Value.{
  Value, bigint, text, array, object, none_left, element, no_more, property, replace, revive,
  is_plain,
}
use pnlx.Json.RoundTrip.{revive-replace}

abbrev entry : Value
entry = array (
    element (text "eth")
      (element (object (property "fundingIndex" (bigint (negsuc 41)) no_more)) none_left))

entry-plain : is_plain entry ≡ true
unfolding is_plain ◌===◌
entry-plain = refl

revive-replace_example : revive (replace entry) ≡ ok entry
revive-replace_example = revive-replace entry entry-plain
