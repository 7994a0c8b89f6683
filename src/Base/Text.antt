-- ===== src/Base/Text.antt =====
-- `string` and `Hex`: equality, truthiness, concatenation, and a number's decimal digits.
use Prim.Native.Nat.{ℕ, zero, suc, ◌/◌, ◌%◌}
use Prim.Native.String.{String, ◌++◌ as append}
use mathlib.Core.Path.{◌≡◌, refl}
use mathlib.Core.Logic.{◌↔◌}
use mathlib.Core.Bool.{Bool, true, false, not}
use mathlib.Core.Option.{Option, none, some}
use text.Mathlib.Text.{◌==◌ as beq}
use text.Mathlib.TextEquality.{eq_iff as beq_iff}
use text.Mathlib.TextPositions.{eq_refl as beq_refl}
use pnlx.Base.Tests.{if◌then◌else◌, ltb}
use pnlx.Base.Int.{ℤ, pos, negsuc}

-- A `Hex` is a string that begins with 0x; the type adds nothing at run time.
abbrev pub Hex : Type 0
Hex = String

infix 50 ◌===◌
unfoldable pub ◌===◌ : String → String → Bool
s === t = beq s t

pub ===_iff : (s t : String) → ((s === t) ≡ true) ↔ (s ≡ t)
unfolding ◌===◌
===_iff s t = beq_iff s t

pub ===_refl : (s : String) → (s === s) ≡ true
unfolding ◌===◌
===_refl s = beq_refl s

-- An empty string is falsy.
abbrev pub truthy : String → Bool
truthy s = not (s === "")

-- An absent or empty optional string is falsy.
abbrev pub truthy? : Option String → Bool
truthy? none = false
truthy? (some s) = truthy s

-- `x === y` on optional strings
abbrev pub same? : Option String → Option String → Bool
same? none none = true
same? none (some t) = false
same? (some s) none = false
same? (some s) (some t) = s === t

infixr 65 ◌⧺◌
abbrev pub ◌⧺◌ : String → String → String
s ⧺ t = append s t

unfoldable pub digit : ℕ → String
digit zero = "0"
digit (suc zero) = "1"
digit (suc (suc zero)) = "2"
digit (suc (suc (suc zero))) = "3"
digit (suc (suc (suc (suc zero)))) = "4"
digit (suc (suc (suc (suc (suc zero))))) = "5"
digit (suc (suc (suc (suc (suc (suc zero)))))) = "6"
digit (suc (suc (suc (suc (suc (suc (suc zero))))))) = "7"
digit (suc (suc (suc (suc (suc (suc (suc (suc zero)))))))) = "8"
digit _ = "9"

unfoldable pub decimal_from : ℕ → ℕ → String
unfolding digit
decimal_from zero n = ""
decimal_from (suc fuel) n =
    let more = decimal_from fuel (n / 10) ⧺ digit (n % 10) in if ltb n 10 then digit n else more

-- `n.toString()`; a number has fewer digits than its successor.
unfoldable pub decimal : ℕ → String
unfolding decimal_from
decimal n = decimal_from (suc n) n

unfoldable pub decimal_ℤ : ℤ → String
unfolding decimal
decimal_ℤ (pos n) = decimal n
decimal_ℤ (negsuc n) = "-" ⧺ decimal (suc n)

decimal_1024 : decimal_ℤ (negsuc 1023) ≡ "-1024"
unfolding decimal_ℤ
decimal_1024 = refl
