-- ===== src/Json/Decimal.antt =====
-- `BigInt(text)` of the decimal texts that `toString` writes
-- (server/src/shared/state/protocol-snapshot.ts). The other forms that `BigInt` reads, as hexadecimal
-- texts and spaces, are not modelled: the reader here refuses them.
use Prim.Native.Char.{code}
use Prim.Native.String.append
use pnlx.Base.{
  ℕ, zero, suc, ◌+◌, ◌-◌, ◌*◌, ◌/◌, ◌%◌, ◌<◌, ◌≡◌, refl, ◌&&◌, String, Option, none, some, leb, ltb,
  ◌==◌, if◌then◌else◌, arith, Bool-cases, Option-cases, inl, inr, ◌∙◌, ap,
}
use pnlx.Base.Int.{ℤ, pos, negsuc, negate, ◌-ℤ◌}
use pnlx.Base.Text.{◌⧺◌, decimal, decimal_ℤ, decimal_from, digit}
use pnlx.Base.Result.{Result, ok, err}

unfoldable pub digit_value : ℕ → Option ℕ
digit_value c = if leb b'0' c && leb c b'9' then some (c - b'0') else none

-- The number with these further digits.
unfoldable pub digits_from : ℕ → String → Option ℕ
unfolding digit_value
digits_from n String.[] = some n
digits_from n (String.◌∷◌ c s) = elim (digit_value (code c)) [
  | none ↦ none
  | some d ↦ digits_from (n * 10 + d) s
]

digits_from-append :
    (n m : ℕ) (s t : String) → digits_from n s ≡ some m → digits_from n (s ⧺ t) ≡ digits_from m t
unfolding digits_from
digits_from-append n m String.[] t h = rw (append.nil t) (ground (arith, h))
digits_from-append n m (String.◌∷◌ c s) t h = elim (Option-cases (digit_value (code c))) [
  | inl e ↦ ground (arith, e, h)
  | inr (d, e) ↦
      rw (append.cons c s t, digits_from, e)
        (digits_from-append (n * 10 + d) m s t (ground (arith, e, h)))
]

digits_from-digit : (n d : ℕ) → d < 10 → digits_from n (digit d) ≡ some (n * 10 + d)
unfolding digits_from digit_value digit
digits_from-digit n zero h = refl
digits_from-digit n (suc zero) h = refl
digits_from-digit n (suc (suc zero)) h = refl
digits_from-digit n (suc (suc (suc zero))) h = refl
digits_from-digit n (suc (suc (suc (suc zero)))) h = refl
digits_from-digit n (suc (suc (suc (suc (suc zero))))) h = refl
digits_from-digit n (suc (suc (suc (suc (suc (suc zero)))))) h = refl
digits_from-digit n (suc (suc (suc (suc (suc (suc (suc zero))))))) h = refl
digits_from-digit n (suc (suc (suc (suc (suc (suc (suc (suc zero)))))))) h = refl
digits_from-digit n (suc (suc (suc (suc (suc (suc (suc (suc (suc zero))))))))) h = refl
digits_from-digit n (suc (suc (suc (suc (suc (suc (suc (suc (suc (suc d)))))))))) h =
    absurd (omega arith)

digits_from-decimal_from : (fuel n : ℕ) → n < fuel → digits_from 0 (decimal_from fuel n) ≡ some n
unfolding decimal_from
digits_from-decimal_from zero n h = absurd (omega arith)
digits_from-decimal_from (suc fuel) n h = elim (Bool-cases (ltb n 10)) [
  | inl e ↦ rw e (digits_from-digit 0 n (ground (arith, e)) ∙ ap some (omega arith))
  | inr e ↦ rw e (
      digits_from-append 0 (n / 10) (decimal_from fuel (n / 10)) (digit (n % 10))
        (digits_from-decimal_from fuel (n / 10) (ground (arith, e)))
      ∙ digits_from-digit (n / 10) (n % 10) (omega arith)
      ∙ ap some (omega arith))
]

pub digits_from-decimal : (n : ℕ) → digits_from 0 (decimal n) ≡ some n
unfolding decimal
digits_from-decimal n = digits_from-decimal_from (suc n) n (omega arith)

-- What follows a minus sign.
unfoldable pub minus_digits : String → Result ℤ
unfolding digits_from
minus_digits String.[] = err "Cannot convert to a BigInt"
minus_digits (String.◌∷◌ c s) = elim (digits_from 0 (String.◌∷◌ c s)) [
  | none ↦ err "Cannot convert to a BigInt"
  | some n ↦ ok (negate (pos n))
]

-- A text that is a number after its sign, if there is one; the empty text is zero.
unfoldable pub big_int : String → Result ℤ
unfolding digits_from minus_digits
big_int String.[] = ok (pos 0)
big_int (String.◌∷◌ c s) =
    if code c == b'-' then minus_digits s else elim (digits_from 0 (String.◌∷◌ c s)) [
      | none ↦ err "Cannot convert to a BigInt"
      | some n ↦ ok (pos n)
    ]

big_int-digits : (s : String) (n : ℕ) → digits_from 0 s ≡ some n → big_int s ≡ ok (pos n)
unfolding big_int digits_from digit_value
big_int-digits String.[] n h = ground (arith, h)
big_int-digits (String.◌∷◌ c s) n h = ground (arith, h)

minus-append : (s : String) → "-" ⧺ s ≡ String.◌∷◌ "-" s
minus-append s = rw (append.cons "-" "" s, append.nil s) refl

minus_digits-suc :
    (s : String) (n : ℕ)
    → digits_from 0 s ≡ some (suc n)
    → minus_digits s ≡ ok (negate (pos (suc n)))
unfolding minus_digits digits_from digit_value
minus_digits-suc String.[] n h = ground (arith, h)
minus_digits-suc (String.◌∷◌ c s) n h = ground (arith, h)

big_int-minus :
    (s : String) (n : ℕ)
    → digits_from 0 s ≡ some (suc n)
    → big_int ("-" ⧺ s) ≡ ok (negate (pos (suc n)))
unfolding big_int
big_int-minus s n h = rw (minus-append s, big_int) (minus_digits-suc s n h)

minus_suc : (n : ℕ) → negate (pos (suc n)) ≡ negsuc n
unfolding ◌-ℤ◌
minus_suc n = ground arith

-- `BigInt(n.toString())` is the number.
pub big_int-decimal_ℤ : (n : ℤ) → big_int (decimal_ℤ n) ≡ ok n
unfolding decimal_ℤ
big_int-decimal_ℤ (pos n) = big_int-digits (decimal n) n (digits_from-decimal n)
big_int-decimal_ℤ (negsuc n) =
    big_int-minus (decimal (suc n)) n (digits_from-decimal (suc n)) ∙ ap ok (minus_suc n)
