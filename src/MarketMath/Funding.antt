-- ===== src/MarketMath/Funding.antt =====
-- Funding payments and the funding index (packages/market-math/src/funding.ts). The two times are
-- whole milliseconds, so `Math.trunc` leaves them alone.
use pnlx.Base.{Option, none, some, if◌then◌else◌, Bool, false}
use pnlx.Base.Int.{ℤ, pos, ◌-ℤ◌, ◌*ℤ◌, ◌/ℤ◌, negate, ltb_ℤ, leb_ℤ}
use pnlx.Base.Result.{Result, ok, ◌>>◌, throw_if}
use pnlx.MarketMath.Margin.{price_scale, rate_scale}

unfoldable pub funding_payment : ℤ → ℤ → ℤ → ℤ
funding_payment signed_size current_index last_index =
    (signed_size *ℤ (current_index -ℤ last_index)) /ℤ price_scale

pub record FundingIndexDeltaInput : Type 0 where
  pub elapsed_ms : ℤ
  pub interval_ms : ℤ
  pub mark_price : ℤ
  pub max_funding_delta : Option ℤ
  pub premium_rate : ℤ

-- `max_funding_delta !== undefined && max_funding_delta < 0n`
abbrev pub negative_limit : Option ℤ → Bool
negative_limit none = false
negative_limit (some limit) = ltb_ℤ limit (pos 0)

unfoldable pub clamp_funding : Option ℤ → ℤ → ℤ
clamp_funding none raw = raw
clamp_funding (some limit) raw =
    if ltb_ℤ limit raw then limit else if ltb_ℤ raw (negate limit) then negate limit else raw

unfoldable pub funding_index_delta : FundingIndexDeltaInput → Result ℤ
funding_index_delta input = do
  throw_if (leb_ℤ input.mark_price (pos 0)) "mark price must be positive"
  throw_if (ltb_ℤ input.elapsed_ms (pos 0)) "elapsed time cannot be negative"
  throw_if (leb_ℤ input.interval_ms (pos 0)) "funding interval must be positive"
  throw_if (negative_limit input.max_funding_delta) "max funding delta cannot be negative"
  let raw =
      (input.mark_price *ℤ input.premium_rate *ℤ input.elapsed_ms)
      /ℤ (rate_scale *ℤ input.interval_ms)
  ok (clamp_funding input.max_funding_delta raw)
