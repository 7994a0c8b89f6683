-- ===== src/MarketMath/Fees.antt =====
-- The fees of a fill and how they are shared out (packages/market-math/src/fees.ts).
use pnlx.Base.{◌||◌}
use pnlx.Base.Int.{ℤ, pos, ◌-ℤ◌, ◌*ℤ◌, ◌/ℤ◌, leb_ℤ}
use pnlx.Base.Result.{Result, ok, ◌>>◌, throw_if}
use pnlx.MarketMath.Margin.{rate_scale, notional}

abbrev pub taker_fee_ppm : ℤ
taker_fee_ppm = pos 500

abbrev pub maker_rebate_ppm : ℤ
maker_rebate_ppm = pos 150

abbrev pub insurance_fee_ppm : ℤ
insurance_fee_ppm = pos 100

pub record FillFees : Type 0 where
  pub gross_taker_fee : ℤ
  pub maker_rebate : ℤ
  pub insurance : ℤ
  pub treasury : ℤ

-- The shares of a notional value; what rounding leaves goes to the treasury.
unfoldable pub split_fees : ℤ → FillFees
split_fees value = record {
  gross_taker_fee = value *ℤ taker_fee_ppm /ℤ rate_scale;
  maker_rebate = value *ℤ maker_rebate_ppm /ℤ rate_scale;
  insurance = value *ℤ insurance_fee_ppm /ℤ rate_scale;
  treasury =
      value *ℤ taker_fee_ppm /ℤ rate_scale
      -ℤ value *ℤ maker_rebate_ppm /ℤ rate_scale
      -ℤ value *ℤ insurance_fee_ppm /ℤ rate_scale;
}

unfoldable pub fill_fees : ℤ → ℤ → Result FillFees
fill_fees size price = do
  throw_if (leb_ℤ size (pos 0) || leb_ℤ price (pos 0)) "invalid fee notional"
  ok (split_fees (notional size price))
