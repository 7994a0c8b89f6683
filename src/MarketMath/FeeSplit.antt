-- ===== src/MarketMath/FeeSplit.antt =====
-- The fee of a fill is shared out in full (packages/market-math/src/fees.ts).
use pnlx.Base.{ℕ, ◌*◌, ◌≡◌, arith}
use pnlx.Base.Int.{ℤ, pos, negsuc, ◌+ℤ◌, ◌-ℤ◌, ◌≤ℤ◌, ◌<ℤ◌, pos-mul, pos-div, int_laws}
use pnlx.Base.Int.Signs.{mul-nonneg, div-nonneg}
use pnlx.Base.Result.{ok}
use pnlx.MarketMath.Margin.{notional, abs}
use pnlx.MarketMath.Fees.{FillFees, split_fees, fill_fees}

-- What holds of the shares of a notional value.
pub record IsSplit (value : ℤ) (f : FillFees) : Type 0 where
  pub shared : f.gross_taker_fee ≡ f.maker_rebate +ℤ f.insurance +ℤ f.treasury
  pub rebate_nonneg : pos 0 ≤ℤ f.maker_rebate
  pub insurance_nonneg : pos 0 ≤ℤ f.insurance
  pub treasury_nonneg : pos 0 ≤ℤ f.treasury
  pub below_value : f.gross_taker_fee ≤ℤ value

split_fees-IsSplit_pos : (n : ℕ) → IsSplit (pos n) (split_fees (pos n))
unfolding split_fees
split_fees-IsSplit_pos n =
    rw
      (
        pos-mul n 500,
        pos-mul n 150,
        pos-mul n 100,
        pos-div (n * 500) 1000000,
        pos-div (n * 150) 1000000,
        pos-div (n * 100) 1000000,
      )
      (omega int_laws)

pub split_fees-IsSplit : (value : ℤ) → pos 0 ≤ℤ value → IsSplit value (split_fees value)
split_fees-IsSplit (pos n) h = split_fees-IsSplit_pos n
split_fees-IsSplit (negsuc n) h = absurd (omega arith)

pub abs_nonneg : (a : ℤ) → pos 0 ≤ℤ abs a
unfolding abs ◌-ℤ◌
abs_nonneg a = ground arith

pub notional_nonneg : (size price : ℤ) → pos 0 ≤ℤ price → pos 0 ≤ℤ notional size price
unfolding notional
notional_nonneg size price h =
    div-nonneg _ 100000000 (mul-nonneg (abs size) price (abs_nonneg size) h)

-- A fill of positive size at a positive price has fees; the taker's fee is what the maker, the
-- insurance fund and the treasury get together, no share is negative, and the fee is at most the
-- notional value.
pub fill_fees-IsSplit :
    (size price : ℤ)
    → pos 0 <ℤ size
    → pos 0 <ℤ price
    → (f : FillFees) × (fill_fees size price ≡ ok f) × IsSplit (notional size price) f
unfolding fill_fees
fill_fees-IsSplit size price hs hp = (
  split_fees (notional size price),
  ground arith,
  split_fees-IsSplit _ (notional_nonneg size price (omega arith)),
)
