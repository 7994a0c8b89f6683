-- ===== src/MarketMath/Vamm.antt =====
-- The virtual pool that takes the residual side (packages/market-math/src/vamm.ts).
use pnlx.Base.{if◌then◌else◌}
use pnlx.Base.Int.{ℤ, pos, ◌-ℤ◌, ◌*ℤ◌, ◌/ℤ◌, leb_ℤ, ◌==ℤ◌}
use pnlx.Base.Result.{Result, ok, ◌>>◌, throw_if}

pub record VammState : Type 0 where
  pub base_reserve : ℤ
  pub quote_reserve : ℤ

unfoldable pub invariant : VammState → ℤ
invariant state = state.base_reserve *ℤ state.quote_reserve

-- The pool after the trade, when the base that is left is positive.
unfoldable pub after_trade : VammState → ℤ → Result VammState
unfolding invariant
after_trade state next_base = do
  throw_if (leb_ℤ next_base (pos 0)) "invalid vamm base reserve"
  ok (record { base_reserve = next_base; quote_reserve = invariant state /ℤ next_base })

unfoldable pub route_residual : VammState → ℤ → Result VammState
unfolding after_trade
route_residual state signed_base_delta =
    if signed_base_delta ==ℤ pos 0
    then ok state
    else after_trade state (state.base_reserve -ℤ signed_base_delta)
