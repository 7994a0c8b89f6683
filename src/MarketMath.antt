-- ===== src/MarketMath.antt =====
-- Fees, margins, profit and loss, funding and the virtual pool (packages/market-math/src).
pub mod Margin
pub mod Fees
pub mod Pnl
pub mod Funding
pub mod Liquidation
pub mod Vamm
pub mod FeeSplit
pub mod ZeroSum
pub mod Bounds
pub mod Solvency
mod Examples
