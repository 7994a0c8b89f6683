-- ===== src/Funding.antt =====
-- The funding engine (server/src/workers/funding-engine): it samples the premium of the private book
-- over the oracle price, and moves the funding index of every market by it.
pub mod Config
pub mod Impact
pub mod Premium
pub mod Cycle
pub mod Engine
mod Bounds
mod ImpactBounds
mod Cycles
mod Examples
