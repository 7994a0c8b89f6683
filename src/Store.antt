-- ===== src/Store.antt =====
-- The protocol state of the server (server/src/shared/state/store.ts): commitments, nullifiers,
-- orders, positions and settlements, and every operation that changes them.
pub mod State
pub mod Monad
pub mod Tree
pub mod PrivateIntent
pub mod Funds
pub mod Markets
pub mod Orders
pub mod Positions
pub mod Settlement
pub mod Commands
pub mod Chains
pub mod Effects
pub mod Keeps
pub mod Spending
pub mod PairedSpending
pub mod SettlementSpending
pub mod Steps
pub mod DoubleSpend
pub mod Retention
pub mod Cancellation
pub mod Locks
mod Examples
pub mod Stored
pub mod Snapshot
pub mod RoundTrip
pub mod Roots
pub mod Keyed
mod StateExamples
