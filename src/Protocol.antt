-- ===== src/Protocol.antt =====
-- The records that the services share (packages/protocol-types/src/index.ts).
pub mod Proof
pub mod Orders
pub mod Positions
pub mod Markets
pub mod Settlements
pub mod Accounts
