-- ===== src/Json.antt =====
-- Values with bigints as JSON (server/src/shared/state/protocol-snapshot.ts, and the same two
-- functions in server/src/workers/matcher/matcher-job.service.ts).
pub mod Decimal
pub mod Value
mod RoundTrip
mod Examples
