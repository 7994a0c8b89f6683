-- ===== src/Jobs.antt =====
-- The jobs of the remote matcher, kept in memory (server/src/workers/matcher/matcher-job.service.ts).
pub mod Service
pub mod Steps
mod Sets
mod Fits
pub mod Invariant
mod Attempts
mod Progress
mod Diagram
mod Examples
