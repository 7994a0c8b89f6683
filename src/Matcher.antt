-- ===== src/Matcher.antt =====
-- The batch matcher (server/src/workers/batch-matcher): orders are crossed by price and time, and
-- every crossing makes two fills, one execution and two spent notes.
pub mod Model
pub mod Risk
pub mod Book
pub mod Priority
pub mod Fills
pub mod Loop
pub mod Transcript
pub mod Summary
mod Examples
pub mod Rounds
pub mod FillFacts
pub mod Orders
pub mod Invariant
pub mod Executions
pub mod Start
pub mod Totals
pub mod Termination
pub mod Outcome
