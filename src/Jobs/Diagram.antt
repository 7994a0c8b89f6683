-- ===== src/Jobs/Diagram.antt =====
-- The service against the diagram of a job's status
-- (server/src/workers/matcher/matcher-job.service.ts).
use pnlx.Base.{◌≡◌, String, Option, none, some, ◌⊎◌}
use pnlx.Base.Result.{Result}
use pnlx.Base.Map
use pnlx.Base.Map.{Map}
use pnlx.Jobs.Service.{
  MatcherJobStatus, queued, proving, completed, failed, MatcherJobDocument, Jobs, status_in,
}

-- A job that is not there becomes queued, a queued one is proved, one that is proved is completed or
-- fails, and a failed one becomes queued. Nothing leads on from a completed one.
infix 40 ◌⟶◌ ◌⟶*◌
pub data ◌⟶◌ : Option MatcherJobStatus → Option MatcherJobStatus → Type 0 where
  created : none ⟶ some queued
  taken : some queued ⟶ some proving
  succeeded : some proving ⟶ some completed
  gave_up : some proving ⟶ some failed
  retried : some failed ⟶ some queued

pub data ◌⟶*◌ (a : Option MatcherJobStatus) : Option MatcherJobStatus → Type 0 where
  unmoved : a ⟶* a
  move : {b c : Option MatcherJobStatus} → a ⟶* b → b ⟶ c → a ⟶* c

ruleset diagram = (created, taken, succeeded, gave_up, retried)

-- The status of a job in a memory, and its status in the next one.
abbrev Follows : String → Map MatcherJobDocument → Map MatcherJobDocument → Type 0
Follows j m n = (status_in j n ≡ status_in j m) ⊎ (status_in j m ⟶ status_in j n)
