-- ===== src/Jobs/Sets.antt =====
-- Membership in the sets of the matcher's jobs
-- (server/src/workers/matcher/matcher-job.service.ts).
use pnlx.Base.{◌≡◌, not, ◌&&◌, String, [], ◌∷◌, arith}
use pnlx.Base.Text.{◌===◌, ===_iff}
use pnlx.Base.StringSet
use pnlx.Base.StringSet.{StringSet, has-append}
use pnlx.Jobs.Service.{remove}

pub has-remove :
    (j k : String) (s : StringSet)
    → StringSet.has j (remove k s) ≡ (not (k === j) && StringSet.has j s)
unfolding StringSet.has
has-remove j k [] = ground arith
has-remove j k (x ∷ xs) = ground (arith, has-remove j k xs, ===_iff k x, ===_iff j x, ===_iff k j)
