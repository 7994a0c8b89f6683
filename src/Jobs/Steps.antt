-- ===== src/Jobs/Steps.antt =====
-- What can happen to the matcher's jobs, in any order, and what can be reached from an empty service
-- (server/src/workers/matcher/matcher-job.service.ts).
use pnlx.Base.{ℕ, ◌≡◌, true, String}
use pnlx.Base.Result.{Result}
use pnlx.Base.StringSet
use pnlx.Jobs.Service.{Codec, Jobs, enqueued, start, finish, leave}

module _ {Input Transcript : Type 0} (codec : Codec Input Transcript) where
  -- A request, the microtask of a job that waits, the answer of a processor that was called, or the
  -- end of a process that has nothing left to do.
  pub data Step : Jobs → Jobs → Type 0 where
    request : (s : Jobs) (now : ℕ) (input : Input) → Step s (enqueued codec now input s)
    microtask : (s : Jobs) (now : ℕ) → Step s (start now s)
    answer :
        (s : Jobs) (now later : ℕ) (id : String) (outcome : Result Transcript)
        → StringSet.has id s.running ≡ true
        → Step s (finish codec now later id outcome s)
    departure : (s : Jobs) (id : String) → StringSet.has id s.ending ≡ true → Step s (leave id s)

  pub data Reach (s : Jobs) : Jobs → Type 0 where
    here : Reach s s
    next : {t u : Jobs} → Reach s t → Step t u → Reach s u
