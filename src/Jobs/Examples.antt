-- ===== src/Jobs/Examples.antt =====
-- The jobs of the matcher at concrete inputs (server/src/workers/matcher/matcher-job.service.ts).
use pnlx.Base.{◌≤◌, ◌≡◌, ◌≢◌, refl, true, false, String, [], none, some, length}
use pnlx.Base.Text.{◌===◌}
use pnlx.Base.Result.{ok, err}
use pnlx.Base.Map
use pnlx.Base.StringSet
use pnlx.Jobs.Service.{
  Codec, queued, completed, MatcherJobDocument, Jobs, no_jobs, enqueued, start, finish, leave,
  matcher_job_id, retry_delay_ms, status_in,
}
use pnlx.Jobs.Steps.{request, microtask, answer, departure, Reach, here, next}
use pnlx.Jobs.Invariant.{IsWell, Reach-IsWell}
use pnlx.Jobs.Attempts.{attempts_bounded}
use pnlx.Jobs.Progress.{completed_stays, microtasks, microtasks_take_up}

-- Texts stand for themselves.
abbrev plain : Codec String String
plain = record {
  sha256_hex = λ s. s;
  encode_input = λ s. s;
  decode_input = λ s. s;
  encode_transcript = λ s. s;
  decode_transcript = λ s. s;
}

abbrev requested : Jobs
requested = enqueued plain 10 "eth" no_jobs

abbrev started : Jobs
started = start 11 requested

abbrev answered : Jobs
answered = finish plain 12 12 "eth" (ok "transcript") started

-- The job is asked for again when it is completed.
abbrev again : Jobs
again = enqueued plain 13 "eth" answered

eth-runs : StringSet.has "eth" started.running ≡ true
unfolding enqueued start StringSet.has Map.get Map.set ◌===◌ StringSet.add
eth-runs = refl

-- The processor throws, the process leaves, and the job is asked for again when its time has come.
abbrev failed_once : Jobs
failed_once = finish plain 12 12 "eth" (err "no proof") started

abbrev departed : Jobs
departed = leave "eth" failed_once

abbrev asked_again : Jobs
asked_again = enqueued plain 400000 "eth" departed

requested-Reach : Reach plain no_jobs requested
requested-Reach = next here (request no_jobs 10 "eth")

eth-ends : StringSet.has "eth" failed_once.ending ≡ true
unfolding enqueued start finish StringSet.has Map.get Map.set ◌===◌ StringSet.add
eth-ends = refl

departed-Reach : Reach plain no_jobs departed
departed-Reach =
    next
      (next (next requested-Reach (microtask requested 11))
        (answer started 12 12 "eth" (err "no proof") eth-runs))
      (departure failed_once "eth" eth-ends)

answered-Reach : Reach plain no_jobs answered
answered-Reach =
    next (next requested-Reach (microtask requested 11))
      (answer started 12 12 "eth" (ok "transcript") eth-runs)

again-Reach : Reach plain answered again
again-Reach = next here (request answered 13 "eth")

abbrev document : MatcherJobDocument
document = record {
  id = "eth";
  attempts = 1;
  created_at = 10;
  error = none;
  input = "eth";
  next_attempt_at = none;
  result = some "transcript";
  status = completed;
  updated_at = 12;
}

eth-completed : Map.get "eth" answered.memory ≡ some document
unfolding enqueued start finish Map.get StringSet.has Map.set ◌===◌
eth-completed = refl

Reach-IsWell_example : IsWell answered
Reach-IsWell_example = Reach-IsWell plain answered-Reach

attempts_bounded_example : (1 ≤ 5) × (completed ≡ queued → 1 ≤ 4)
attempts_bounded_example =
    attempts_bounded plain answered "eth" document answered-Reach eth-completed

completed_stays_example : Map.get "eth" again.memory ≡ some document
completed_stays_example =
    completed_stays "eth" document plain answered again answered-Reach eth-completed refl
      again-Reach

eth-free : StringSet.has "eth" departed.ending ≡ false
unfolding finish leave enqueued start StringSet.has Map.get Map.set ◌===◌ StringSet.add
eth-free = refl

microtasks_take_up_example :
    ((microtasks 400001 (length asked_again.waiting) asked_again).waiting ≡ [])
    × (status_in "eth" (microtasks 400001 (length asked_again.waiting) asked_again).memory
        ≢ some queued)
unfolding matcher_job_id
microtasks_take_up_example =
    microtasks_take_up plain 400000 400001 "eth" departed departed-Reach eth-free

-- A failed job is asked for just before its time, and its microtask finds nothing to do. While that
-- process ends the job is asked for again, in time: it stays queued without a microtask.
abbrev missed : Jobs
missed = start 299999 (enqueued plain 299999 "eth" departed)

abbrev left_behind : Jobs
left_behind = leave "eth" (enqueued plain 300012 "eth" missed)

eth-left_behind :
    (status_in "eth" left_behind.memory ≡ some queued)
    × (left_behind.waiting ≡ [])
    × (StringSet.has "eth" left_behind.active ≡ false)
unfolding enqueued start finish leave retry_delay_ms StringSet.has Map.get Map.set ◌===◌
    StringSet.add
eth-left_behind = (refl, refl, refl)
