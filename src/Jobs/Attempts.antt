-- ===== src/Jobs/Attempts.antt =====
-- How often a job of the matcher is tried, and that a completed one stays as it is
-- (server/src/workers/matcher/matcher-job.service.ts).
use pnlx.Base.{
  ℕ, ◌≤◌, ◌≡◌, refl, String, List, [], ◌∷◌, some, arith, Option-cases, Bool-cases, inl, inr,
}
use pnlx.Base.Text.{◌===◌}
use pnlx.Base.Result.{Result, ok, err}
use pnlx.Base.Map
use pnlx.Base.Map.{Map, get-set}
use pnlx.Jobs.Service.{
  Codec, queued, MatcherJobDocument, Jobs, no_jobs, is_queued, new_job, requeued, is_retryable,
  put_job, enqueued, matcher_job_id, completion, complete, failure, fail, claimed, claim, process,
  start, finish,
}
use pnlx.Jobs.Steps.{Step, request, microtask, answer, departure, Reach, here, next}
use pnlx.Jobs.Fits.{kick-memory, leave-memory}
use pnlx.Jobs.Invariant.{start_idle, start_first}

-- Five attempts at most, and one less while the job is queued for the next.
abbrev IsLimited : MatcherJobDocument → Type 0
IsLimited job = (job.attempts ≤ 5) × (job.status ≡ queued → job.attempts ≤ 4)

record AreLimited (memory : Map MatcherJobDocument) : Type 0 where
  each : (j : String) (job : MatcherJobDocument) → Map.get j memory ≡ some job → IsLimited job

set-AreLimited :
    (id : String) (new : MatcherJobDocument) (memory : Map MatcherJobDocument)
    → AreLimited memory
    → IsLimited new
    → AreLimited (Map.set id new memory)
set-AreLimited id new memory h l = record {
  each = λ j job e. elim (Bool-cases (j === id)) [
    | inl f ↦ ground (arith, f, e, l, get-set id j new memory)
    | inr f ↦ ground (arith, f, e, get-set id j new memory, h.each j job)
  ];
}

put_job-AreLimited :
    (id text : String) (now : ℕ) (memory : Map MatcherJobDocument)
    → AreLimited memory
    → AreLimited (put_job id text now memory)
unfolding put_job is_retryable
put_job-AreLimited id text now memory h = elim (Option-cases (Map.get id memory)) [
  | inl e ↦
      rw (put_job, e)
        (set-AreLimited id (new_job id text now) memory h (omega arith, λ q. omega arith))
  | inr (job, e) ↦ elim (Bool-cases (is_retryable now job)) [
    | inl r ↦
        rw (put_job, e, r)
          (set-AreLimited id (requeued now job) memory h (ground (arith, r, h.each id job e)))
    | inr r ↦ rw (put_job, e, r) h
  ]
]

process-AreLimited :
    (now : ℕ) (id : String) (s : Jobs) → AreLimited s.memory → AreLimited (process now id s).memory
unfolding process claim
process-AreLimited now id s h = elim (Option-cases (Map.get id s.memory)) [
  | inl e ↦ rw (process, claim, e) h
  | inr (job, e) ↦ elim (Bool-cases (is_queued job.status)) [
    | inl q ↦
        rw (process, claim, e, q)
          (set-AreLimited id (claimed now job) s.memory h (ground (arith, q, h.each id job e)))
    | inr q ↦ rw (process, claim, e, q) h
  ]
]

start-AreLimited :
    (now : ℕ) (s : Jobs) (ids : List String)
    → s.waiting ≡ ids
    → AreLimited s.memory
    → AreLimited (start now s).memory
start-AreLimited now s [] e h = rw (start_idle now s e) h
start-AreLimited now s (id ∷ rest) e h =
    rw (start_first now s id rest e) (process-AreLimited now id (record s { waiting = rest }) h)

module _ {Input Transcript : Type 0} (codec : Codec Input Transcript) where
  finish-AreLimited :
      (now later : ℕ) (id : String) (outcome : Result Transcript) (s : Jobs)
      → AreLimited s.memory
      → AreLimited (finish codec now later id outcome s).memory
  unfolding finish complete fail
  finish-AreLimited now later id (ok transcript) s h = elim (Option-cases (Map.get id s.memory)) [
    | inl e ↦ rw (complete, e) h
    | inr (job, e) ↦
        rw (complete, e)
          (set-AreLimited id (completion codec now transcript job) s.memory h
            (ground (arith, h.each id job e)))
  ]
  finish-AreLimited now later id (err message) s h = elim (Option-cases (Map.get id s.memory)) [
    | inl e ↦ rw (fail, e) h
    | inr (job, e) ↦
        rw (fail, e)
          (set-AreLimited id (failure now later message job) s.memory h
            (ground (arith, h.each id job e)))
  ]

  Step-AreLimited : {s t : Jobs} → Step codec s t → AreLimited s.memory → AreLimited t.memory
  unfolding enqueued
  Step-AreLimited (request s now input) h =
      let id = matcher_job_id codec input in
      let memory = put_job id (codec.encode_input input) now s.memory in
      rw (kick-memory id (record s { memory = memory }))
        (put_job-AreLimited id (codec.encode_input input) now s.memory h)
  Step-AreLimited (microtask s now) h = start-AreLimited now s s.waiting refl h
  Step-AreLimited (answer s now later id outcome r) h = finish-AreLimited now later id outcome s h
  Step-AreLimited (departure s id e) h = rw (leave-memory id s) h

  no_jobs-AreLimited : AreLimited no_jobs.memory
  unfolding Map.get
  no_jobs-AreLimited = record { each = λ j job e. cc }

  Reach-AreLimited : {s : Jobs} → Reach codec no_jobs s → AreLimited s.memory
  Reach-AreLimited here = no_jobs-AreLimited
  Reach-AreLimited (next r step) = Step-AreLimited step (Reach-AreLimited r)

  -- Whatever requests, microtasks, answers and ends of processes come, a job is tried five times at
  -- most, and a job that is queued again has been tried four times at most.
  pub attempts_bounded :
      (s : Jobs) (id : String) (job : MatcherJobDocument)
      → Reach codec no_jobs s
      → Map.get id s.memory ≡ some job
      → (job.attempts ≤ 5) × (job.status ≡ queued → job.attempts ≤ 4)
  attempts_bounded s id job r e = (Reach-AreLimited r).each id job e
