-- ===== src/Jobs/Progress.antt =====
-- A completed job of the matcher stays as it is, and a queued one is taken up
-- (server/src/workers/matcher/matcher-job.service.ts).
use pnlx.Base.{
  ℕ, zero, suc, ◌≡◌, ◌≢◌, false, ◌||◌, refl, subst, true, String, List, [], ◌∷◌, some, arith,
  Option-cases, inl, inr, length,
}
use pnlx.Base.Text.{◌===◌, ===_iff, ===_refl}
use pnlx.Base.Result.{no_value, Result, ok, err}
use pnlx.Base.Map
use pnlx.Base.Map.{Map, get-set}
use pnlx.Base.StringSet
use pnlx.Base.StringSet.{has-append}
use pnlx.Jobs.Service.{
  Codec, queued, proving, completed, MatcherJobDocument, Jobs, no_jobs, new_job, requeued,
  is_retryable, put_job, kick, enqueued, matcher_job_id, completion, complete, failure, fail,
  claimed, claim, process, start, finish, status_in,
}
use pnlx.Jobs.Steps.{Step, request, microtask, answer, departure, Reach, here, next}
use pnlx.Jobs.Fits.{leave-memory, put_job_self}
use pnlx.Jobs.Invariant.{
  IsWell, Reach-IsWell, Step-IsWell, start_idle, start_first, process-waiting,
}

-- The job with the id is this one, and it is completed.
abbrev IsDone : String → MatcherJobDocument → Map MatcherJobDocument → Type 0
IsDone id job memory = (Map.get id memory ≡ some job) × (job.status ≡ completed)

module _ (id : String) (job : MatcherJobDocument) where
  put_job-IsDone :
      (j text : String) (now : ℕ) (memory : Map MatcherJobDocument)
      → IsDone id job memory
      → IsDone id job (put_job j text now memory)
  unfolding put_job is_retryable
  put_job-IsDone j text now memory d = elim (Option-cases (Map.get j memory)) [
    | inl e ↦ ground (arith, d, e, get-set j id (new_job j text now) memory, ===_iff id j)
    | inr (other, e) ↦ ground (arith, d, e, get-set j id (requeued now other) memory, ===_iff id j)
  ]

  process-IsDone :
      (now : ℕ) (j : String) (s : Jobs)
      → IsDone id job s.memory
      → IsDone id job (process now j s).memory
  unfolding process claim
  process-IsDone now j s d = elim (Option-cases (Map.get j s.memory)) [
    | inl e ↦ ground (arith, d, e)
    | inr (other, e) ↦ ground (arith, d, e, get-set j id (claimed now other) s.memory, ===_iff id j)
  ]

  start-IsDone :
      (now : ℕ) (s : Jobs) (ids : List String)
      → s.waiting ≡ ids
      → IsDone id job s.memory
      → IsDone id job (start now s).memory
  start-IsDone now s [] e h = rw (start_idle now s e) h
  start-IsDone now s (j ∷ rest) e h =
      rw (start_first now s j rest e) (process-IsDone now j (record s { waiting = rest }) h)

  module _ {Input Transcript : Type 0} (codec : Codec Input Transcript) where
    finish-IsDone :
        (now later : ℕ) (j : String) (outcome : Result Transcript) (s : Jobs)
        → status_in j s.memory ≡ some proving
        → IsDone id job s.memory
        → IsDone id job (finish codec now later j outcome s).memory
    unfolding finish complete fail
    finish-IsDone now later j (ok transcript) s p d = elim (Option-cases (Map.get j s.memory)) [
      | inl e ↦ ground (arith, d, e)
      | inr (other, e) ↦ ground (
        arith,
        d,
        e,
        p,
        get-set j id (completion codec now transcript other) s.memory,
        ===_iff id j,
      )
    ]
    finish-IsDone now later j (err message) s p d = elim (Option-cases (Map.get j s.memory)) [
      | inl e ↦ ground (arith, d, e)
      | inr (other, e) ↦
          ground
            (arith, d, e, p, get-set j id (failure now later message other) s.memory, ===_iff id j)
    ]

    Step-IsDone :
        {s t : Jobs} → Step codec s t → IsWell s → IsDone id job s.memory → IsDone id job t.memory
    unfolding enqueued kick
    Step-IsDone (request s now input) w d = ground (
      arith,
      put_job-IsDone (matcher_job_id codec input) (codec.encode_input input) now s.memory d,
    )
    Step-IsDone (microtask s now) w d = start-IsDone now s s.waiting refl d
    Step-IsDone (answer s now later j outcome r) w d =
        finish-IsDone now later j outcome s ((w.each j).running_proves r) d
    Step-IsDone (departure s j e) w d = rw (leave-memory j s) d

    -- Once a job is completed in a state that is reached from an empty service, it is final: after any
    -- requests, microtasks, answers and ends of processes the record of the job, with its result, is
    -- the same.
    pub completed_stays :
        (s t : Jobs)
        → Reach codec no_jobs s
        → Map.get id s.memory ≡ some job
        → job.status ≡ completed
        → Reach codec s t
        → Map.get id t.memory ≡ some job
    completed_stays s t w e c r = (stays r).1.0
      where
        stays : {u : Jobs} → Reach codec s u → IsWell u × IsDone id job u.memory
        stays here = (Reach-IsWell codec w, (e, c))
        stays (next q step) =
            let before = stays q in
            (Step-IsWell codec step before.0, Step-IsDone step before.0 before.1)

-- As many microtasks as the number says.
unfoldable pub microtasks : ℕ → ℕ → Jobs → Jobs
microtasks now zero s = s
microtasks now (suc n) s = microtasks now n (start now s)

start-waiting :
    (now : ℕ) (s : Jobs) (id : String) (rest : List String)
    → s.waiting ≡ id ∷ rest
    → (start now s).waiting ≡ rest
start-waiting now s id rest e =
    rw (start_first now s id rest e) (process-waiting now id (record s { waiting = rest }))

microtasks-waiting :
    (now : ℕ) (ids : List String) (s : Jobs)
    → s.waiting ≡ ids
    → (microtasks now (length ids) s).waiting ≡ []
unfolding microtasks
microtasks-waiting now [] s e = e
microtasks-waiting now (id ∷ rest) s e =
    microtasks-waiting now rest (start now s) (start-waiting now s id rest e)

-- A queued job waits for a microtask.
abbrev IsTaken : String → Jobs → Type 0
IsTaken id s = status_in id s.memory ≡ some queued → StringSet.has id s.waiting ≡ true

process-IsTaken :
    (now : ℕ) (id j : String) (rest : List String) (s : Jobs)
    → (status_in id s.memory ≡ some queued → (id === j || StringSet.has id rest) ≡ true)
    → IsTaken id (process now j (record s { waiting = rest }))
unfolding process claim
process-IsTaken now id j rest s h = elim (Option-cases (Map.get j s.memory)) [
  | inl e ↦ ground (arith, h, e, ===_iff id j)
  | inr (job, e) ↦ ground (arith, h, e, get-set j id (claimed now job) s.memory, ===_iff id j)
]

start-IsTaken :
    (now : ℕ) (id : String) (s : Jobs) (ids : List String)
    → s.waiting ≡ ids
    → IsTaken id s
    → IsTaken id (start now s)
unfolding StringSet.has
start-IsTaken now id s [] e h = rw (start_idle now s e) h
start-IsTaken now id s (j ∷ rest) e h =
    rw (start_first now s j rest e)
      (process-IsTaken now id j rest s λ q. subst (λ ids. StringSet.has id ids ≡ true) e (h q))

microtasks-IsTaken :
    (now n : ℕ) (id : String) (s : Jobs) → IsTaken id s → IsTaken id (microtasks now n s)
unfolding microtasks
microtasks-IsTaken now zero id s h = h
microtasks-IsTaken now (suc n) id s h =
    microtasks-IsTaken now n id (start now s) (start-IsTaken now id s s.waiting refl h)

-- A request leaves its job waiting if it is queued, unless the job's last process is ending.
enqueued-IsTaken :
    {Input Transcript : Type 0} (codec : Codec Input Transcript) (now : ℕ) (input : Input)
    (s : Jobs)
    → IsWell s
    → StringSet.has (matcher_job_id codec input) s.ending ≡ false
    → IsTaken (matcher_job_id codec input) (enqueued codec now input s)
unfolding enqueued kick StringSet.has
enqueued-IsTaken codec now input s w free =
    let id = matcher_job_id codec input in
    ground (
      arith,
      w.each id,
      free,
      put_job_self id (codec.encode_input input) now s.memory,
      has-append id s.waiting (id ∷ []),
      ===_refl id,
    )

-- A request is taken up: in a state that is reached from an empty service, if no process of the job
-- that is asked for is ending, then after the request and as many microtasks as wait then, none waits
-- and the job is not queued.
pub microtasks_take_up :
    {Input Transcript : Type 0} (codec : Codec Input Transcript) (now later : ℕ) (input : Input)
    (s : Jobs)
    → Reach codec no_jobs s
    → StringSet.has (matcher_job_id codec input) s.ending ≡ false
    → let t : Jobs = enqueued codec now input s in
      ((microtasks later (length t.waiting) t).waiting ≡ [])
      × (status_in (matcher_job_id codec input) (microtasks later (length t.waiting) t).memory
          ≢ some queued)
unfolding StringSet.has
microtasks_take_up codec now later input s r free =
    let id = matcher_job_id codec input in
    let t = enqueued codec now input s in
    let idle = microtasks-waiting later t.waiting t refl in
    let taken =
      microtasks-IsTaken later (length t.waiting) id t
        (enqueued-IsTaken codec now input s (Reach-IsWell codec r) free) in
    (idle, λ q. no_value (subst (λ ids. StringSet.has id ids ≡ true) idle (taken q)))
