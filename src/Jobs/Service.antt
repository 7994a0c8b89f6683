-- ===== src/Jobs/Service.antt =====
-- The memory mode of `MatcherJobService` (server/src/workers/matcher/matcher-job.service.ts). A time
-- is a number of milliseconds. The queue of microtasks is a part of the state.
use pnlx.Base.{
  ℕ, suc, ◌+◌, ◌-◌, Bool, true, false, not, ◌&&◌, String, List, [], ◌∷◌, ◌++◌, Option, none, some,
  ltb, leb, or_else, filter_by, get_elem?, if◌then◌else◌,
}
use pnlx.Base.Text.{◌===◌, truthy}
use pnlx.Base.Result.{Result, ok, err}
use pnlx.Base.Map
use pnlx.Base.Map.{Map}
use pnlx.Base.StringSet
use pnlx.Base.StringSet.{StringSet}

-- The JSON encoding, and the digest of node:crypto in hexadecimal digits.
pub record Codec (Input Transcript : Type 0) : Type 0 where
  pub sha256_hex : String → String
  pub encode_input : Input → String
  pub decode_input : String → Input
  pub encode_transcript : Transcript → String
  pub decode_transcript : String → Transcript

pub data MatcherJobStatus : Type 0 where
  queued proving completed failed : MatcherJobStatus

pub record MatcherJobDocument : Type 0 where
  pub id : String
  pub attempts : ℕ
  pub created_at : ℕ
  pub error : Option String
  pub input : String
  pub next_attempt_at : Option ℕ
  pub result : Option String
  pub status : MatcherJobStatus
  pub updated_at : ℕ

pub record MatcherJobView (Transcript : Type 0) : Type 0 where
  pub attempts : ℕ
  pub error : Option String
  pub job_id : String
  pub next_attempt_at : Option ℕ
  pub status : MatcherJobStatus
  pub transcript : Option Transcript
  pub updated_at : ℕ

-- The two fields of the service; the jobs that wait for a microtask to process them; those that are
-- claimed and whose processor has not answered; and those whose process has nothing left to do, while
-- the `finally` that takes them out of `active` has not run yet.
pub record Jobs : Type 0 where
  pub active : StringSet
  pub memory : Map MatcherJobDocument
  pub waiting : List String
  pub running : StringSet
  pub ending : StringSet

abbrev pub no_jobs : Jobs
no_jobs = record { active = []; memory = []; waiting = []; running = []; ending = [] }

abbrev pub status_in : String → Map MatcherJobDocument → Option MatcherJobStatus
status_in id memory = elim (Map.get id memory) [ none ↦ none | some job ↦ some job.status ]

abbrev pub is_queued : MatcherJobStatus → Bool
is_queued queued = true
is_queued _ = false

abbrev pub is_failed : MatcherJobStatus → Bool
is_failed failed = true
is_failed _ = false

abbrev pub delays : List ℕ
delays = 300000 ∷ 900000 ∷ 3600000 ∷ 14400000 ∷ []

abbrev pub max_delay_index : ℕ
max_delay_index = 3

-- `delays[min(max(attempts - 1, 0), delays.length - 1)]`, an index that is always there.
unfoldable pub retry_delay_ms : ℕ → ℕ
retry_delay_ms attempts =
    let index = attempts - 1 in
    or_else (get_elem? delays (if ltb index max_delay_index then index else max_delay_index)) 0

unfoldable pub matcher_job_id :
    {Input Transcript : Type 0} → Codec Input Transcript → Input → String
matcher_job_id codec input = codec.sha256_hex (codec.encode_input input)

abbrev pub new_job : String → String → ℕ → MatcherJobDocument
new_job id input now = record {
  id = id;
  attempts = 0;
  created_at = now;
  error = none;
  input = input;
  next_attempt_at = none;
  result = none;
  status = queued;
  updated_at = now;
}

-- A failed job that has attempts left and whose time has come.
unfoldable pub is_retryable : ℕ → MatcherJobDocument → Bool
is_retryable now job =
    is_failed job.status
    && ltb job.attempts 5
    && elim job.next_attempt_at [ none ↦ false | some at ↦ leb at now ]

abbrev pub requeued : ℕ → MatcherJobDocument → MatcherJobDocument
requeued now job = record job {
  error = none;
  next_attempt_at = none;
  status = queued;
  updated_at = now;
}

-- What `enqueue` writes.
unfoldable pub put_job : String → String → ℕ → Map MatcherJobDocument → Map MatcherJobDocument
unfolding is_retryable
put_job id input now memory = elim (Map.get id memory) [
  | none ↦ Map.set id (new_job id input now) memory
  | some job ↦ if is_retryable now job then Map.set id (requeued now job) memory else memory
]

unfoldable pub kick : String → Jobs → Jobs
kick id s =
    if StringSet.has id s.active
    then s
    else record s { active = StringSet.add id s.active; waiting = s.waiting ++ id ∷ [] }

module _ {Input Transcript : Type 0} (codec : Codec Input Transcript) where
  -- An empty text is falsy; a date never is.
  unfoldable pub get : String → Jobs → Result (MatcherJobView Transcript)
  get id s = elim (Map.get id s.memory) [
    | none ↦ err "matcher job not found"
    | some job ↦ ok (record {
      attempts = job.attempts;
      error = elim job.error [ none ↦ none | some e ↦ if truthy e then some e else none ];
      job_id = job.id;
      next_attempt_at = job.next_attempt_at;
      status = job.status;
      transcript = elim job.result [
        | none ↦ none
        | some text ↦ if truthy text then some (codec.decode_transcript text) else none
      ];
      updated_at = job.updated_at;
    })
  ]

  unfoldable pub enqueued : ℕ → Input → Jobs → Jobs
  unfolding matcher_job_id put_job kick
  enqueued now input s =
      let id = matcher_job_id codec input in
      kick id (record s { memory = put_job id (codec.encode_input input) now s.memory })

  unfoldable pub enqueue : ℕ → Input → Jobs → Result (MatcherJobView Transcript) × Jobs
  unfolding get enqueued
  enqueue now input s = let t = enqueued now input s in (get (matcher_job_id codec input) t, t)

  abbrev pub completion : ℕ → Transcript → MatcherJobDocument → MatcherJobDocument
  completion now transcript job = record job {
    error = none;
    result = some (codec.encode_transcript transcript);
    status = completed;
    updated_at = now;
  }

  -- A job that is not there is not written.
  unfoldable pub complete :
      ℕ → String → Transcript → Map MatcherJobDocument → Map MatcherJobDocument
  complete now id transcript memory = elim (Map.get id memory) [
    | none ↦ memory
    | some job ↦ Map.set id (completion now transcript job) memory
  ]

-- The clock is read twice.
abbrev pub failure : ℕ → ℕ → String → MatcherJobDocument → MatcherJobDocument
failure now later message job = record job {
  error = some message;
  next_attempt_at = some (now + retry_delay_ms job.attempts);
  status = failed;
  updated_at = later;
}

unfoldable pub fail : ℕ → ℕ → String → String → Map MatcherJobDocument → Map MatcherJobDocument
fail now later id message memory = elim (Map.get id memory) [
  | none ↦ memory
  | some job ↦ Map.set id (failure now later message job) memory
]

abbrev pub claimed : ℕ → MatcherJobDocument → MatcherJobDocument
claimed now job = record job { attempts = suc job.attempts; status = proving; updated_at = now }

-- The job to process and the memory with the job claimed, if it is queued.
unfoldable pub claim :
    ℕ → String → Map MatcherJobDocument → Option (MatcherJobDocument × Map MatcherJobDocument)
claim now id memory = elim (Map.get id memory) [
  | none ↦ none
  | some job ↦
      if is_queued job.status
      then some (claimed now job, Map.set id (claimed now job) memory)
      else none
]

abbrev pub remove : String → StringSet → StringSet
remove id ids = filter_by (λ j. not (id === j)) ids

-- The microtask of a job, up to the first `await`: a job that is not claimed leaves nothing to do.
unfoldable pub process : ℕ → String → Jobs → Jobs
unfolding claim
process now id s = elim (claim now id s.memory) [
  | none ↦ record s { ending = StringSet.add id s.ending }
  | some job ↦ record s { memory = job.1; running = StringSet.add id s.running }
]

-- The first microtask runs.
unfoldable pub start : ℕ → Jobs → Jobs
unfolding process
start now s = elim s.waiting [ [] ↦ s | id ∷ rest ↦ process now id (record s { waiting = rest }) ]

-- The processor of a job has answered, and its outcome is written.
unfoldable pub finish :
    {Input Transcript : Type 0}
    → Codec Input Transcript
    → ℕ
    → ℕ
    → String
    → Result Transcript
    → Jobs
    → Jobs
unfolding complete fail
finish codec now later id (ok transcript) s = record s {
  memory = complete codec now id transcript s.memory;
  running = remove id s.running;
  ending = StringSet.add id s.ending;
}
finish codec now later id (err message) s = record s {
  memory = fail now later id message s.memory;
  running = remove id s.running;
  ending = StringSet.add id s.ending;
}

-- `finally(() => this.active.delete(jobId))`
unfoldable pub leave : String → Jobs → Jobs
leave id s = record s { active = remove id s.active; ending = remove id s.ending }
