-- ===== src/Jobs/Fits.antt =====
-- What holds of one job of the matcher, and how the writes and the microtasks keep it
-- (server/src/workers/matcher/matcher-job.service.ts).
use pnlx.Base.{
  ℕ, ◌≡◌, ◌≢◌, ◌⊎◌, refl, sym, subst, Bool, true, false, ◌&&◌, ◌||◌, String, List, [], ◌∷◌, Option,
  some, arith, Option-cases, Bool-cases, inl, inr,
}
use pnlx.Base.Text.{◌===◌, ===_iff, ===_refl}
use pnlx.Base.Map
use pnlx.Base.Map.{Map, get-set, get-set_self, get-set_ne}
use pnlx.Base.StringSet
use pnlx.Base.StringSet.{StringSet, has-append, has-add}
use pnlx.Jobs.Service.{
  MatcherJobStatus, queued, proving, MatcherJobDocument, Jobs, status_in, new_job, requeued,
  is_retryable, put_job, kick, claimed, claim, process, leave,
}

-- What holds of one job: whether it is active, waits, runs and ends, and its status. An active job
-- does just one of the three.
pub record Fits (active waiting running ending : Bool) (status : Option MatcherJobStatus)
    : Type 0 where
  pub active_iff : active ≡ (waiting || running || ending)
  pub waiting_alone : (waiting && (running || ending)) ≡ false
  pub running_alone : (running && ending) ≡ false
  pub proving_runs : status ≡ some proving → running ≡ true
  pub running_proves : running ≡ true → status ≡ some proving

abbrev pub IsWellAt : String → Jobs → Type 0
IsWellAt id s =
    Fits (StringSet.has id s.active) (StringSet.has id s.waiting) (StringSet.has id s.running)
      (StringSet.has id s.ending) (status_in id s.memory)

pub put_job_other :
    (id text : String) (now : ℕ) (memory : Map MatcherJobDocument) (j : String)
    → j ≢ id
    → Map.get j (put_job id text now memory) ≡ Map.get j memory
unfolding put_job
put_job_other id text now memory j h = elim (Option-cases (Map.get id memory)) [
  | inl e ↦ ground (arith, e, get-set_ne id j (new_job id text now) memory h)
  | inr (job, e) ↦ ground (arith, e, get-set_ne id j (requeued now job) memory h)
]

-- The job keeps its status, or it becomes queued, and was not there or failed.
pub put_job_self :
    (id text : String) (now : ℕ) (memory : Map MatcherJobDocument)
    → (status_in id (put_job id text now memory) ≡ status_in id memory)
      ⊎ ((status_in id (put_job id text now memory) ≡ some queued)
          × (status_in id memory ≢ some proving))
unfolding put_job is_retryable
put_job_self id text now memory = elim (Option-cases (Map.get id memory)) [
  | inl e ↦ ground (arith, e, get-set_self id (new_job id text now) memory)
  | inr (job, e) ↦ ground (arith, e, get-set_self id (requeued now job) memory)
]

pub kick-memory : (id : String) (s : Jobs) → (kick id s).memory ≡ s.memory
unfolding kick
kick-memory id s = ground arith

pub leave-memory : (id : String) (s : Jobs) → (leave id s).memory ≡ s.memory
unfolding leave
leave-memory id s = refl

kick_self :
    (id : String) (s : Jobs) (memory : Map MatcherJobDocument)
    → IsWellAt id s
    → (status_in id memory ≡ status_in id s.memory)
      ⊎ ((status_in id memory ≡ some queued) × (status_in id s.memory ≢ some proving))
    → IsWellAt id (kick id (record s { memory = memory }))
unfolding kick StringSet.has
kick_self id s memory w self =
    ground (arith, w, self, ===_refl id, has-add id id s.active, has-append id s.waiting (id ∷ []))

pub kick_each :
    (id j : String) (s : Jobs) (memory : Map MatcherJobDocument)
    → IsWellAt j s
    → (j ≢ id → Map.get j memory ≡ Map.get j s.memory)
    → (status_in id memory ≡ status_in id s.memory)
      ⊎ ((status_in id memory ≡ some queued) × (status_in id s.memory ≢ some proving))
    → IsWellAt j (kick id (record s { memory = memory }))
unfolding kick StringSet.has
kick_each id j s memory w other self = elim (Bool-cases (j === id)) [
  | inl e ↦
      subst (λ k. IsWellAt k (kick id (record s { memory = memory }))) (sym ((===_iff j id).0 e))
        (kick_self id s memory (subst (λ k. IsWellAt k s) ((===_iff j id).0 e) w) self)
  | inr e ↦
      ground
        (arith, w, other, e, ===_iff j id, has-add j id s.active, has-append j s.waiting (id ∷ []))
]

pub process-each :
    (now : ℕ) (id : String) (rest : List String) (s : Jobs) (j : String)
    → Fits
        (StringSet.has j s.active)
        (j === id || StringSet.has j rest)
        (StringSet.has j s.running)
        (StringSet.has j s.ending)
        (status_in j s.memory)
    → StringSet.has id rest ≡ false
    → IsWellAt j (process now id (record s { waiting = rest }))
unfolding process claim
process-each now id rest s j w once = elim (Option-cases (Map.get id s.memory)) [
  | inl e ↦ ground (arith, w, e, once, has-add j id s.ending, ===_iff j id, ===_iff id j)
  | inr (job, e) ↦ ground (
    arith,
    w,
    e,
    once,
    has-add j id s.running,
    has-add j id s.ending,
    get-set id j (claimed now job) s.memory,
    ===_iff j id,
    ===_iff id j,
  )
]
