-- ===== src/Jobs/Invariant.antt =====
-- What holds of the matcher's jobs whenever the service waits
-- (server/src/workers/matcher/matcher-job.service.ts).
use pnlx.Base.{ℕ, ◌≡◌, refl, sym, subst, true, String, List, [], ◌∷◌, arith, Option-cases, inl, inr}
use pnlx.Base.Text.{===_iff}
use pnlx.Base.Result.{Result, ok, err}
use pnlx.Base.Map
use pnlx.Base.Map.{Map, get-set, get-set_self, get-set_ne}
use pnlx.Base.StringSet
use pnlx.Base.StringSet.{StringSet, has-append, has-add}
use pnlx.Jobs.Service.{
  Codec, Jobs, no_jobs, status_in, is_retryable, put_job, kick, enqueued, matcher_job_id,
  completion, complete, failure, fail, process, start, finish, leave,
}
use pnlx.Base.Entries.{Distinct, Distinct-append}
use pnlx.Jobs.Sets.{has-remove}
use pnlx.Jobs.Steps.{Step, request, microtask, answer, departure, Reach, here, next}
use pnlx.Jobs.Fits.{Fits, IsWellAt, put_job_other, put_job_self, kick_each, process-each}

pub record IsWell (s : Jobs) : Type 0 where
  pub once : Distinct s.waiting
  pub each : (id : String) → IsWellAt id s

module _ {Input Transcript : Type 0} (codec : Codec Input Transcript) where
  enqueued-once :
      (now : ℕ) (input : Input) (s : Jobs)
      → IsWell s
      → Distinct (enqueued codec now input s).waiting
  unfolding enqueued kick
  enqueued-once now input s w = ground (
    arith,
    w.once,
    w.each (matcher_job_id codec input),
    Distinct-append s.waiting (matcher_job_id codec input) w.once,
  )

  enqueued-each :
      (now : ℕ) (input : Input) (s : Jobs) (j : String)
      → IsWellAt j s
      → IsWellAt j (enqueued codec now input s)
  unfolding enqueued kick put_job is_retryable StringSet.has
  enqueued-each now input s j w =
      let id = matcher_job_id codec input in
      let text = codec.encode_input input in
      kick_each id j s (put_job id text now s.memory) w (put_job_other id text now s.memory j)
        (put_job_self id text now s.memory)

pub start_idle : (now : ℕ) (s : Jobs) → s.waiting ≡ [] → start now s ≡ s
unfolding start
start_idle now s e = ground (arith, e)

pub start_first :
    (now : ℕ) (s : Jobs) (id : String) (rest : List String)
    → s.waiting ≡ id ∷ rest
    → start now s ≡ process now id (record s { waiting = rest })
unfolding start
start_first now s id rest e = rw (e, start) refl

pub process-waiting : (now : ℕ) (id : String) (s : Jobs) → (process now id s).waiting ≡ s.waiting
unfolding process
process-waiting now id s = ground arith

start-from :
    (now : ℕ) (s : Jobs) (ids : List String) → s.waiting ≡ ids → IsWell s → IsWell (start now s)
unfolding StringSet.has
start-from now s [] e w = subst IsWell (sym (start_idle now s e)) w
start-from now s (id ∷ rest) e w =
    let once = subst Distinct e w.once in
    subst IsWell (sym (start_first now s id rest e)) (record {
      once = subst Distinct (sym (process-waiting now id (record s { waiting = rest }))) once.1;
      each = λ j.
          process-each now id rest s j
            (subst
              (λ ids.
                Fits (StringSet.has j s.active) (StringSet.has j ids) (StringSet.has j s.running)
                  (StringSet.has j s.ending) (status_in j s.memory))
              e (w.each j))
            once.0;
    })

pub start-IsWell : (now : ℕ) (s : Jobs) → IsWell s → IsWell (start now s)
start-IsWell now s = start-from now s s.waiting refl

module _ {Input Transcript : Type 0} (codec : Codec Input Transcript) where
  finish-each :
      (now later : ℕ) (id : String) (outcome : Result Transcript) (s : Jobs) (j : String)
      → StringSet.has id s.running ≡ true
      → IsWellAt j s
      → IsWellAt j (finish codec now later id outcome s)
  unfolding finish complete fail
  finish-each now later id (ok transcript) s j r w = elim (Option-cases (Map.get id s.memory)) [
    | inl e ↦ ground (
      arith,
      e,
      r,
      w,
      has-remove j id s.running,
      has-add j id s.ending,
      ===_iff j id,
      ===_iff id j,
    )
    | inr (job, e) ↦ ground (
      arith,
      e,
      r,
      w,
      has-remove j id s.running,
      has-add j id s.ending,
      get-set id j (completion codec now transcript job) s.memory,
      ===_iff j id,
      ===_iff id j,
    )
  ]
  finish-each now later id (err message) s j r w = elim (Option-cases (Map.get id s.memory)) [
    | inl e ↦ ground (
      arith,
      e,
      r,
      w,
      has-remove j id s.running,
      has-add j id s.ending,
      ===_iff j id,
      ===_iff id j,
    )
    | inr (job, e) ↦ ground (
      arith,
      e,
      r,
      w,
      has-remove j id s.running,
      has-add j id s.ending,
      get-set id j (failure now later message job) s.memory,
      ===_iff j id,
      ===_iff id j,
    )
  ]

  finish-once :
      (now later : ℕ) (id : String) (outcome : Result Transcript) (s : Jobs)
      → (finish codec now later id outcome s).waiting ≡ s.waiting
  unfolding finish
  finish-once now later id (ok transcript) s = refl
  finish-once now later id (err message) s = refl

  leave-each :
      (id : String) (s : Jobs) (j : String)
      → StringSet.has id s.ending ≡ true
      → IsWellAt j s
      → IsWellAt j (leave id s)
  unfolding leave
  leave-each id s j e w =
      ground (
        arith,
        e,
        w,
        has-remove j id s.active,
        has-remove j id s.ending,
        ===_iff j id,
        ===_iff id j,
      )

  leave-once : (id : String) (s : Jobs) → (leave id s).waiting ≡ s.waiting
  unfolding leave
  leave-once id s = refl

  pub Step-IsWell : {s t : Jobs} → Step codec s t → IsWell s → IsWell t
  Step-IsWell (request s now input) w = record {
    once = enqueued-once codec now input s w;
    each = λ j. enqueued-each codec now input s j (w.each j);
  }
  Step-IsWell (microtask s now) w = start-IsWell now s w
  Step-IsWell (answer s now later id outcome r) w = record {
    once = rw (finish-once now later id outcome s) w.once;
    each = λ j. finish-each now later id outcome s j r (w.each j);
  }
  Step-IsWell (departure s id e) w = record {
    once = rw (leave-once id s) w.once;
    each = λ j. leave-each id s j e (w.each j);
  }

  no_jobs-IsWell : IsWell no_jobs
  unfolding StringSet.has Map.get
  no_jobs-IsWell = record {
    once = tt;
    each = λ id. record {
      active_iff = refl;
      waiting_alone = refl;
      running_alone = refl;
      proving_runs = λ h. cc;
      running_proves = λ h. cc;
    };
  }

  -- Whatever requests, microtasks, answers and ends of processes come, in any order: the active jobs
  -- are those that wait, run or end, each of which does just one of the three; a job that is being
  -- proved has a running process and only such a job has one; and no job waits twice.
  pub Reach-IsWell : {s : Jobs} → Reach codec no_jobs s → IsWell s
  Reach-IsWell here = no_jobs-IsWell
  Reach-IsWell (next r step) = Step-IsWell step (Reach-IsWell r)
