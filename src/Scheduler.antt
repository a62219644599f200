-- ===== src/Scheduler.antt =====
-- src/derived-state-scheduler.js: background jobs, at most `maxConcurrent` of them at a time. What
-- a job's function does is outside of the model: that it returned or threw is part of the event.
pub mod Invariant
use objy.Common.{
  ℕ, ◌+◌, ltb, ◌==◌, Bool, true, false, not, ◌&&◌, Option, none, some, List, [], ◌∷◌, ◌++◌,
  if◌then◌else◌, length, filter_by, any, map,
}
use objy.Common.Text.{Text, text_eq}

pub record Job : Type 0 where
  pub id : ℕ
  pub name : Text
  pub owner : Option Text
  pub cancelled : Bool

-- how the promise of a job was settled
pub data Outcome : Type 0 where
  nothing returned threw closed_error : Outcome

-- the scheduler, with the settled promises in order
pub record Scheduler : Type 0 where
  pub max_concurrent : ℕ
  pub queue : List Job
  pub active : List Job
  pub completed : ℕ
  pub failed : ℕ
  pub closed : Bool
  pub settled : List (ℕ × Outcome)

-- positiveInt(value, fallback) on integers
unfoldable pub positive_int : Option ℕ → ℕ → ℕ
positive_int none fallback = fallback
positive_int (some n) fallback = if ltb 0 n then n else fallback

unfoldable pub make_scheduler : Option ℕ → Scheduler
unfolding positive_int
make_scheduler max = record {
  max_concurrent = positive_int max 1;
  queue = [];
  active = [];
  completed = 0;
  failed = 0;
  closed = false;
  settled = [];
}

-- the loop of _drain while the scheduler is open
unfoldable pub drain_from : ℕ → List Job → List Job → List Job × List Job
drain_from max [] active = ([], active)
drain_from max (job ∷ queue) active =
    let next = drain_from max queue (active ++ (job ∷ [])) in
    if ltb (length active) max then next else (job ∷ queue, active)

-- _drain()
unfoldable pub drain : Scheduler → Scheduler
unfolding drain_from
drain s =
    let (queue, active) = drain_from s.max_concurrent s.queue s.active in
    if s.closed then s else record s { queue = queue; active = active }

-- schedule(name, run, { owner })
unfoldable pub schedule : Job → Scheduler → Scheduler
unfolding drain
schedule job s =
    if s.closed
    then record s { settled = s.settled ++ ((job.id, closed_error) ∷ []) }
    else drain (record s { queue = s.queue ++ (job ∷ []) })

abbrev pub owned_by : Text → Job → Bool
owned_by owner job = owned job.owner
  where
    owned : Option Text → Bool
    owned none = false
    owned (some o) = text_eq o owner

unfoldable pub settle_all : Outcome → List Job → List (ℕ × Outcome)
settle_all outcome jobs = map (λ job. (job.id, outcome)) jobs

-- the loop of cancel over the active jobs
unfoldable pub cancel_job : Text → Job → Job
cancel_job owner job = if owned_by owner job then record job { cancelled = true } else job

-- cancel(owner): how many were cancelled, and the scheduler
unfoldable pub cancel : Option Text → Scheduler → ℕ × Scheduler
unfolding settle_all cancel_job
cancel none s = (0, s)
cancel (some owner) s =
    let dropped = filter_by (owned_by owner) s.queue in
    let running = filter_by (λ job. owned_by owner job && not job.cancelled) s.active in
    (
      length dropped + length running,
      record s {
        queue = filter_by (λ job. not (owned_by owner job)) s.queue;
        active = map (cancel_job owner) s.active;
        settled = s.settled ++ settle_all nothing dropped;
      },
    )

-- close()
unfoldable pub close : Scheduler → Scheduler
unfolding settle_all
close s = record s {
  closed = true;
  queue = [];
  settled = s.settled ++ settle_all closed_error s.queue;
}

-- `this.active.delete(job)`
unfoldable pub remove_job : ℕ → List Job → List Job
remove_job id [] = []
remove_job id (job ∷ jobs) =
    let rest = remove_job id jobs in if job.id == id then jobs else job ∷ rest

unfoldable pub is_active : ℕ → Scheduler → Bool
is_active id s = any (λ job. job.id == id) s.active

-- the end of _run, once the job has an outcome
abbrev pub failures : Outcome → ℕ
failures threw = 1
failures _ = 0

abbrev pub completions : Outcome → ℕ
completions threw = 0
completions _ = 1

unfoldable pub finish : ℕ → Outcome → Scheduler → Scheduler
unfolding remove_job is_active drain
finish id outcome s =
    if not (is_active id s)
    then s
    else drain (record s {
      active = remove_job id s.active;
      completed = s.completed + completions outcome;
      failed = s.failed + failures outcome;
      settled = s.settled ++ ((id, outcome) ∷ []);
    })

-- _run after its first `await`: a job cancelled by then is not run
unfoldable pub wake : ℕ → Scheduler → Scheduler
unfolding finish
wake id s = if any (λ job. (job.id == id) && job.cancelled) s.active then finish id nothing s else s
