-- ===== src/Worker/Thread.antt =====
-- src/server/worker.c: the loop of `worker_main` over the queue and the table of jobs. A job in the
-- queue is its position in the table.
use pcd.Prelude.{
  ℕ, zero, suc, ◌≡◌, refl, ap, subst, Bool, true, false, none, some, List, [], ◌∷◌, ◌++◌, get_elem?,
  set, ◌⊎◌, inl, inr, Option-cases,
}
use pcd.Job.{Job, JobTable}
use pcd.Job.Table.{IsValid, IsValid-set}
use pcd.Queue.{JobQueue, Popped, blocked, null, job_at, job_queue_pop}
use pcd.Queue.Refinement.{Implements, Fifo, fifo_pop, Implements-job_queue_pop}
use pcd.Storage.{Files}
use pcd.Worker.{WorkerEvent, Setting, event_of, run_job}
use pcd.Worker.Outcome.{IsOver, run_job-IsOver}

-- What the threads of the server share.
pub record Shared : Type 0 where
  pub queue : JobQueue
  pub table : JobTable
  pub files : Files
  pub events : List WorkerEvent

pub data Round : Type 0 where
  stopped waiting : Round
  worked : Shared → Round

module _ (s : Setting) where
  -- The job at a position runs and an event is written.
  unfoldable pub work_at : (ℕ → Bool) → Shared → JobQueue → ℕ → Job → Shared
  work_at requests shared queue p job =
      let (after, files) = run_job s requests shared.files job in
      record {
        queue = queue;
        table = record shared.table { jobs = set shared.table.jobs p after };
        files = files;
        events = shared.events ++ (event_of s after ∷ []);
      }

  -- One round of the loop: `is_running` is the flag of the server. A null pointer ends the thread.
  unfoldable pub worker_round : Bool → (ℕ → Bool) → Shared → Round
  worker_round false requests shared = stopped
  worker_round true requests shared = elim (job_queue_pop shared.queue).0 [
    | null ↦ stopped
    | blocked ↦ waiting
    | job_at p ↦ elim (get_elem? shared.table.jobs p) [
      | none ↦ stopped
      | some job ↦ worked (work_at requests shared (job_queue_pop shared.queue).1 p job)
    ]
  ]

get_elem?-set :
    (jobs : List Job) (p : ℕ) (job after : Job)
    → get_elem? jobs p ≡ some job
    → get_elem? (set jobs p after) p ≡ some after
get_elem?-set [] p job after e = cc
get_elem?-set (j ∷ jobs) zero job after e = refl
get_elem?-set (j ∷ jobs) (suc p) job after e = get_elem?-set jobs p job after e

-- While the server runs, a round of a worker on a queue that is neither empty nor stopped takes the
-- oldest job, which is in the valid table, and brings it to its end: the job is done, failed or
-- canceled, and keeps its number, its owner's descriptor and address, its type, its payload, the
-- paths it was given and the time of its creation; the queue keeps the others in their order, the
-- table is the one before with this job replaced and stays valid, and one event is written, with
-- the job's number and state.
pub worker_round_lem :
    (s : Setting) (requests : ℕ → Bool) (shared : Shared) (p : ℕ) (rest : List ℕ) (job : Job)
    → Implements shared.queue (record { jobs = p ∷ rest; stopped = false })
    → IsValid shared.table
    → get_elem? shared.table.jobs p ≡ some job
    → (after : Shared) × (job' : Job) × (worker_round s true requests shared ≡ worked after)
      × (get_elem? after.table.jobs p ≡ some job')
      × (after.table ≡ record shared.table { jobs = set shared.table.jobs p job' })
      × IsOver job job'
      × Implements after.queue (record { jobs = rest; stopped = false })
      × IsValid after.table
      × (after.events ≡ shared.events ++ (record { job_id = job.id; state = job'.state } ∷ []))
unfolding worker_round work_at fifo_pop
worker_round_lem s requests shared p rest job implements valid found =
    let f : Fifo = record { jobs = p ∷ rest; stopped = false } in
    let (taken, left) = Implements-job_queue_pop shared.queue f implements in
    let job' = (run_job s requests shared.files job).0 in
    let ended = run_job-IsOver s requests shared.files job in
    let queue = (job_queue_pop shared.queue).1 in
    let after = work_at s requests shared queue p job in
    (
      after,
      job',
      rw (worker_round, taken, found) refl,
      get_elem?-set shared.table.jobs p job job' found,
      refl,
      ended,
      left,
      IsValid-set shared.table p job job' valid found ended.id,
      ap (λ (id : ℕ). shared.events ++ (record { job_id = id; state = job'.state } ∷ [])) ended.id,
    )

abbrev ValidIf : Round → Type 0
ValidIf stopped = Unit
ValidIf waiting = Unit
ValidIf (worked after) = IsValid after.table

Popped-cases :
    (popped : Popped) → (popped ≡ null) ⊎ ((popped ≡ blocked) ⊎ ((p : ℕ) × (popped ≡ job_at p)))
Popped-cases null = inl refl
Popped-cases blocked = inr (inl refl)
Popped-cases (job_at p) = inr (inr (p, refl))

ValidIf-worker_round :
    (s : Setting) (is_running : Bool) (requests : ℕ → Bool) (shared : Shared)
    → IsValid shared.table
    → ValidIf (worker_round s is_running requests shared)
unfolding worker_round work_at
ValidIf-worker_round s false requests shared valid = tt
ValidIf-worker_round s true requests shared valid =
    elim (Popped-cases (job_queue_pop shared.queue).0) [
      | inl ended ↦ rw (worker_round, ended) tt
      | inr (inl nothing) ↦ rw (worker_round, nothing) tt
      | inr (inr (p, taken)) ↦ elim (Option-cases (get_elem? shared.table.jobs p)) [
        | inl missing ↦ rw (worker_round, taken, missing) tt
        | inr (job, found) ↦
            rw (worker_round, taken, found)
              (IsValid-set shared.table p job _ valid found
                (run_job-IsOver s requests shared.files job).id)
      ]
    ]

-- A round of a worker keeps the table valid, whatever it takes from the queue.
pub worker_round-IsValid :
    (s : Setting) (is_running : Bool) (requests : ℕ → Bool) (shared after : Shared)
    → IsValid shared.table
    → worker_round s is_running requests shared ≡ worked after
    → IsValid after.table
worker_round-IsValid s is_running requests shared after valid e =
    subst ValidIf e (ValidIf-worker_round s is_running requests shared valid)
