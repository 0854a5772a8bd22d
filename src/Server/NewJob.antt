-- ===== src/Server/NewJob.antt =====
-- src/server/server.c: the job that `enqueue_job` puts into the table and the queue, when there is
-- room for it.
use pcd.Prelude.{
  ℕ, ◌+◌, ◌-◌, ◌%◌, ◌^◌, ◌≡◌, ◌<◌, refl, ap, sym, ◌∙◌, subst, arith, true, false, ◌&&◌, List, [],
  ◌∷◌, ◌++◌, codes, decimal, Option, none, some, Bytes, length, take, take_all, get_elem?, set, ltb,
  leb, Bool-cases, inl, inr,
}
use pcd.Job.{
  Job, JobTable, JobType, Timespec, queued, no_result, max_jobs, new_job, copied,
  job_table_create_job, job_set_stored_path,
}
use pcd.Queue.{JobQueue, job_queue_push}
use pcd.Queue.Refinement.{Fifo, fifo_push, Implements, Implements-job_queue_push}
use pcd.Server.State.{
  ServerState, Surroundings, buffer_size, send_responsef, respond, push_job, enqueue_job,
  update_job, stored_at, id_at,
}

respond-shared :
    (state : ServerState) (fd : ℕ) (text : Bytes)
    → ((respond state fd text).jobs ≡ state.jobs) × ((respond state fd text).queue ≡ state.queue)
unfolding send_responsef
respond-shared state fd text = elim (Bool-cases (leb buffer_size (length text))) [
  | inl long ↦ rw (respond, send_responsef, long) (refl, refl)
  | inr fits ↦ rw (respond, send_responsef, fits) (refl, refl)
]

-- There is room for a job in the table and in the queue, in which the jobs at `waiting` are: memory
-- for the job and for the node `a` is at hand, and the queue is not stopped.
pub record CanEnqueue (env : Surroundings) (table : JobTable) (queue : JobQueue) (a : ℕ)
    (waiting : List ℕ) : Type 0 where
  pub ready : env.ready ≡ true
  pub room : length table.jobs < max_jobs
  pub node : env.node ≡ some a
  pub free : queue.heap a ≡ none
  pub live : Implements queue (record { jobs = waiting; stopped = false })

-- A new job as its client asked for it.
abbrev pub asked_job : Timespec → JobTable → ℕ → Bytes → JobType → Bytes → Bytes → Bytes → Job
asked_job now table fd addr_str type payload input_path stored_path = record {
  id = table.next_id;
  owner_fd = fd;
  type = type;
  state = queued;
  cancel_requested = false;
  payload = payload;
  input_path = input_path;
  stored_path = stored_path;
  output_path = [];
  result_filename = [];
  result_kind = no_result;
  result_size = 0;
  result = [];
  owner_ip = take 63 addr_str;
  created_at = now;
  started_at = (0, 0);
  finished_at = (0, 0);
}

-- The table has one job more, the one that was asked for, and the queue has its position behind the
-- jobs that were waiting.
pub record Enqueued (table : JobTable) (waiting : List ℕ) (job : Job) (after : ServerState)
    : Type 0 where
  pub created :
      after.jobs
      ≡ record { jobs = table.jobs ++ (job ∷ []); next_id = (table.next_id + 1) % 2 ^ 64 }
  pub enqueued :
      Implements after.queue
        (record { jobs = waiting ++ (length table.jobs ∷ []); stopped = false })

get_elem?-append :
    (jobs : List Job) (job : Job) → get_elem? (jobs ++ (job ∷ [])) (length jobs) ≡ some job
get_elem?-append [] job = refl
get_elem?-append (j ∷ jobs) job = get_elem?-append jobs job

set-append :
    (jobs : List Job) (job other : Job)
    → set (jobs ++ (job ∷ [])) (length jobs) other ≡ jobs ++ (other ∷ [])
set-append [] job other = refl
set-append (j ∷ jobs) job other = ap (◌∷◌ j) (set-append jobs job other)

update_job-append :
    (jobs : List Job) (job : Job) (next_id : ℕ) (change : Job → Job)
    → update_job (record { jobs = jobs ++ (job ∷ []); next_id = next_id }) (length jobs) change
      ≡ record { jobs = jobs ++ (change job ∷ []); next_id = next_id }
update_job-append jobs job next_id change =
    rw (update_job, get_elem?-append jobs job)
      (ap (λ (l : List Job). record { jobs = l; next_id = next_id })
        (set-append jobs job (change job)))

push_job-Enqueued :
    (env : Surroundings) (state : ServerState) (fd p a : ℕ) (waiting : List ℕ)
    → env.node ≡ some a
    → state.queue.heap a ≡ none
    → Implements state.queue (record { jobs = waiting; stopped = false })
    → ((push_job env state fd p).jobs ≡ state.jobs)
      × Implements
          (push_job env state fd p).queue
          (record { jobs = waiting ++ (p ∷ []); stopped = false })
unfolding push_job fifo_push
push_job-Enqueued env state fd p a waiting node free live =
    let f : Fifo = record { jobs = waiting; stopped = false } in
    let (pushed, after) = Implements-job_queue_push state.queue f a p free live in
    let queue = (job_queue_push (some a) p state.queue).1 in
    let (jobs, same) =
      respond-shared (record state { queue = queue }) fd
        (codes "JOB " ++ (decimal (id_at state.jobs p) ++ codes "\n")) in
    rw (push_job, node, pushed)
      (
        jobs,
        subst
            (λ (q : JobQueue).
              Implements q (record { jobs = waiting ++ (p ∷ []); stopped = false }))
            (sym same) after,
      )

-- What a string argument leaves in a zeroed buffer that it fits.
abbrev pub text_of : Option Bytes → Bytes
text_of none = []
text_of (some string) = string

copied-text_of :
    (size : ℕ) (string : Option Bytes)
    → length (text_of string) < size
    → copied size string ≡ text_of string
copied-text_of size none fits = refl
copied-text_of size (some string) fits = take_all (size - 1) string (omega arith)

stored_at-text_of :
    (path : Option Bytes) (job : Job)
    → job.stored_path ≡ []
    → length (text_of path) < 512
    → stored_at path job ≡ record job { stored_path = text_of path }
unfolding job_set_stored_path
stored_at-text_of none job blank fits = ap (λ (t : Bytes). record job { stored_path = t }) blank
stored_at-text_of (some path) job blank fits =
    ap (λ (t : Bytes). record job { stored_path = t }) (take_all 511 path (omega arith))

module _ (env : Surroundings) (state : ServerState) (fd : ℕ) (addr_str : Bytes) (type : JobType)
    (payload input_path stored_path : Option Bytes) where
  create_job_made :
      env.ready ≡ true
      → length state.jobs.jobs < max_jobs
      → job_table_create_job env.ready env.now state.jobs fd (some addr_str) type payload input_path
        ≡ (
          some (length state.jobs.jobs),
          record {
            jobs =
                state.jobs.jobs
                ++ (new_job state.jobs.next_id env.now fd (some addr_str) type payload input_path
                    ∷ []);
            next_id = (state.jobs.next_id + 1) % 2 ^ 64;
          },
        )
  unfolding job_table_create_job
  create_job_made ready room =
      let test : (env.ready && ltb (length state.jobs.jobs) max_jobs) ≡ true =
        ground (arith, ready, room) in
      rw (job_table_create_job, test) refl

  new_job-asked_job :
      length (text_of payload) < 1024
      → length (text_of input_path) < 512
      → length (text_of stored_path) < 512
      → stored_at stored_path
          (new_job state.jobs.next_id env.now fd (some addr_str) type payload input_path)
        ≡ asked_job env.now state.jobs fd addr_str type
            (text_of payload)
            (text_of input_path)
            (text_of stored_path)
  unfolding new_job
  new_job-asked_job short_payload short_input short_stored =
      stored_at-text_of stored_path
        (new_job state.jobs.next_id env.now fd (some addr_str) type payload input_path) refl
        short_stored
      ∙ ap
          (λ (t : Bytes).
            asked_job env.now state.jobs fd addr_str type t (copied 512 input_path)
              (text_of stored_path))
          (copied-text_of 1024 payload short_payload)
      ∙ ap
          (λ (t : Bytes).
            asked_job env.now state.jobs fd addr_str type (text_of payload) t (text_of stored_path))
          (copied-text_of 512 input_path short_input)

  -- Where there is room, the job that was asked for is in the table and in the queue.
  pub enqueue_job-Enqueued :
      (a : ℕ) (waiting : List ℕ)
      → CanEnqueue env state.jobs state.queue a waiting
      → length (text_of payload) < 1024
      → length (text_of input_path) < 512
      → length (text_of stored_path) < 512
      → Enqueued state.jobs waiting
          (asked_job env.now state.jobs fd addr_str type
            (text_of payload)
            (text_of input_path)
            (text_of stored_path))
          (enqueue_job env state fd addr_str type payload input_path stored_path)
  unfolding enqueue_job
  enqueue_job-Enqueued a waiting can short_payload short_input short_stored =
      let p = length state.jobs.jobs in
      let made = new_job state.jobs.next_id env.now fd (some addr_str) type payload input_path in
      let table : Job → JobTable = λ job. record {
        jobs = state.jobs.jobs ++ (job ∷ []);
        next_id = (state.jobs.next_id + 1) % 2 ^ 64;
      } in
      let next : Option ℕ × JobTable → ServerState = λ created. elim created.0 [
        | none ↦ respond state fd (codes "ERR cannot create job\n")
        | some q ↦
            push_job env (record state { jobs = update_job created.1 q (stored_at stored_path) }) fd
              q
      ] in
      let pushed : enqueue_job env state fd addr_str type payload input_path stored_path
          ≡ push_job env (record state { jobs = table (stored_at stored_path made) }) fd p =
        ap next (create_job_made can.ready can.room)
        ∙ ap (λ (t : JobTable). push_job env (record state { jobs = t }) fd p)
            (update_job-append state.jobs.jobs made ((state.jobs.next_id + 1) % 2 ^ 64)
              (stored_at stored_path)) in
      let (jobs, queue) =
        push_job-Enqueued env (record state { jobs = table (stored_at stored_path made) }) fd p a
          waiting can.node can.free can.live in
      record {
        created =
            ap (λ (after : ServerState). after.jobs) pushed
            ∙ jobs
            ∙ ap table (new_job-asked_job short_payload short_input short_stored);
        enqueued =
            subst
              (λ (after : ServerState).
                Implements after.queue (record { jobs = waiting ++ (p ∷ []); stopped = false }))
              (sym pushed) queue;
      }

-- The same for a state that has the table and the queue of an earlier one, such as the state behind
-- an upload.
pub enqueue_job-Enqueued_behind :
    (env : Surroundings) (before state after : ServerState) (fd : ℕ) (addr_str : Bytes)
    (type : JobType) (payload input_path stored_path : Option Bytes) (a : ℕ) (waiting : List ℕ)
    → after ≡ enqueue_job env state fd addr_str type payload input_path stored_path
    → state.jobs ≡ before.jobs
    → state.queue ≡ before.queue
    → CanEnqueue env before.jobs before.queue a waiting
    → length (text_of payload) < 1024
    → length (text_of input_path) < 512
    → length (text_of stored_path) < 512
    → Enqueued before.jobs waiting
        (asked_job env.now before.jobs fd addr_str type
          (text_of payload)
          (text_of input_path)
          (text_of stored_path))
        after
enqueue_job-Enqueued_behind env before state after fd addr_str type payload input_path stored_path a
      waiting reached jobs queue can short_payload short_input short_stored =
    let can_here : CanEnqueue env state.jobs state.queue a waiting =
      subst (λ (t : JobTable). CanEnqueue env t state.queue a waiting) (sym jobs)
        (subst (λ (q : JobQueue). CanEnqueue env before.jobs q a waiting) (sym queue) can) in
    let enqueued : JobTable → ServerState → Type 0 = λ table end.
      Enqueued table waiting
        (asked_job env.now table fd addr_str type (text_of payload) (text_of input_path)
          (text_of stored_path))
        end in
    subst (enqueued before.jobs) (sym reached) (
      subst
        (λ (t : JobTable).
          enqueued t (enqueue_job env state fd addr_str type payload input_path stored_path))
        jobs
        (enqueue_job-Enqueued env state fd addr_str type payload input_path stored_path a waiting
          can_here short_payload short_input short_stored))
