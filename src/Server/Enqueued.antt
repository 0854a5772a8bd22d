-- ===== src/Server/Enqueued.antt =====
-- src/server/server.c: what an answer and the creation of a job leave as it was.
use pcd.Prelude.{
  ℕ, ◌≡◌, refl, ap, ◌++◌, codes, decimal, Option, some, Bytes, length, leb, Bool-cases,
  Option-cases, inl, inr,
}
use pcd.Net.{Descriptor, write_all}
use pcd.Job.{JobType, job_table_create_job}
use pcd.Queue.{job_queue_push}
use pcd.Server.State.{
  ServerState, Surroundings, buffer_size, send_responsef, respond, push_job, enqueue_job,
  update_job, stored_at, id_at, enqueue_failed,
}
use pcd.Server.Framing.{set_connection_lem}

-- The files and what is still to be read from the connection.
pub record Kept (fd : ℕ) (state after : ServerState) : Type 0 where
  pub files : after.files ≡ state.files
  pub input : (after.connections fd).input ≡ (state.connections fd).input

respond-Kept : (state : ServerState) (fd : ℕ) (text : Bytes) → Kept fd state (respond state fd text)
unfolding send_responsef write_all
respond-Kept state fd text = elim (Bool-cases (leb buffer_size (length text))) [
  | inl long ↦ rw (respond, send_responsef, long) (record { files = refl; input = refl })
  | inr fits ↦
      let same = set_connection_lem state fd (write_all (state.connections fd) text).1 in
      rw (respond, send_responsef, fits)
        (record { files = refl; input = ap (λ (d : Descriptor). d.input) same })
]

push_job-Kept :
    (env : Surroundings) (state : ServerState) (fd p : ℕ) → Kept fd state (push_job env state fd p)
unfolding push_job
push_job-Kept env state fd p = elim (Bool-cases (job_queue_push env.node p state.queue).0) [
  | inl pushed ↦
      rw (push_job, pushed)
        (let kept =
            respond-Kept (record state { queue = (job_queue_push env.node p state.queue).1 }) fd
              (codes "JOB " ++ (decimal (id_at state.jobs p) ++ codes "\n")) in
          record { files = kept.files; input = kept.input })
  | inr full ↦
      rw (push_job, full)
        (let kept =
            respond-Kept
              (record state {
                queue = (job_queue_push env.node p state.queue).1;
                jobs = update_job state.jobs p (enqueue_failed env.now);
              })
              fd (codes "ERR cannot enqueue job\n") in
          record { files = kept.files; input = kept.input })
]

-- Neither the files nor what is still to be read changes, whatever becomes of the job.
pub enqueue_job-Kept :
    (env : Surroundings) (state : ServerState) (fd : ℕ) (addr_str : Bytes) (type : JobType)
    (payload input_path stored_path : Option Bytes)
    → Kept fd state (enqueue_job env state fd addr_str type payload input_path stored_path)
unfolding enqueue_job
enqueue_job-Kept env state fd addr_str type payload input_path stored_path =
    let created =
      job_table_create_job env.ready env.now state.jobs fd (some addr_str) type payload
        input_path in
    elim (Option-cases created.0) [
      | inl refused ↦
          rw (enqueue_job, refused) (respond-Kept state fd (codes "ERR cannot create job\n"))
      | inr (p, made) ↦
          let kept =
            push_job-Kept env
              (record state { jobs = update_job created.1 p (stored_at stored_path) }) fd p in
          rw (enqueue_job, made) (record { files = kept.files; input = kept.input })
    ]
