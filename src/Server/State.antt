-- ===== src/Server/State.antt =====
-- src/server/server.c: the state of the server, its answers, and how it takes files and jobs from a
-- client. What the handlers return is left out where their caller ignores it, and so are log lines.
use pcd.Prelude.{
  ℕ, Bool, true, false, not, ◌||◌, Option, none, some, List, [], ◌++◌, Bytes, codes, length,
  get_elem?, set, ltb, leb, ◌==◌, if◌then◌else◌, decimal,
}
use pcd.Net.{Descriptor, write_all}
use pcd.Job.{
  Job, JobTable, JobType, Timespec, failed, job_table_create_job, job_table_find,
  job_set_stored_path, job_set_result, job_set_state,
}
use pcd.Queue.{JobQueue, job_queue_push}
use pcd.Storage.{
  StorageDirs, Disk, Files, put_file, storage_make_upload_path, storage_receive_to_file,
  max_job_path,
}
use pcd.Server.Clients.{ClientSession, close_client}

-- `server_state_t` with the sessions, the connection of each descriptor, and the files.
pub record ServerState : Type 0 where
  pub jobs : JobTable
  pub queue : JobQueue
  pub blocklist : List Bytes
  pub clients : List ClientSession
  pub connections : ℕ → Descriptor
  pub files : Files

-- What the server finds around it during a call: the configured limit, the disk, the directories,
-- the clock, whether a job can be allocated, and the address of a new node of the queue. The texts
-- of floating-point numbers are functions of the table and of the times.
pub record Surroundings : Type 0 where
  pub max_upload_bytes : ℕ
  pub disk : Disk
  pub dirs : StorageDirs
  pub now : Timespec
  pub ready : Bool
  pub node : Option ℕ
  pub average_ms : ℕ → JobTable → Bytes
  pub duration : Timespec → Timespec → Bytes

abbrev pub buffer_size : ℕ
buffer_size = 4096

abbrev pub set_connection : ServerState → ℕ → Descriptor → ServerState
set_connection state fd connection = record state {
  connections = λ other. if other == fd then connection else state.connections other;
}

abbrev pub is_some {ℓ} : {A : Type ℓ} → Option A → Bool
is_some none = false
is_some (some a) = true

-- A text that does not fit the buffer is not sent.
unfoldable pub send_responsef : ServerState → ℕ → Bytes → Bool × ServerState
send_responsef state fd text =
    let (written, connection) = write_all (state.connections fd) text in
    if leb buffer_size (length text)
    then (false, state)
    else (is_some written, set_connection state fd connection)

-- An answer whose success is not looked at.
abbrev pub respond : ServerState → ℕ → Bytes → ServerState
respond state fd text = (send_responsef state fd text).1

abbrev pub update_job : JobTable → ℕ → (Job → Job) → JobTable
update_job table p change = elim (get_elem? table.jobs p) [
  | none ↦ table
  | some job ↦ record table { jobs = set table.jobs p (change job) }
]

abbrev pub id_at : JobTable → ℕ → ℕ
id_at table p = elim (get_elem? table.jobs p) [ none ↦ 0 | some job ↦ job.id ]

-- `close_client` on a slot.
abbrev pub close_slot : ServerState → ℕ → ServerState
close_slot state slot = elim (get_elem? state.clients slot) [
  | none ↦ state
  | some client ↦ record state { clients = set state.clients slot (close_client client) }
]

abbrev pub enqueue_failed : Timespec → Job → Job
enqueue_failed now job = job_set_state now (job_set_result job (codes "enqueue failed")) failed

abbrev pub stored_at : Option Bytes → Job → Job
stored_at none job = job
stored_at (some path) job = job_set_stored_path job path

module _ (env : Surroundings) where
  -- `enqueue_job` once the job is in the table, at a position.
  unfoldable pub push_job : ServerState → ℕ → ℕ → ServerState
  push_job state fd p =
      let (pushed, queue) = job_queue_push env.node p state.queue in
      let queued = record state { queue = queue } in
      if pushed
      then respond queued fd (codes "JOB " ++ (decimal (id_at state.jobs p) ++ codes "\n"))
      else respond (record queued { jobs = update_job state.jobs p (enqueue_failed env.now) }) fd
          (codes "ERR cannot enqueue job\n")

  -- `addr_str` is the address of the session.
  unfoldable pub enqueue_job :
      ServerState → ℕ → Bytes → JobType → Option Bytes → Option Bytes → Option Bytes → ServerState
  unfolding push_job
  enqueue_job state fd addr_str type payload input_path stored_path =
      let created =
        job_table_create_job env.ready env.now state.jobs fd (some addr_str) type payload
          input_path in
      elim created.0 [
        | none ↦ respond state fd (codes "ERR cannot create job\n")
        | some p ↦
            push_job (record state { jobs = update_job created.1 p (stored_at stored_path) }) fd p
      ]

  -- The path of the upload; `none` for -1.
  unfoldable pub receive_png_to_upload : ServerState → ℕ → ℕ → Option Bytes × ServerState
  receive_png_to_upload state fd png_size =
      if (png_size == 0) || ltb env.max_upload_bytes png_size
      then (none, respond state fd (codes "ERR invalid png size\n"))
      else elim (storage_make_upload_path env.dirs state.jobs.next_id (codes "png") max_job_path) [
        | none ↦ (none, respond state fd (codes "ERR path build failed\n"))
        | some out_path ↦
            let (received, (connection, files)) =
              storage_receive_to_file env.disk out_path (state.connections fd) state.files
                png_size in
            let after = record (set_connection state fd connection) { files = files } in
            if received
            then (some out_path, after)
            else (none, respond after fd (codes "ERR upload failed\n"))
      ]

  -- A file of no bytes is created.
  abbrev pub create_empty : ServerState → ℕ → Bytes → Option Bytes × ServerState
  create_empty state fd out_path =
      let created = record state { files = put_file state.files out_path (some []) } in
      if not (env.disk.can_open out_path)
      then (none, respond state fd (codes "ERR cannot create file\n"))
      else if not (env.disk.can_close out_path)
      then (none, respond created fd (codes "ERR cannot close file\n"))
      else (some out_path, created)

  unfoldable pub receive_extra_to_file :
      ServerState → ℕ → ℕ → ℕ → Bytes → ℕ → Bytes → Option Bytes × ServerState
  receive_extra_to_file state fd size limit label job_seq suffix =
      if ltb limit size
      then (none, respond state fd (codes "ERR " ++ (label ++ codes " too large\n")))
      else elim (storage_make_upload_path env.dirs job_seq suffix max_job_path) [
        | none ↦ (none, respond state fd (codes "ERR path build failed\n"))
        | some out_path ↦
            let (received, (connection, files)) =
              storage_receive_to_file env.disk out_path (state.connections fd) state.files size in
            let after = record (set_connection state fd connection) { files = files } in
            if size == 0
            then create_empty state fd out_path
            else if received
            then (some out_path, after)
            else (none, respond after fd (codes "ERR " ++ (label ++ codes " receive failed\n")))
      ]

-- What a command does with the job it names, at its position in the table.
abbrev pub with_job : ServerState → ℕ → ℕ → (ℕ → Job → ServerState) → ServerState
with_job state fd job_id next = elim (job_table_find state.jobs job_id) [
  | none ↦ respond state fd (codes "ERR job not found\n")
  | some p ↦ elim (get_elem? state.jobs.jobs p) [ none ↦ state | some job ↦ next p job ]
]
