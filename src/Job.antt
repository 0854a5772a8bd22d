-- ===== src/Job.antt =====
-- src/server/job.c and include/job.h: the jobs of the server and the table that holds them. Each
-- operation runs under a mutex, so it is one step here; a job never leaves the table while the
-- server runs, so a pointer to it is its position. A C string is the list of its bytes before the
-- terminator. The average duration, a floating-point number, is not modelled.
pub mod Table
pub mod Report
pub mod Cancel
pub mod History
pub mod Recent
pub mod Fields
mod Examples
use pcd.Prelude.{
  ℕ, suc, ◌+◌, ◌≡◌, Bool, true, false, ◌||◌, ◌&&◌, Option, none, some, List, [], ◌∷◌, ◌++◌, Bytes,
  codes, length, get_elem?, set, ltb, ◌==◌, if◌then◌else◌, u64, snprintf, decimal,
}

-- `job_type_t`.
pub data JobType : Type 0 where
  unknown text validate_image analyze_capacity encode_text encode_file decode : JobType

-- `job_state_t`.
pub data JobState : Type 0 where
  queued running done failed canceled : JobState

-- `job_result_kind_t`.
pub data JobResultKind : Type 0 where
  no_result text_result file_result png_result : JobResultKind

-- `struct timespec`: seconds and nanoseconds.
abbrev pub Timespec : Type 0
Timespec = ℕ × ℕ

-- `job_t`.
pub record Job : Type 0 where
  pub id : ℕ
  pub owner_fd : ℕ
  pub type : JobType
  pub state : JobState
  pub cancel_requested : Bool
  pub payload : Bytes
  pub input_path : Bytes
  pub stored_path : Bytes
  pub output_path : Bytes
  pub result_filename : Bytes
  pub result_kind : JobResultKind
  pub result_size : ℕ
  pub result : Bytes
  pub owner_ip : Bytes
  pub created_at : Timespec
  pub started_at : Timespec
  pub finished_at : Timespec

-- `job_table_t`; `count` is the length of `jobs`.
pub record JobTable : Type 0 where
  pub jobs : List Job
  pub next_id : ℕ

abbrev pub max_jobs : ℕ
max_jobs = 1024

unfoldable pub job_table_init : JobTable
job_table_init = record { jobs = []; next_id = 1 }

unfoldable pub job_table_destroy : JobTable → JobTable
job_table_destroy table = record table { jobs = [] }

-- A string argument that may be the null pointer, copied into a zeroed buffer.
abbrev pub copied : ℕ → Option Bytes → Bytes
copied size none = []
copied size (some string) = snprintf size string

unfoldable pub new_job :
    ℕ → Timespec → ℕ → Option Bytes → JobType → Option Bytes → Option Bytes → Job
new_job id now owner_fd owner_ip type payload input_path = record {
  id = id;
  owner_fd = owner_fd;
  type = type;
  state = queued;
  cancel_requested = false;
  payload = copied 1024 payload;
  input_path = copied 512 input_path;
  stored_path = [];
  output_path = [];
  result_filename = [];
  result_kind = no_result;
  result_size = 0;
  result = [];
  owner_ip = copied 64 owner_ip;
  created_at = now;
  started_at = (0, 0);
  finished_at = (0, 0);
}

-- `ready`: the allocation and the new mutex succeed. The result is the new job's position.
unfoldable pub job_table_create_job :
    Bool
    → Timespec
    → JobTable
    → ℕ
    → Option Bytes
    → JobType
    → Option Bytes
    → Option Bytes
    → Option ℕ × JobTable
job_table_create_job ready now table owner_fd owner_ip type payload input_path =
    if ready && ltb (length table.jobs) max_jobs
    then (
      some (length table.jobs),
      record {
        jobs =
            table.jobs
            ++ (new_job table.next_id now owner_fd owner_ip type payload input_path ∷ []);
        next_id = u64 (table.next_id + 1);
      },
    )
    else (none, table)

-- The scan of `job_table_find` from position `i` on.
unfoldable pub find_from : ℕ → List Job → ℕ → Option ℕ
find_from i [] job_id = none
find_from i (job ∷ jobs) job_id =
    let rest = find_from (suc i) jobs job_id in if job.id == job_id then some i else rest

unfoldable pub job_table_find : JobTable → ℕ → Option ℕ
job_table_find table job_id = if job_id == 0 then none else find_from 0 table.jobs job_id

unfoldable pub job_state_to_string : JobState → Bytes
job_state_to_string queued = codes "QUEUED"
job_state_to_string running = codes "RUNNING"
job_state_to_string done = codes "DONE"
job_state_to_string failed = codes "FAILED"
job_state_to_string canceled = codes "CANCELED"

unfoldable pub job_type_to_string : JobType → Bytes
job_type_to_string text = codes "TEXT"
job_type_to_string validate_image = codes "VALIDATE_IMAGE"
job_type_to_string analyze_capacity = codes "ANALYZE_CAPACITY"
job_type_to_string encode_text = codes "ENCODE_TEXT"
job_type_to_string encode_file = codes "ENCODE_FILE"
job_type_to_string decode = codes "DECODE"
job_type_to_string unknown = codes "UNKNOWN"

unfoldable pub job_result_kind_to_string : JobResultKind → Bytes
job_result_kind_to_string text_result = codes "TEXT"
job_result_kind_to_string file_result = codes "FILE"
job_result_kind_to_string png_result = codes "PNG"
job_result_kind_to_string no_result = codes "NONE"

-- `state == QUEUED || state == RUNNING`.
unfoldable pub is_active : JobState → Bool
is_active queued = true
is_active running = true
is_active _ = false

unfoldable pub job_request_cancel : Job → Bool × Job
job_request_cancel job =
    if is_active job.state then (true, record job { cancel_requested = true }) else (false, job)

unfoldable pub job_set_state : Timespec → Job → JobState → Job
job_set_state now job queued = record job { state = queued }
job_set_state now job running = record job { state = running; started_at = now }
job_set_state now job done = record job { state = done; finished_at = now }
job_set_state now job failed = record job { state = failed; finished_at = now }
job_set_state now job canceled = record job { state = canceled; finished_at = now }

unfoldable pub job_set_result : Job → Bytes → Job
job_set_result job result = record job { result = snprintf 2048 result }

unfoldable pub job_set_stored_path : Job → Bytes → Job
job_set_stored_path job path = record job { stored_path = snprintf 512 path }

unfoldable pub job_set_output_path : Job → Bytes → Job
job_set_output_path job path = record job { output_path = snprintf 512 path }

unfoldable pub job_set_result_meta : Job → JobResultKind → ℕ → Option Bytes → Job
job_set_result_meta job kind size filename = record job {
  result_kind = kind;
  result_size = size;
  result_filename = copied 256 filename;
}
