-- ===== src/Job/Fields.antt =====
-- The functions of src/server/job.c that read a field of a job; the argument may be the null
-- pointer.
use pcd.Prelude.{
  ℕ, ◌<◌, ◌-◌, ◌≡◌, refl, arith, Bool, true, false, Option, none, some, Bytes, length, take_all,
  ◌==◌, if◌then◌else◌, snprintf,
}
use pcd.Job.{Job, JobState, JobType, JobResultKind, failed, job_set_result_meta}

unfoldable pub job_get_state : Option Job → JobState
job_get_state none = failed
job_get_state (some job) = job.state

unfoldable pub job_is_cancel_requested : Option Job → Bool
job_is_cancel_requested none = true
job_is_cancel_requested (some job) = job.cancel_requested

-- `none` for -1.
unfoldable pub job_get_owner_fd : Option Job → Option ℕ
job_get_owner_fd none = none
job_get_owner_fd (some job) = some job.owner_fd

unfoldable pub job_get_type : Option Job → JobType
job_get_type none = JobType.unknown
job_get_type (some job) = job.type

-- The kind, the size, and the name when the buffer has room; `none` leaves all of them as they
-- were.
unfoldable pub job_get_result_meta : Option Job → ℕ → Option (JobResultKind × (ℕ × Option Bytes))
job_get_result_meta none filename_size = none
job_get_result_meta (some job) filename_size =
    let filename : Option Bytes =
      if filename_size == 0 then none else some (snprintf filename_size job.result_filename) in
    some (job.result_kind, (job.result_size, filename))

-- The kind, the size and the name that are stored are read back, for a name below 256 bytes and a
-- buffer that has room for it.
pub job_get_result_meta-job_set_result_meta :
    (job : Job) (kind : JobResultKind) (size filename_size : ℕ) (filename : Bytes)
    → length filename < 256
    → length filename < filename_size
    → job_get_result_meta (some (job_set_result_meta job kind size (some filename))) filename_size
      ≡ some (kind, (size, some filename))
unfolding job_get_result_meta job_set_result_meta
job_get_result_meta-job_set_result_meta job kind size filename_size filename stored room =
    let sized : (filename_size == 0) ≡ false = ground (arith, room) in
    let kept : snprintf 256 filename ≡ filename = take_all 255 filename (omega (arith, stored)) in
    let whole : snprintf filename_size filename ≡ filename =
      take_all (filename_size - 1) filename (omega (arith, room)) in
    rw (sized, kept, whole) refl
