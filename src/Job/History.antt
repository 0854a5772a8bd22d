-- ===== src/Job/History.antt =====
-- The list of finished jobs of src/server/job.c, and the functions that copy a field of a job into
-- a buffer. The duration is a floating-point number, so its text is a parameter.
use pcd.Prelude.{
  ℕ, ◌+◌, not, ◌&&◌, Option, none, some, List, [], ◌∷◌, ◌++◌, Bytes, codes, ltb, ◌==◌,
  if◌then◌else◌, snprintf, decimal,
}
use pcd.Job.{Job, JobTable, Timespec, is_active, job_state_to_string, job_type_to_string}
use pcd.Job.Report.{joined, room_needed}

-- The fields that a caller copies into its own buffer; `none` leaves the buffer as it was.
abbrev pub copy_out : (Job → Bytes) → Job → ℕ → Option Bytes
copy_out field job buffer_size =
    if buffer_size == 0 then none else some (snprintf buffer_size (field job))

unfoldable pub job_get_result : Job → ℕ → Option Bytes
job_get_result = copy_out (λ job. job.result)

unfoldable pub job_get_payload : Job → ℕ → Option Bytes
job_get_payload = copy_out (λ job. job.payload)

unfoldable pub job_get_input_path : Job → ℕ → Option Bytes
job_get_input_path = copy_out (λ job. job.input_path)

unfoldable pub job_get_stored_path : Job → ℕ → Option Bytes
job_get_stored_path = copy_out (λ job. job.stored_path)

unfoldable pub job_get_output_path : Job → ℕ → Option Bytes
job_get_output_path = copy_out (λ job. job.output_path)

unfoldable pub job_get_owner_ip : Job → ℕ → Option Bytes
job_get_owner_ip = copy_out (λ job. job.owner_ip)

module _ (duration : Timespec → Timespec → Bytes) where
  -- `item[320]`.
  unfoldable pub history_item : Job → Bytes
  history_item job = snprintf 320 (
      codes "id="
      ++ (decimal job.id
          ++ (codes ",type="
              ++ (job_type_to_string job.type
                  ++ (codes ",state="
                      ++ (job_state_to_string job.state
                          ++ (codes ",dur_ms="
                              ++ (duration job.started_at job.finished_at
                                  ++ (codes ",ip=" ++ job.owner_ip)))))))))

  -- The jobs that are neither queued nor running, the newest first, `left` of them at most. The
  -- jobs come in the order of the table, and the loop goes through them from the end.
  unfoldable pub history_items : ℕ → ℕ → List Job → Bytes × ℕ
  unfolding history_item
  history_items buffer_size max_items [] = ([], 0)
  history_items buffer_size max_items (job ∷ newer) =
      let (buffer, emitted) = history_items buffer_size max_items newer in
      if ltb emitted max_items
        && (not (is_active job.state) && ltb (room_needed buffer (history_item job)) buffer_size)
      then (joined buffer (history_item job), emitted + 1)
      else (buffer, emitted)

  -- `none` for -1.
  unfoldable pub job_table_format_history : JobTable → ℕ → ℕ → Option Bytes
  unfolding history_items
  job_table_format_history table buffer_size max_items =
      let (buffer, emitted) = history_items buffer_size max_items table.jobs in
      if buffer_size == 0
      then none
      else some (if emitted == 0 then snprintf buffer_size (codes "empty") else buffer)
