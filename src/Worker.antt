-- ===== src/Worker.antt =====
-- src/server/worker.c: what a worker thread does with a job it took from the queue. The server may
-- ask to stop a job at any moment; `requests` says before which look at the flag such a request
-- arrives. An event that the pipe does not take is lost, and the server only logs events, so the
-- event is a result. Log lines and delays are not modelled.
pub mod Outcome
pub mod Thread
pub mod RoundTrip
mod Examples
use pcd.Prelude.{
  ℕ, zero, suc, ◌+◌, Bool, true, false, not, ◌&&◌, Option, none, some, [], ◌++◌, Bytes, codes,
  length, take, c_string, ◌==◌, if◌then◌else◌, decimal, snprintf,
}
use pcd.Job.{
  Job, JobState, Timespec, running, done, failed, canceled, JobType, unknown, text, validate_image,
  analyze_capacity, encode_text, encode_file, decode, text_result, file_result, png_result,
  JobResultKind, job_set_result, job_set_state, job_set_output_path, job_set_result_meta,
  job_request_cancel,
}
use pcd.Job.History.{job_get_payload, job_get_input_path, job_get_stored_path}
use pcd.Stego.{Result, ok, err}
use pcd.Stego.Container.{PayloadType}
use pcd.Stego.Png.{Platform, Info}
use pcd.Stego.Codec.{
  Extracted, stego_strerror, stego_get_capacity, stego_encode_text, stego_encode_file, stego_decode,
}
use pcd.Storage.{
  StorageDirs, Disk, Files, put_file, get_file_size_bytes, storage_make_result_path, max_job_path,
}
use pcd.PngUtils.{png_read_metadata, png_color_type_to_string}

-- `worker_event_t`.
pub record WorkerEvent : Type 0 where
  pub job_id : ℕ
  pub state : JobState

-- What a worker finds around it: libpng, the disk, the directories, its index, and two readings of
-- the clock. `bytes_read` and `bytes_written` say how much `fread` and `fwrite` move at most.
pub record Setting : Type 0 where
  pub platform : Platform
  pub get_channels : Info → ℕ
  pub disk : Disk
  pub bytes_read : Bytes → ℕ
  pub bytes_written : Bytes → ℕ
  pub dirs : StorageDirs
  pub worker_index : ℕ
  pub started : Timespec
  pub finished : Timespec

abbrev pub max_text_bytes : ℕ
max_text_bytes = 1048576

-- What a getter leaves in the caller's buffer.
abbrev pub buffer : Option Bytes → Bytes
buffer none = []
buffer (some string) = string

abbrev pub suffix_of : PayloadType → Bytes
suffix_of PayloadType.text = codes "txt"
suffix_of PayloadType.file = codes "bin"

abbrev pub kind_of : PayloadType → JobResultKind
kind_of PayloadType.text = text_result
kind_of PayloadType.file = file_result

-- A request to stop that arrives, or does not, before the flag is read.
unfoldable pub observe : Bool → Job → Job
observe arrives job = if arrives then (job_request_cancel job).1 else job

module _ (s : Setting) where
  -- `job_set_result` and `job_set_state`, the end of every branch.
  unfoldable pub end_job : Job → Bytes → JobState → Job
  end_job job message state = job_set_state s.finished (job_set_result job message) state

  abbrev pub stop_job : Job → Job
  stop_job job = end_job job (codes "job canceled") canceled

  abbrev pub fail_job : Job → Bytes → Job
  fail_job job message = end_job job message failed

  unfoldable pub write_text_to_file : Files → Bytes → Bytes → Bool × Files
  write_text_to_file files path contents =
      let written = take (s.bytes_written path) contents in
      if not (s.disk.can_open path) then (false, files) else (
        (length written == length contents) && s.disk.can_close path,
        put_file files path (some written),
      )

  -- The same code for another type of bytes.
  unfoldable pub write_bin_to_file : Files → Bytes → Bytes → Bool × Files
  write_bin_to_file files path contents = write_text_to_file files path contents

  unfoldable pub read_text_file : Files → Bytes → ℕ → Option Bytes
  read_text_file files path buf_size = elim (files path) [
    | none ↦ none
    | some contents ↦ some (take (s.bytes_read path) (snprintf buf_size contents))
  ]

  -- The wait and the look at the flag, before each of the steps that are left.
  unfoldable pub text_steps : ℕ → (ℕ → Bool) → Job → Bool × Job
  text_steps zero requests job = (true, job)
  text_steps (suc left) requests job =
      let seen = observe (requests 0) job in
      elim seen.cancel_requested [
        | true ↦ (false, seen)
        | false ↦ text_steps left (λ n. requests (suc n)) seen
      ]

  -- Whether the function returns 0, and the job.
  unfoldable pub end_text : Bytes → Bool × Job → Bool × Job
  end_text payload (false, seen) = (true, stop_job seen)
  end_text payload (true, seen) = (
    true,
    end_job seen
        (snprintf 2048
          (codes "processed_by_worker_" ++ (decimal s.worker_index ++ (codes ": " ++ payload))))
        done,
  )

  unfoldable pub process_text_job : (ℕ → Bool) → Job → Bool × Job
  process_text_job requests job =
      end_text (buffer (job_get_payload job 1024)) (text_steps 5 requests job)

  unfoldable pub process_validate_image_job : Files → Job → Bool × Job
  process_validate_image_job files job =
      let input_path = buffer (job_get_input_path job max_job_path) in
      elim (png_read_metadata s.platform s.get_channels files input_path) [
        | none ↦ (false, fail_job job (codes "INVALID PNG"))
        | some metadata ↦ (
          true,
          end_job job
              (snprintf 2048 (
                codes "VALID PNG width="
                ++ (decimal metadata.width
                    ++ (codes " height="
                        ++ (decimal metadata.height
                            ++ (codes " bit_depth="
                                ++ (decimal metadata.bit_depth
                                    ++ (codes " color="
                                        ++ (png_color_type_to_string metadata.color_type
                                            ++ (codes " channels="
                                                ++ decimal metadata.channels))))))))))
              done,
        )
      ]

  unfoldable pub process_analyze_capacity_job : Files → Job → Bool × Job
  process_analyze_capacity_job files job =
      let input_path = buffer (job_get_input_path job max_job_path) in
      elim (stego_get_capacity s.platform files input_path) [
        | err rc ↦
            (false, fail_job job (snprintf 2048 (codes "capacity error: " ++ stego_strerror rc)))
        | ok cap ↦ (
          true,
          end_job job
              (snprintf 2048 (
                codes "CAPACITY "
                ++ (decimal cap.payload_max_bytes
                    ++ (codes " BYTES width="
                        ++ (decimal cap.width
                            ++ (codes " height="
                                ++ (decimal cap.height
                                    ++ (codes " channels=" ++ decimal cap.channels))))))))
              done,
        )
      ]

  -- The size that is reported: 0 when the file cannot be looked at.
  abbrev pub reported_size : Files → Bytes → ℕ
  reported_size files path = elim (get_file_size_bytes files path) [ none ↦ 0 | some size ↦ size ]

  -- What both encoders do with the answer of the encoder: `failure` and `what` begin the message.
  unfoldable pub end_encoding :
      Bytes → Bytes → Bytes → Job → Result (Unit {0}) × Files → Bool × (Job × Files)
  end_encoding failure what out_path job (err rc, files) =
      (false, (fail_job job (snprintf 2048 (failure ++ stego_strerror rc)), files))
  end_encoding failure what out_path job (ok u, files) =
      let size = reported_size files out_path in
      (
        true,
        (
          end_job
              (job_set_result_meta (job_set_output_path job out_path) png_result size
                (some (codes "stego_result.png")))
              (snprintf 2048
                (what ++ (codes " output=" ++ (out_path ++ (codes " size=" ++ decimal size)))))
              done,
          files,
        ),
      )

  unfoldable pub process_encode_text_job : Bool → Files → Job → Bool × (Job × Files)
  process_encode_text_job arrives files job =
      let png_path = buffer (job_get_input_path job max_job_path) in
      let text_path = buffer (job_get_stored_path job max_job_path) in
      let seen = observe arrives job in
      elim (storage_make_result_path s.dirs job.id (codes "png") max_job_path) [
        | none ↦ (false, (fail_job job (codes "path build failed"), files))
        | some out_path ↦ elim (read_text_file files text_path (max_text_bytes + 1)) [
          | none ↦ (false, (fail_job job (codes "cannot read text payload"), files))
          | some text_buf ↦ elim seen.cancel_requested [
            | true ↦ (true, (stop_job seen, files))
            | false ↦
                end_encoding (codes "encode_text failed: ")
                  (codes "encoded text_bytes=" ++ decimal (length text_buf)) out_path seen
                  (stego_encode_text s.platform files png_path out_path text_buf)
          ]
        ]
      ]

  unfoldable pub process_encode_file_job : Bool → Files → Job → Bool × (Job × Files)
  process_encode_file_job arrives files job =
      let png_path = buffer (job_get_input_path job max_job_path) in
      let file_path = buffer (job_get_stored_path job max_job_path) in
      let filename = buffer (job_get_payload job 256) in
      let store_as : Option Bytes = if length filename == 0 then none else some filename in
      let seen = observe arrives job in
      elim (storage_make_result_path s.dirs job.id (codes "png") max_job_path) [
        | none ↦ (false, (fail_job job (codes "path build failed"), files))
        | some out_path ↦ elim seen.cancel_requested [
          | true ↦ (true, (stop_job seen, files))
          | false ↦
              end_encoding (codes "encode_file failed: ") (codes "encoded file=" ++ filename)
                out_path seen
                (stego_encode_file s.platform files png_path out_path file_path store_as)
        ]
      ]

  abbrev decoded_message : Extracted → Bytes
  decoded_message ex = elim ex.kind [
    | PayloadType.text ↦ codes "decoded text bytes=" ++ decimal (length ex.payload)
    | PayloadType.file ↦
        codes "decoded file="
        ++ (c_string ex.filename ++ (codes " bytes=" ++ decimal (length ex.payload)))
  ]

  abbrev decoded_name : Extracted → Bytes
  decoded_name ex = elim ex.kind [
    | PayloadType.text ↦ codes "decoded.txt"
    | PayloadType.file ↦ c_string ex.filename
  ]

  -- `process_decode_job` behind the writing of the payload.
  unfoldable pub end_decoding : Extracted → Bytes → Job → Bool × Files → Bool × (Job × Files)
  end_decoding ex out_path job (false, files) =
      (false, (fail_job job (codes "cannot write decoded result"), files))
  end_decoding ex out_path job (true, files) = (
    true,
    (
      end_job
          (job_set_result_meta (job_set_output_path job out_path) (kind_of ex.kind)
            (length ex.payload) (some (decoded_name ex)))
          (snprintf 2048 (decoded_message ex)) done,
      files,
    ),
  )

  unfoldable pub write_result : Files → Bytes → Extracted → Bool × Files
  write_result files out_path ex = elim ex.kind [
    | PayloadType.text ↦ write_text_to_file files out_path ex.payload
    | PayloadType.file ↦ write_bin_to_file files out_path ex.payload
  ]

  unfoldable pub process_decode_job : Bool → Files → Job → Bool × (Job × Files)
  process_decode_job arrives files job =
      let png_path = buffer (job_get_input_path job max_job_path) in
      let seen = observe arrives job in
      elim seen.cancel_requested [
        | true ↦ (true, (stop_job seen, files))
        | false ↦ elim (stego_decode s.platform files png_path) [
          | err rc ↦ (
            false,
            (fail_job seen (snprintf 2048 (codes "decode failed: " ++ stego_strerror rc)), files),
          )
          | ok ex ↦ elim (storage_make_result_path s.dirs job.id (suffix_of ex.kind) max_job_path) [
            | none ↦ (false, (fail_job seen (codes "path build failed"), files))
            | some out_path ↦ end_decoding ex out_path seen (write_result files out_path ex)
          ]
        ]
      ]

  abbrev with_files : Files → Bool × Job → Bool × (Job × Files)
  with_files files (rc, job) = (rc, (job, files))

  -- The switch on the job's type.
  unfoldable pub process_job : JobType → (ℕ → Bool) → Files → Job → Bool × (Job × Files)
  process_job text requests files job = with_files files (process_text_job requests job)
  process_job validate_image requests files job =
      with_files files (process_validate_image_job files job)
  process_job analyze_capacity requests files job =
      with_files files (process_analyze_capacity_job files job)
  process_job encode_text requests files job = process_encode_text_job (requests 0) files job
  process_job encode_file requests files job = process_encode_file_job (requests 0) files job
  process_job decode requests files job = process_decode_job (requests 0) files job
  process_job unknown requests files job = (false, (fail_job job (codes "unknown job type"), files))

  abbrev pub event_of : Job → WorkerEvent
  event_of job = record { job_id = job.id; state = job.state }

  -- A function that failed without setting the state.
  unfoldable pub settle : Bool × (Job × Files) → Job × Files
  settle (true, (job, files)) = (job, files)
  settle (false, (job, files)) = elim job.state [
    | running ↦ (fail_job job (codes "worker failed"), files)
    | other ↦ (job, files)
  ]

  -- The body of the loop of `worker_main`, for a job that was taken.
  unfoldable pub run_job : (ℕ → Bool) → Files → Job → Job × Files
  run_job requests files job =
      let seen = observe (requests 0) job in
      elim seen.cancel_requested [
        | true ↦ (stop_job seen, files)
        | false ↦ settle (
            process_job seen.type (λ n. requests (suc n)) files
              (job_set_state s.started seen running))
      ]
