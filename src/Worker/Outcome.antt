-- ===== src/Worker/Outcome.antt =====
-- How the work on a job ends, for src/server/worker.c.
use pcd.Prelude.{
  ℕ, zero, suc, ◌+◌, ◌≡◌, refl, arith, Bool, true, false, Bytes, codes, inl, inr, Bool-cases,
  Option-cases, ◌⊎◌, subst,
}
use pcd.Job.{
  Job, JobState, JobType, queued, running, done, failed, canceled, is_active, unknown, text,
  validate_image, analyze_capacity, encode_text, encode_file, decode, job_request_cancel,
  job_set_state, job_set_result, job_set_output_path, job_set_result_meta,
}
use pcd.Stego.{Result, ok, err}
use pcd.Stego.Codec.{Extracted, stego_get_capacity, stego_decode}
use pcd.Storage.{Files, storage_make_result_path, max_job_path}
use pcd.PngUtils.{png_read_metadata}
use pcd.Job.History.{job_get_input_path, job_get_stored_path}
use pcd.Stego.Codec.Transfer.{Result-cases}
use pcd.Worker.{
  Setting, buffer, observe, max_text_bytes, suffix_of, end_job, text_steps, end_text,
  process_text_job, process_validate_image_job, process_analyze_capacity_job, read_text_file,
  end_encoding, process_encode_text_job, process_encode_file_job, end_decoding, process_decode_job,
  process_job, settle, run_job,
}

-- A job that is over and otherwise has what it was created with: its number, its owner with the
-- address, its type, what it was given, and the time of its creation.
pub record IsOver (before after : Job) : Type 0 where
  pub over : is_active after.state ≡ false
  pub id : after.id ≡ before.id
  pub owner_fd : after.owner_fd ≡ before.owner_fd
  pub type : after.type ≡ before.type
  pub payload : after.payload ≡ before.payload
  pub input_path : after.input_path ≡ before.input_path
  pub stored_path : after.stored_path ≡ before.stored_path
  pub owner_ip : after.owner_ip ≡ before.owner_ip
  pub created_at : after.created_at ≡ before.created_at

module _ (s : Setting) where
  IsOver-end_job :
      (job : Job) (message : Bytes) (state : JobState)
      → is_active state ≡ false
      → IsOver job (end_job s job message state)
  unfolding end_job job_set_state job_set_result is_active
  IsOver-end_job job message queued h = absurd (ground (arith, h))
  IsOver-end_job job message running h = absurd (ground (arith, h))
  IsOver-end_job job message done h = record {
    over = refl;
    id = refl;
    owner_fd = refl;
    type = refl;
    payload = refl;
    input_path = refl;
    stored_path = refl;
    owner_ip = refl;
    created_at = refl;
  }
  IsOver-end_job job message failed h = record {
    over = refl;
    id = refl;
    owner_fd = refl;
    type = refl;
    payload = refl;
    input_path = refl;
    stored_path = refl;
    owner_ip = refl;
    created_at = refl;
  }
  IsOver-end_job job message canceled h = record {
    over = refl;
    id = refl;
    owner_fd = refl;
    type = refl;
    payload = refl;
    input_path = refl;
    stored_path = refl;
    owner_ip = refl;
    created_at = refl;
  }

  IsOver-stop : (job : Job) → IsOver job (end_job s job (codes "job canceled") canceled)
  unfolding is_active
  IsOver-stop job = IsOver-end_job job (codes "job canceled") canceled refl

  IsOver-fail : (job : Job) (message : Bytes) → IsOver job (end_job s job message failed)
  unfolding is_active
  IsOver-fail job message = IsOver-end_job job message failed refl

  IsOver-done : (job : Job) (message : Bytes) → IsOver job (end_job s job message done)
  unfolding is_active
  IsOver-done job message = IsOver-end_job job message done refl

  -- A request that arrives changes the flag at most.
  observe_cases :
      (arrives : Bool) (job : Job)
      → (observe arrives job ≡ job) ⊎ (observe arrives job ≡ record job { cancel_requested = true })
  unfolding observe job_request_cancel
  observe_cases false job = inl refl
  observe_cases true job = elim (Bool-cases (is_active job.state)) [
    | inl active ↦ inr (rw active refl)
    | inr over ↦ inl (rw over refl)
  ]

  asked_to_stop :
      (job after : Job) → IsOver (record job { cancel_requested = true }) after → IsOver job after
  asked_to_stop job after h = record {
    over = h.over;
    id = h.id;
    owner_fd = h.owner_fd;
    type = h.type;
    payload = h.payload;
    input_path = h.input_path;
    stored_path = h.stored_path;
    owner_ip = h.owner_ip;
    created_at = h.created_at;
  }

  IsOver-observe :
      (arrives : Bool) (job after : Job) → IsOver (observe arrives job) after → IsOver job after
  IsOver-observe arrives job after h = elim (observe_cases arrives job) [
    | inl same ↦ subst (λ (j : Job). IsOver j after) same h
    | inr asked ↦ asked_to_stop job after (subst (λ (j : Job). IsOver j after) asked h)
  ]

  IsOver-text_steps :
      (left : ℕ) (requests : ℕ → Bool) (payload : Bytes) (job : Job)
      → IsOver job (end_text s payload (text_steps s left requests job)).1
  unfolding text_steps end_text
  IsOver-text_steps zero requests payload job = IsOver-done job _
  IsOver-text_steps (suc left) requests payload job =
      elim (Bool-cases (observe (requests 0) job).cancel_requested) [
        | inl asked ↦
            rw (end_text, text_steps, asked) (IsOver-observe (requests 0) job _ (IsOver-stop _))
        | inr free ↦
            rw (end_text, text_steps, free)
              (IsOver-observe (requests 0) job _
                (IsOver-text_steps left (λ n. requests (suc n)) payload (observe (requests 0) job)))
      ]

  IsOver-process_text_job :
      (requests : ℕ → Bool) (job : Job) → IsOver job (process_text_job s requests job).1
  unfolding process_text_job
  IsOver-process_text_job requests job = IsOver-text_steps 5 requests _ job

  IsOver-process_validate_image_job :
      (files : Files) (job : Job) → IsOver job (process_validate_image_job s files job).1
  unfolding process_validate_image_job
  IsOver-process_validate_image_job files job =
      elim (Option-cases (
        png_read_metadata s.platform s.get_channels files
          (buffer (job_get_input_path job max_job_path)))) [
            | inl invalid ↦ rw (process_validate_image_job, invalid) (IsOver-fail job _)
            | inr (metadata, valid) ↦ rw (process_validate_image_job, valid) (IsOver-done job _)
          ]

  IsOver-process_analyze_capacity_job :
      (files : Files) (job : Job) → IsOver job (process_analyze_capacity_job s files job).1
  unfolding process_analyze_capacity_job
  IsOver-process_analyze_capacity_job files job =
      elim (Result-cases
        (stego_get_capacity s.platform files (buffer (job_get_input_path job max_job_path)))) [
          | inl (reported, found) ↦ rw (process_analyze_capacity_job, found) (IsOver-done job _)
          | inr (rc, bad) ↦ rw (process_analyze_capacity_job, bad) (IsOver-fail job _)
        ]

  -- The setters of the result keep what a job was given.
  IsOver-end_encoding :
      (failure what out_path : Bytes) (job : Job) (answer : Result (Unit {0}) × Files)
      → IsOver job (end_encoding s failure what out_path job answer).1.0
  unfolding end_encoding end_job job_set_state job_set_result job_set_output_path
      job_set_result_meta is_active
  IsOver-end_encoding failure what out_path job (err rc, files) = IsOver-fail job _
  IsOver-end_encoding failure what out_path job (ok u, files) = record {
    over = refl;
    id = refl;
    owner_fd = refl;
    type = refl;
    payload = refl;
    input_path = refl;
    stored_path = refl;
    owner_ip = refl;
    created_at = refl;
  }

  IsOver-process_encode_text_job :
      (arrives : Bool) (files : Files) (job : Job)
      → IsOver job (process_encode_text_job s arrives files job).1.0
  unfolding process_encode_text_job
  IsOver-process_encode_text_job arrives files job =
      let text_path = buffer (job_get_stored_path job max_job_path) in
      elim (Option-cases (storage_make_result_path s.dirs job.id (codes "png") max_job_path)) [
        | inl long ↦ rw (process_encode_text_job, long) (IsOver-fail job _)
        | inr (out_path, built) ↦
            elim (Option-cases (read_text_file s files text_path (max_text_bytes + 1))) [
              | inl missing ↦ rw (process_encode_text_job, built, missing) (IsOver-fail job _)
              | inr (text_buf, found) ↦ elim (Bool-cases (observe arrives job).cancel_requested) [
                | inl asked ↦
                    rw (process_encode_text_job, built, found, asked)
                      (IsOver-observe arrives job _ (IsOver-stop _))
                | inr free ↦
                    rw (process_encode_text_job, built, found, free)
                      (IsOver-observe arrives job _ (IsOver-end_encoding _ _ _ _ _))
              ]
            ]
      ]

  IsOver-process_encode_file_job :
      (arrives : Bool) (files : Files) (job : Job)
      → IsOver job (process_encode_file_job s arrives files job).1.0
  unfolding process_encode_file_job
  IsOver-process_encode_file_job arrives files job =
      elim (Option-cases (storage_make_result_path s.dirs job.id (codes "png") max_job_path)) [
        | inl long ↦ rw (process_encode_file_job, long) (IsOver-fail job _)
        | inr (out_path, built) ↦ elim (Bool-cases (observe arrives job).cancel_requested) [
          | inl asked ↦
              rw (process_encode_file_job, built, asked)
                (IsOver-observe arrives job _ (IsOver-stop _))
          | inr free ↦
              rw (process_encode_file_job, built, free)
                (IsOver-observe arrives job _ (IsOver-end_encoding _ _ _ _ _))
        ]
      ]

  IsOver-end_decoding :
      (ex : Extracted) (out_path : Bytes) (job : Job) (answer : Bool × Files)
      → IsOver job (end_decoding s ex out_path job answer).1.0
  unfolding end_decoding end_job job_set_state job_set_result job_set_output_path
      job_set_result_meta is_active
  IsOver-end_decoding ex out_path job (false, files) =
      IsOver-fail job (codes "cannot write decoded result")
  IsOver-end_decoding ex out_path job (true, files) = record {
    over = refl;
    id = refl;
    owner_fd = refl;
    type = refl;
    payload = refl;
    input_path = refl;
    stored_path = refl;
    owner_ip = refl;
    created_at = refl;
  }

  IsOver-process_decode_job :
      (arrives : Bool) (files : Files) (job : Job)
      → IsOver job (process_decode_job s arrives files job).1.0
  unfolding process_decode_job
  IsOver-process_decode_job arrives files job =
      elim (Bool-cases (observe arrives job).cancel_requested) [
        | inl asked ↦ rw (process_decode_job, asked) (IsOver-observe arrives job _ (IsOver-stop _))
        | inr free ↦
            elim (Result-cases
              (stego_decode s.platform files (buffer (job_get_input_path job max_job_path)))) [
                | inr (rc, bad) ↦
                    rw (process_decode_job, free, bad)
                      (IsOver-observe arrives job _ (IsOver-fail _ _))
                | inl (ex, decoded) ↦
                    elim (Option-cases
                      (storage_make_result_path s.dirs job.id (suffix_of ex.kind) max_job_path)) [
                        | inl long ↦
                            rw (process_decode_job, free, decoded, long)
                              (IsOver-observe arrives job _ (IsOver-fail _ _))
                        | inr (out_path, built) ↦
                            rw (process_decode_job, free, decoded, built)
                              (IsOver-observe arrives job _ (IsOver-end_decoding _ _ _ _))
                      ]
              ]
      ]

  -- Whatever its type, whatever fails and whenever it is asked to stop, a job that is processed is
  -- over afterwards.
  pub IsOver-process_job :
      (type : JobType) (requests : ℕ → Bool) (files : Files) (job : Job)
      → IsOver job (process_job s type requests files job).1.0
  unfolding process_job
  IsOver-process_job unknown requests files job = IsOver-fail job _
  IsOver-process_job text requests files job = IsOver-process_text_job requests job
  IsOver-process_job validate_image requests files job = IsOver-process_validate_image_job files job
  IsOver-process_job analyze_capacity requests files job =
      IsOver-process_analyze_capacity_job files job
  IsOver-process_job encode_text requests files job =
      IsOver-process_encode_text_job (requests 0) files job
  IsOver-process_job encode_file requests files job =
      IsOver-process_encode_file_job (requests 0) files job
  IsOver-process_job decode requests files job = IsOver-process_decode_job (requests 0) files job

  IsOver-started :
      (job after : Job) → IsOver (job_set_state s.started job running) after → IsOver job after
  unfolding job_set_state
  IsOver-started job after h = record {
    over = h.over;
    id = h.id;
    owner_fd = h.owner_fd;
    type = h.type;
    payload = h.payload;
    input_path = h.input_path;
    stored_path = h.stored_path;
    owner_ip = h.owner_ip;
    created_at = h.created_at;
  }

  -- A job that is over is left as it is.
  settle_over :
      (answer : Bool × (Job × Files))
      → is_active answer.1.0.state ≡ false
      → settle s answer ≡ answer.1
  unfolding settle is_active
  settle_over (true, (job, files)) h = refl
  settle_over (false, (job, files)) h = go job.state refl
    where
      go : (state : JobState) → job.state ≡ state → settle s (false, (job, files)) ≡ (job, files)
      go queued e = simp e refl
      go running e = absurd (ground (arith, e, h))
      go done e = simp e refl
      go failed e = simp e refl
      go canceled e = simp e refl

  -- Whatever a job's type, whatever fails and whenever the server asks it to stop, a worker that
  -- takes it leaves it done, failed or canceled, with all that it was created with.
  pub run_job-IsOver :
      (requests : ℕ → Bool) (files : Files) (job : Job)
      → IsOver job (run_job s requests files job).0
  unfolding run_job
  run_job-IsOver requests files job =
      let seen = observe (requests 0) job in
      let later : ℕ → Bool = λ n. requests (suc n) in
      let answer = process_job s seen.type later files (job_set_state s.started seen running) in
      let ended = IsOver-process_job seen.type later files (job_set_state s.started seen running) in
      elim (Bool-cases seen.cancel_requested) [
        | inl asked ↦ rw (run_job, asked) (IsOver-observe (requests 0) job _ (IsOver-stop seen))
        | inr free ↦
            rw (run_job, free, settle_over answer ended.over)
              (IsOver-observe (requests 0) job _ (IsOver-started seen _ ended))
      ]
