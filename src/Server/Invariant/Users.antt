-- ===== src/Server/Invariant/Users.antt =====
-- The commands of src/server/server.c keep the invariant of the state.
use pcd.Prelude.{
  ℕ, ◌≡◌, refl, not, none, some, Bytes, codes, length, get_elem?, ltb, ◌==◌, Bool-cases,
  Option-cases, inl, inr, ◌++◌, decimal,
}
use pcd.Net.{read_exact}
use pcd.Job.{Job, JobType, job_request_cancel, is_active}
use pcd.Job.Table.{IsValid-set}
use pcd.Storage.{get_file_size_bytes}
use pcd.Protocol.{ProtocolCommand, ProtocolRequest}
use pcd.Server.State.{
  ServerState, Surroundings, send_responsef, update_job, receive_png_to_upload,
  receive_extra_to_file,
}
use pcd.Server.User.{
  is_done, cancel_job, download, upload_job, handle_encode_text, handle_encode_file,
  handle_user_command, max_filename_bytes, max_text_bytes, read_name, argument_job,
}
use pcd.Server.Invariant.{
  IsSound, Sound-table, respond-IsSound, send_responsef-IsSound, close_slot-IsSound,
  enqueue_job-IsSound, receive_png_to_upload-IsSound, receive_extra_to_file-IsSound,
  with_job-IsSound,
}

request_cancel-id : (job : Job) → (job_request_cancel job).1.id ≡ job.id
unfolding job_request_cancel
request_cancel-id job = elim (Bool-cases (is_active job.state)) [
  | inl active ↦ simp active refl
  | inr over ↦ simp over refl
]

pub cancel_job-IsSound :
    (state : ServerState) (fd job_id : ℕ) (refusal : Bytes) (p : ℕ) (job : Job)
    → IsSound state
    → get_elem? state.jobs.jobs p ≡ some job
    → IsSound (cancel_job state fd job_id refusal p job)
unfolding cancel_job
cancel_job-IsSound state fd job_id refusal p job sound found =
    elim (Bool-cases (job_request_cancel job).0) [
      | inl accepted ↦
          rw (cancel_job, accepted, update_job, found)
            (respond-IsSound _ fd _ (
              Sound-table state.jobs _ state.clients state.blocklist sound
                (IsValid-set state.jobs p job _ sound.table found (request_cancel-id job))))
      | inr over ↦ rw (cancel_job, over) (respond-IsSound state fd _ sound)
    ]

module _ (env : Surroundings) (state : ServerState) (slot fd : ℕ) (addr_str : Bytes)
    (sound : IsSound state) where
  download-IsSound : (job : Job) → IsSound (download env state slot fd addr_str job)
  unfolding download
  download-IsSound job = elim (Bool-cases (not (is_done job.state))) [
    | inl unfinished ↦ rw (download, unfinished) (respond-IsSound state fd _ sound)
    | inr finished ↦ elim (Bool-cases (length job.output_path == 0)) [
      | inl nothing ↦ rw (download, finished, nothing) (respond-IsSound state fd _ sound)
      | inr output ↦ elim (Option-cases (get_file_size_bytes state.files job.output_path)) [
        | inl missing ↦ rw (download, finished, output, missing) (respond-IsSound state fd _ sound)
        | inr (size, found) ↦
            let line = codes "DATA " ++ (decimal size ++ codes "\n") in
            let after = send_responsef-IsSound state fd line sound in
            elim (Bool-cases (send_responsef state fd line).0) [
              | inl sent ↦ rw (download, finished, output, found, sent) after
              | inr unsent ↦ rw (download, finished, output, found, unsent) after
            ]
      ]
    ]
  ]

  upload_job-IsSound :
      (png_size : ℕ) (type : JobType)
      → IsSound (upload_job env state slot fd addr_str png_size type)
  unfolding upload_job
  upload_job-IsSound png_size type =
      let received = receive_png_to_upload-IsSound env state fd png_size sound in
      elim (Option-cases (receive_png_to_upload env state fd png_size).0) [
        | inl refused ↦ rw (upload_job, refused) received
        | inr (path, taken) ↦
            rw (upload_job, taken) (enqueue_job-IsSound env _ fd addr_str type none _ none received)
      ]

  handle_encode_text-IsSound :
      (request : ProtocolRequest) → IsSound (handle_encode_text env state slot fd addr_str request)
  unfolding handle_encode_text
  handle_encode_text-IsSound request =
      let received = receive_png_to_upload-IsSound env state fd request.size1 sound in
      let got = receive_png_to_upload env state fd request.size1 in
      let extra =
        receive_extra_to_file-IsSound env got.1 fd request.size2 max_text_bytes (codes "text")
          got.1.jobs.next_id (codes "txt") received in
      elim (Option-cases got.0) [
        | inl refused ↦ rw (handle_encode_text, refused) received
        | inr (path, taken) ↦
            elim (Option-cases
              (receive_extra_to_file env got.1 fd request.size2 max_text_bytes (codes "text")
                got.1.jobs.next_id (codes "txt")).0) [
                  | inl failed ↦ rw (handle_encode_text, taken, failed) extra
                  | inr (text_path, stored) ↦
                      rw (handle_encode_text, taken, stored)
                        (enqueue_job-IsSound env _ fd addr_str JobType.encode_text none _ _ extra)
                ]
      ]

  read_name-IsSound :
      (received : ServerState) (size : ℕ)
      → IsSound received
      → IsSound (read_name env state slot fd addr_str received size).1
  read_name-IsSound received size before = elim (Bool-cases (size == 0)) [
    | inl nothing ↦ rw (read_name, nothing) before
    | inr bytes ↦ elim (Option-cases (read_exact (received.connections fd) size).0) [
      | inl broken ↦ rw (read_name, bytes, broken) before
      | inr (name, got) ↦ elim (Bool-cases (length name == size)) [
        | inl whole ↦ rw (read_name, bytes, got, whole) before
        | inr short ↦ rw (read_name, bytes, got, short) before
      ]
    ]
  ]

  handle_encode_file-IsSound :
      (request : ProtocolRequest) → IsSound (handle_encode_file env state slot fd addr_str request)
  unfolding handle_encode_file
  handle_encode_file-IsSound request =
      let received = receive_png_to_upload-IsSound env state fd request.size1 sound in
      let got = receive_png_to_upload env state fd request.size1 in
      let named = read_name env state slot fd addr_str got.1 request.size2 in
      let named_sound = read_name-IsSound got.1 request.size2 received in
      let extra =
        receive_extra_to_file-IsSound env named.1 fd request.size3 env.max_upload_bytes
          (codes "file") named.1.jobs.next_id (codes "data") named_sound in
      elim (Bool-cases (ltb max_filename_bytes request.size2)) [
        | inl long ↦ rw (handle_encode_file, long) (respond-IsSound _ fd _ sound)
        | inr short ↦ elim (Option-cases got.0) [
          | inl refused ↦ rw (handle_encode_file, short, refused) received
          | inr (path, taken) ↦ elim (Option-cases named.0) [
            | inl broken ↦
                rw (handle_encode_file, short, taken, broken) (respond-IsSound _ fd _ named_sound)
            | inr (filename, read) ↦
                elim (Option-cases
                  (receive_extra_to_file env named.1 fd request.size3 env.max_upload_bytes
                    (codes "file") named.1.jobs.next_id (codes "data")).0) [
                      | inl failed ↦ rw (handle_encode_file, short, taken, read, failed) extra
                      | inr (file_path, stored) ↦
                          rw (handle_encode_file, short, taken, read, stored)
                            (enqueue_job-IsSound env _ fd addr_str JobType.encode_file _ _ _ extra)
                    ]
          ]
        ]
      ]

  argument_job-IsSound :
      (argument refusal : Bytes) (next : ServerState)
      → IsSound next
      → IsSound (argument_job env state slot fd addr_str argument refusal next)
  argument_job-IsSound argument refusal next after = elim (Bool-cases (length argument == 0)) [
    | inl missing ↦ rw (argument_job, missing) (respond-IsSound state fd refusal sound)
    | inr given ↦ rw (argument_job, given) after
  ]

  pub handle_user_command-IsSound :
      (command : ProtocolCommand) (request : ProtocolRequest)
      → IsSound (handle_user_command env state slot fd addr_str command request)
  unfolding handle_user_command
  handle_user_command-IsSound ProtocolCommand.ping request = respond-IsSound state fd _ sound
  handle_user_command-IsSound ProtocolCommand.help request = respond-IsSound state fd _ sound
  handle_user_command-IsSound ProtocolCommand.submit request =
      argument_job-IsSound _ _ _ (enqueue_job-IsSound env state fd addr_str _ _ _ _ sound)
  handle_user_command-IsSound ProtocolCommand.encode_text request =
      handle_encode_text-IsSound request
  handle_user_command-IsSound ProtocolCommand.encode_file request =
      handle_encode_file-IsSound request
  handle_user_command-IsSound ProtocolCommand.decode request = upload_job-IsSound _ _
  handle_user_command-IsSound ProtocolCommand.validate request = upload_job-IsSound _ _
  handle_user_command-IsSound ProtocolCommand.capacity request = upload_job-IsSound _ _
  handle_user_command-IsSound ProtocolCommand.validate_image request =
      argument_job-IsSound _ _ _ (enqueue_job-IsSound env state fd addr_str _ _ _ _ sound)
  handle_user_command-IsSound ProtocolCommand.analyze_capacity request =
      argument_job-IsSound _ _ _ (enqueue_job-IsSound env state fd addr_str _ _ _ _ sound)
  handle_user_command-IsSound ProtocolCommand.status request =
      with_job-IsSound state fd _ _ sound (λ p job found. respond-IsSound state fd _ sound)
  handle_user_command-IsSound ProtocolCommand.result request =
      with_job-IsSound state fd _ _ sound (λ p job found. respond-IsSound state fd _ sound)
  handle_user_command-IsSound ProtocolCommand.meta request =
      with_job-IsSound state fd _ _ sound (λ p job found. respond-IsSound state fd _ sound)
  handle_user_command-IsSound ProtocolCommand.download request =
      with_job-IsSound state fd _ _ sound (λ p job found. download-IsSound job)
  handle_user_command-IsSound ProtocolCommand.cancel request =
      with_job-IsSound state fd _ _ sound
        (λ p job found. cancel_job-IsSound state fd _ _ p job sound found)
  handle_user_command-IsSound ProtocolCommand.quit request =
      close_slot-IsSound _ slot (respond-IsSound state fd _ sound)
  handle_user_command-IsSound ProtocolCommand.unknown request = respond-IsSound state fd _ sound
  handle_user_command-IsSound ProtocolCommand.listjobs request = respond-IsSound state fd _ sound
  handle_user_command-IsSound ProtocolCommand.stats request = respond-IsSound state fd _ sound
  handle_user_command-IsSound ProtocolCommand.listclients request = respond-IsSound state fd _ sound
  handle_user_command-IsSound ProtocolCommand.history request = respond-IsSound state fd _ sound
  handle_user_command-IsSound ProtocolCommand.avgduration request = respond-IsSound state fd _ sound
  handle_user_command-IsSound ProtocolCommand.kick request = respond-IsSound state fd _ sound
  handle_user_command-IsSound ProtocolCommand.blockip request = respond-IsSound state fd _ sound
  handle_user_command-IsSound ProtocolCommand.unblockip request = respond-IsSound state fd _ sound
