-- ===== src/Server/User.antt =====
-- src/server/server.c: the commands of a user, `handle_user_command`.
use pcd.Prelude.{
  ℕ, ◌+◌, Bool, true, false, not, Option, none, some, [], ◌++◌, Bytes, codes, length, ltb, ◌==◌,
  if◌then◌else◌, decimal, u64, c_string,
}
use pcd.Net.{read_exact, discard_exact}
use pcd.Job.{
  Job, JobType, JobState, done, is_active, job_state_to_string, job_result_kind_to_string,
  job_request_cancel,
}
use pcd.Job.{text, validate_image, analyze_capacity, encode_text, encode_file, decode}
use pcd.Storage.{get_file_size_bytes, storage_send_file}
use pcd.Protocol.{ProtocolCommand, ProtocolRequest}
use pcd.Server.State.{
  ServerState, Surroundings, set_connection, send_responsef, respond, update_job, close_slot,
  enqueue_job, receive_png_to_upload, receive_extra_to_file, with_job,
}

abbrev pub max_text_bytes : ℕ
max_text_bytes = 1048576

abbrev pub max_filename_bytes : ℕ
max_filename_bytes = 255

pub send_help_text : Bytes
send_help_text =
    codes
      "OK help user: PING QUIT | ENCODE_TEXT <png_len> <text_len> | ENCODE_FILE <png_len> <name_len> <file_len> | DECODE <png_len> | VALIDATE <png_len> | CAPACITY <png_len> | STATUS <id> | RESULT <id> | META <id> | DOWNLOAD <id> | CANCEL <id>\n"

unfoldable pub is_done : JobState → Bool
is_done done = true
is_done _ = false

-- The answers about a job, by its state.
unfoldable pub status_text : ℕ → Job → Bytes
status_text job_id job =
    codes "STATUS "
    ++ (decimal job_id ++ (codes " " ++ (job_state_to_string job.state ++ codes "\n")))

unfoldable pub result_text : ℕ → Job → Bytes
result_text job_id job =
    if is_active job.state
    then codes "ERR job not finished state=" ++ (job_state_to_string job.state ++ codes "\n")
    else codes "RESULT "
      ++ (decimal job_id
          ++ (codes " state="
              ++ (job_state_to_string job.state ++ (codes " msg=" ++ (job.result ++ codes "\n")))))

unfoldable pub meta_text : ℕ → Job → Bytes
unfolding is_done
meta_text job_id job =
    if not (is_done job.state)
    then codes "ERR job not done\n"
    else codes "META "
      ++ (decimal job_id
          ++ (codes " type="
              ++ (job_result_kind_to_string job.result_kind
                  ++ (codes " size="
                      ++ (decimal job.result_size
                          ++ (codes " name=" ++ (job.result_filename ++ codes "\n")))))))

-- `CANCEL` on a job that was found.
unfoldable pub cancel_job : ServerState → ℕ → ℕ → Bytes → ℕ → Job → ServerState
cancel_job state fd job_id refusal p job =
    let (accepted, after) = job_request_cancel job in
    if accepted
    then respond (record state { jobs = update_job state.jobs p (λ other. after) }) fd
        (codes "OK cancel requested " ++ (decimal job_id ++ codes "\n"))
    else respond state fd refusal

module _ (env : Surroundings) (state : ServerState) (slot fd : ℕ) (addr_str : Bytes) where
  -- The size is sent before the file; an answer that fails ends the command.
  unfoldable pub download : Job → ServerState
  unfolding is_done
  download job =
      if not (is_done job.state)
      then respond state fd (codes "ERR job not done\n")
      else if length job.output_path == 0
      then respond state fd (codes "ERR no output\n")
      else elim (get_file_size_bytes state.files job.output_path) [
        | none ↦ respond state fd (codes "ERR stat failed\n")
        | some size ↦
            let (sent, after) =
              send_responsef state fd (codes "DATA " ++ (decimal size ++ codes "\n")) in
            let (whole, connection) =
              storage_send_file env.disk (after.connections fd) after.files job.output_path in
            if sent then set_connection after fd connection else after
      ]

  -- A job on the PNG file that follows the command.
  unfoldable pub upload_job : ℕ → JobType → ServerState
  upload_job png_size type =
      let (path, after) = receive_png_to_upload env state fd png_size in
      elim path [
        | none ↦ after
        | some png_path ↦ enqueue_job env after fd addr_str type none (some png_path) none
      ]

  unfoldable pub handle_encode_text : ProtocolRequest → ServerState
  handle_encode_text request =
      let (path, received) = receive_png_to_upload env state fd request.size1 in
      elim path [
        | none ↦ received
        | some png_path ↦
            let (extra, after) =
              receive_extra_to_file env received fd request.size2 max_text_bytes (codes "text")
                received.jobs.next_id (codes "txt") in
            elim extra [
              | none ↦ after
              | some text_path ↦
                  enqueue_job env after fd addr_str encode_text none (some png_path)
                    (some text_path)
            ]
      ]

  -- The name is read only when it has bytes; it is a C string afterwards.
  abbrev pub read_name : ServerState → ℕ → Option Bytes × ServerState
  read_name received size =
      let (name, connection) = read_exact (received.connections fd) size in
      if size == 0 then (some [], received) else elim name [
        | none ↦ (none, set_connection received fd connection)
        | some filename ↦
            if length filename == size
            then (some (c_string filename), set_connection received fd connection)
            else (none, set_connection received fd connection)
      ]

  unfoldable pub handle_encode_file : ProtocolRequest → ServerState
  handle_encode_file request =
      let (path, received) = receive_png_to_upload env state fd request.size1 in
      if ltb max_filename_bytes request.size2
      then respond
          (set_connection state fd
            (discard_exact (state.connections fd)
              (u64 (request.size1 + request.size2 + request.size3))).1)
          fd (codes "ERR filename too long\n")
      else elim path [
        | none ↦ received
        | some png_path ↦
            let (name, named) = read_name received request.size2 in
            elim name [
              | none ↦ respond named fd (codes "ERR filename read failed\n")
              | some filename ↦
                  let (extra, after) =
                    receive_extra_to_file env named fd request.size3 env.max_upload_bytes
                      (codes "file") named.jobs.next_id (codes "data") in
                  elim extra [
                    | none ↦ after
                    | some file_path ↦
                        enqueue_job env after fd addr_str encode_file (some filename)
                          (some png_path) (some file_path)
                  ]
            ]
      ]

  -- The commands that need a text: a job on it, or an error.
  abbrev pub argument_job : Bytes → Bytes → ServerState → ServerState
  argument_job argument refusal next =
      if length argument == 0 then respond state fd refusal else next

  unfoldable pub handle_user_command : ProtocolCommand → ProtocolRequest → ServerState
  handle_user_command ProtocolCommand.ping request = respond state fd (codes "PONG\n")
  handle_user_command ProtocolCommand.help request = respond state fd send_help_text
  handle_user_command ProtocolCommand.submit request =
      argument_job request.argument1 (codes "ERR empty payload\n")
        (enqueue_job env state fd addr_str text (some request.argument1) none none)
  handle_user_command ProtocolCommand.encode_text request = handle_encode_text request
  handle_user_command ProtocolCommand.encode_file request = handle_encode_file request
  handle_user_command ProtocolCommand.decode request = upload_job request.size1 decode
  handle_user_command ProtocolCommand.validate request = upload_job request.size1 validate_image
  handle_user_command ProtocolCommand.capacity request = upload_job request.size1 analyze_capacity
  handle_user_command ProtocolCommand.validate_image request =
      argument_job request.argument1 (codes "ERR empty path\n")
        (enqueue_job env state fd addr_str validate_image none (some request.argument1) none)
  handle_user_command ProtocolCommand.analyze_capacity request =
      argument_job request.argument1 (codes "ERR empty path\n")
        (enqueue_job env state fd addr_str analyze_capacity none (some request.argument1) none)
  handle_user_command ProtocolCommand.status request =
      with_job state fd request.job_id (λ p job. respond state fd (status_text request.job_id job))
  handle_user_command ProtocolCommand.result request =
      with_job state fd request.job_id (λ p job. respond state fd (result_text request.job_id job))
  handle_user_command ProtocolCommand.meta request =
      with_job state fd request.job_id (λ p job. respond state fd (meta_text request.job_id job))
  handle_user_command ProtocolCommand.download request =
      with_job state fd request.job_id (λ p job. download job)
  handle_user_command ProtocolCommand.cancel request =
      with_job state fd request.job_id
        (cancel_job state fd request.job_id (codes "ERR cannot cancel job\n"))
  handle_user_command ProtocolCommand.quit request =
      close_slot (respond state fd (codes "BYE\n")) slot
  handle_user_command ProtocolCommand.unknown request =
      respond state fd (codes "ERR unknown command\n")
  handle_user_command _ request = respond state fd (codes "ERR admin command\n")
