-- ===== src/Client/EndToEnd.antt =====
-- A request of src/client/main.c as src/server/server.c takes it: what the client writes is what the
-- server reads.
use pcd.Prelude.{
  base_name, ℕ, ◌+◌, ◌^◌, ◌≤◌, ◌<◌, ◌≡◌, sym, ap, ◌∙◌, arith, false, none, some, List, [], ◌++◌,
  append-nil, Bytes, codes, length, subst, c_string,
}
use pcd.Net.Left.{CanRead, CanWrite}
use pcd.Storage.{storage_make_upload_path, max_job_path}
use pcd.Storage.Paths.{storage_make_upload_path-lt}
use pcd.Job.{encode_text, encode_file}
use pcd.Server.Clients.{ClientSession, is_admin}
use pcd.Server.State.{ServerState, Surroundings, enqueue_job}
use pcd.Server.User.{max_text_bytes, max_filename_bytes}
use pcd.Server.Loop.{handle_client_command}
use pcd.Server.Enqueued.{Kept, enqueue_job-Kept}
use pcd.Server.NewJob.{CanEnqueue, Enqueued, asked_job, enqueue_job-Enqueued_behind}
use pcd.Server.Framing.{Takes, Received}
use pcd.Client.{sent_line, encode_text_line, encode_file_line}
use pcd.Client.Session.{ClientState, LocalDisk, send_text_request}
use pcd.Client.Main.{send_png_request, send_file_request}
use pcd.Client.Sending.{
  Readable, length-sent_line, send_png_request-Wrote, send_text_request-Wrote,
  send_file_request-Wrote,
}
use pcd.Client.Uploads.{UploadCommand, upload_line, upload_type, handle_client_command-upload}
use pcd.Client.Payloads.{
  BothReceived, handle_client_command-encode_text, handle_client_command-encode_file,
}

-- The server has the upload path free for the next job, and its disk takes the file.
pub record Room (env : Surroundings) (state : ServerState) (suffix path : Bytes) : Type 0 where
  pub named : storage_make_upload_path env.dirs state.jobs.next_id suffix max_job_path ≡ some path
  pub takes : Takes env.disk path

module _ (disk : LocalDisk) (s : ClientState) (env : Surroundings) (state : ServerState)
    (slot fd : ℕ) (client : ClientSession) (a : ℕ) (waiting : List ℕ) where
  -- What a client with nothing unread sends for `decode`, `validate` or `capacity` makes the server
  -- enqueue one job of that kind on a file with exactly the bytes of the client's PNG, and leaves
  -- nothing unread: the table has one job more, with the next number, the client as its owner and
  -- the path of that file, and the queue has it behind the jobs that were waiting. This holds for a
  -- user, a PNG that the client can read, of the size allowed and not empty, a server's disk that
  -- takes it, calls of read and write that do not fail, one for each byte at most, and room for the
  -- job: fewer than 1024 in the table, memory at hand, and a queue that is not stopped.
  pub send_png_request-handle_client_command :
      (command : UploadCommand) (png_in png path : Bytes)
      → Readable disk s png_in png
      → CanWrite s.connection (length (sent_line (upload_line command (length png))) + length png)
      → s.connection.output ≡ []
      → (state.connections fd).input
        ≡ (send_png_request disk (upload_line command) png_in s).1.connection.output
      → is_admin client.type ≡ false
      → 0 < length png
      → length png ≤ env.max_upload_bytes
      → length png < 2 ^ 64
      → Room env state (codes "png") path
      → CanRead
          (state.connections fd)
          (length (sent_line (upload_line command (length png))) + length png)
      → CanEnqueue env state.jobs state.queue a waiting
      → (after : ServerState) × (handle_client_command env state slot fd client
          ≡ enqueue_job env after fd client.addr_str (upload_type command) none (some path) none)
        × Received state after fd path png [] 0
        × Kept fd after (handle_client_command env state slot fd client)
        × Enqueued state.jobs waiting
            (asked_job env.now state.jobs fd client.addr_str (upload_type command) [] path [])
            (handle_client_command env state slot fd client)
  send_png_request-handle_client_command command png_in png path file can_write fresh carried user
        some_bytes allowed small room can_read can_enqueue =
      let line = upload_line command (length png) in
      let text = sent_line line in
      let wrote =
        send_png_request-Wrote disk s (upload_line command) png_in png 0 file
          (subst (CanWrite s.connection) (omega arith) can_write) in
      let sent : (state.connections fd).input ≡ text ++ (png ++ []) =
        carried
        ∙ wrote.sent.output
        ∙ ap (λ (o : Bytes). o ++ (text ++ png)) fresh
        ∙ ap (◌++◌ text) (sym (append-nil png)) in
      let (after, handled, got) =
        handle_client_command-upload env state slot fd 0 client command path png [] user some_bytes
          allowed small room.named room.takes
          (subst (CanRead (state.connections fd)) (omega (arith, length-sent_line line)) can_read)
          sent in
      (
        after,
        handled,
        got,
        subst (Kept fd after) (sym handled) (
            enqueue_job-Kept env after fd client.addr_str (upload_type command) none (some path)
              none),
        enqueue_job-Enqueued_behind env state after (handle_client_command env state slot fd client)
            fd client.addr_str (upload_type command) none (some path) none a waiting handled
            got.jobs got.queue can_enqueue (omega arith)
            (storage_make_upload_path-lt env.dirs (codes "png") path state.jobs.next_id max_job_path
              room.named)
            (omega arith),
      )

  -- What a client with nothing unread sends for `encode-text` makes the server enqueue one job on two
  -- files with exactly the bytes of the client's PNG and of the text, and leaves nothing unread: the
  -- table has one job more, with the next number, the client as its owner and the paths of the two
  -- files, and the queue has it behind the jobs that were waiting. This holds for a user, a PNG that
  -- the client can read, a PNG and a text of the sizes allowed that are not empty, a server's disk
  -- that takes both, calls of read and write that do not fail, one for each byte at most, and room
  -- for the job: fewer than 1024 in the table, memory at hand, and a queue that is not stopped.
  pub send_text_request-handle_client_command :
      (png_in png text png_path text_path : Bytes)
      → Readable disk s png_in png
      → CanWrite s.connection (
          length (sent_line (encode_text_line (length png) (length text)))
          + (length png + length text))
      → s.connection.output ≡ []
      → (state.connections fd).input ≡ (send_text_request disk png_in text s).1.connection.output
      → is_admin client.type ≡ false
      → 0 < length png
      → length png ≤ env.max_upload_bytes
      → length png < 2 ^ 64
      → 0 < length text
      → length text ≤ max_text_bytes
      → Room env state (codes "png") png_path
      → Room env state (codes "txt") text_path
      → CanRead (state.connections fd) (
          length (sent_line (encode_text_line (length png) (length text)))
          + (length png + length text))
      → CanEnqueue env state.jobs state.queue a waiting
      → (after : ServerState) × (handle_client_command env state slot fd client
          ≡ enqueue_job env after fd client.addr_str encode_text none
              (some png_path)
              (some text_path))
        × BothReceived state after fd png_path text_path png text [] 0
        × Kept fd after (handle_client_command env state slot fd client)
        × Enqueued state.jobs waiting
            (asked_job env.now state.jobs fd client.addr_str encode_text [] png_path text_path)
            (handle_client_command env state slot fd client)
  send_text_request-handle_client_command png_in png text png_path text_path file can_write fresh
        carried user some_png png_allowed small some_text text_allowed png_room text_room can_read
        can_enqueue =
      let line = encode_text_line (length png) (length text) in
      let wrote =
        send_text_request-Wrote disk s png_in png text 0 file
          (subst (CanWrite s.connection) (omega arith) can_write) in
      let sent : (state.connections fd).input ≡ sent_line line ++ (png ++ (text ++ [])) =
        carried
        ∙ wrote.sent.output
        ∙ ap (λ (o : Bytes). o ++ (sent_line line ++ (png ++ text))) fresh
        ∙ ap (λ (t : Bytes). sent_line line ++ (png ++ t)) (sym (append-nil text)) in
      let (after, handled, got) =
        handle_client_command-encode_text env state slot fd 0 client png_path text_path png text []
          user some_png png_allowed small some_text text_allowed png_room.named text_room.named
          png_room.takes text_room.takes
          (subst (CanRead (state.connections fd)) (omega (arith, length-sent_line line)) can_read)
          sent in
      (
        after,
        handled,
        got,
        subst (Kept fd after) (sym handled) (
            enqueue_job-Kept env after fd client.addr_str encode_text none (some png_path)
              (some text_path)),
        enqueue_job-Enqueued_behind env state after (handle_client_command env state slot fd client)
            fd client.addr_str encode_text none (some png_path) (some text_path) a waiting handled
            got.jobs got.queue can_enqueue (omega arith)
            (storage_make_upload_path-lt env.dirs (codes "png") png_path state.jobs.next_id
              max_job_path png_room.named)
            (storage_make_upload_path-lt env.dirs (codes "txt") text_path state.jobs.next_id
              max_job_path text_room.named),
      )

  -- What a client with nothing unread sends for `encode-file` makes the server enqueue one job under
  -- the name of the payload on two files with exactly the bytes of the client's PNG and payload, and
  -- leaves nothing unread: the table has one job more, with the next number, the client as its owner,
  -- that name and the paths of the two files, and the queue has it behind the jobs that were waiting.
  -- This holds for a user, files that the client can read, of the sizes allowed and not empty, a name
  -- of 1 to 255 bytes without a terminator, a server's disk that takes both files, calls of read and
  -- write that do not fail, one for each byte at most, and room for the job: fewer than 1024 in the
  -- table, memory at hand, and a queue that is not stopped.
  pub send_file_request-handle_client_command :
      (png_in file_in png file png_path file_path : Bytes)
      → Readable disk s png_in png
      → Readable disk s file_in file
      → CanWrite s.connection (
          length
            (sent_line (encode_file_line (length png) (length (base_name file_in)) (length file)))
          + (length png + (length (base_name file_in) + length file)))
      → s.connection.output ≡ []
      → (state.connections fd).input ≡ (send_file_request disk png_in file_in s).1.connection.output
      → is_admin client.type ≡ false
      → 0 < length png
      → length png ≤ env.max_upload_bytes
      → 0 < length (base_name file_in)
      → length (base_name file_in) ≤ max_filename_bytes
      → c_string (base_name file_in) ≡ base_name file_in
      → 0 < length file
      → length file ≤ env.max_upload_bytes
      → env.max_upload_bytes < 2 ^ 64
      → Room env state (codes "png") png_path
      → Room env state (codes "data") file_path
      → CanRead (state.connections fd) (
          length
            (sent_line (encode_file_line (length png) (length (base_name file_in)) (length file)))
          + (length png + (length (base_name file_in) + length file)))
      → CanEnqueue env state.jobs state.queue a waiting
      → (after : ServerState) × (handle_client_command env state slot fd client
          ≡ enqueue_job env after fd client.addr_str encode_file
              (some (base_name file_in))
              (some png_path)
              (some file_path))
        × BothReceived state after fd png_path file_path png file [] 0
        × Kept fd after (handle_client_command env state slot fd client)
        × Enqueued state.jobs waiting
            (asked_job env.now state.jobs fd client.addr_str encode_file
              (base_name file_in)
              png_path
              file_path)
            (handle_client_command env state slot fd client)
  send_file_request-handle_client_command png_in file_in png file png_path file_path carrier payload
        can_write fresh carried user some_png png_allowed some_name name_allowed name_text some_file
        file_allowed limited png_room file_room can_read can_enqueue =
      let name = base_name file_in in
      let line = encode_file_line (length png) (length name) (length file) in
      let wrote =
        send_file_request-Wrote disk s png_in file_in png file 0 carrier payload
          (subst (CanWrite s.connection) (omega arith) can_write) in
      let sent : (state.connections fd).input ≡ sent_line line ++ (png ++ (name ++ (file ++ []))) =
        carried
        ∙ wrote.sent.output
        ∙ ap (λ (o : Bytes). o ++ (sent_line line ++ (png ++ (name ++ file)))) fresh
        ∙ ap (λ (t : Bytes). sent_line line ++ (png ++ (name ++ t))) (sym (append-nil file)) in
      let (after, handled, got) =
        handle_client_command-encode_file env state slot fd 0 client png_path file_path png name
          file [] user some_png png_allowed some_name name_allowed name_text some_file file_allowed
          limited png_room.named file_room.named png_room.takes file_room.takes
          (subst (CanRead (state.connections fd)) (omega (arith, length-sent_line line)) can_read)
          sent in
      (
        after,
        handled,
        got,
        subst (Kept fd after) (sym handled) (
            enqueue_job-Kept env after fd client.addr_str encode_file (some name) (some png_path)
              (some file_path)),
        enqueue_job-Enqueued_behind env state after (handle_client_command env state slot fd client)
            fd client.addr_str encode_file (some name) (some png_path) (some file_path) a waiting
            handled got.jobs got.queue can_enqueue (omega (arith, name_allowed))
            (storage_make_upload_path-lt env.dirs (codes "png") png_path state.jobs.next_id
              max_job_path png_room.named)
            (storage_make_upload_path-lt env.dirs (codes "data") file_path state.jobs.next_id
              max_job_path file_room.named),
      )
