-- ===== src/Client/Payloads.antt =====
-- How src/server/server.c takes the two files of ENCODE_TEXT and ENCODE_FILE, as src/client/main.c
-- sends them.
use pcd.Prelude.{
  ℕ, ◌+◌, ◌^◌, ◌≤◌, ◌<◌, ◌≡◌, ◌≢◌, refl, sym, ap, ◌∙◌, arith, false, none, some, ◌++◌, Bytes, codes,
  length, c_string, ltb, get_or,
}
use pcd.Net.Left.{CanRead}
use pcd.Storage.{Files, storage_make_upload_path, max_job_path}
use pcd.Storage.Apart.{storage_make_upload_path-suffix}
use pcd.Job.{encode_text, encode_file}
use pcd.Server.Clients.{ClientSession, is_admin}
use pcd.Server.State.{
  ServerState, Surroundings, enqueue_job, receive_png_to_upload, receive_extra_to_file,
}
use pcd.Server.User.{
  handle_user_command, handle_encode_text, handle_encode_file, read_name, max_text_bytes,
  max_filename_bytes,
}
use pcd.Server.Loop.{handle_client_command, handle_request}
use pcd.Server.Framing.{
  Takes, receive_png_to_upload-Received, receive_extra_to_file-Received, read_name-Received,
}
use pcd.Client.{line_text, sent_line, encode_text_line, encode_file_line}
use pcd.Client.Commands.{meant}
use pcd.Client.Uploads.{line_taken, handle_client_command-line}

-- Both files are stored, and nothing else has changed.
pub record BothReceived (state after : ServerState) (fd : ℕ)
    (png_path extra_path png extra rest : Bytes) (more : ℕ) : Type 0 where
  pub png_stored : after.files png_path ≡ some png
  pub extra_stored : after.files extra_path ≡ some extra
  pub input : (after.connections fd).input ≡ rest
  pub jobs : after.jobs ≡ state.jobs
  pub queue : after.queue ≡ state.queue
  pub ready : CanRead (after.connections fd) more

txt_is_no_png : codes "txt" ≢ codes "png"
txt_is_no_png e =
    let head : ◌≡◌ {A = ℕ} b't' b'p' = ap (λ (l : Bytes). get_or l 0 0) e in absurd (omega arith)

-- A user's ENCODE_TEXT line with its PNG and its text behind it becomes one job on exactly these
-- two files: the server enqueues it in a state where one upload holds the PNG, the other the text,
-- and what follows them is still to be read, with jobs and queue as they were; for a PNG and a text
-- of the allowed sizes, a disk that takes them, and steady calls of read, one for each byte at most.
pub handle_client_command-encode_text :
    (env : Surroundings) (state : ServerState) (slot fd more : ℕ) (client : ClientSession)
    (png_path text_path png text rest : Bytes)
    → is_admin client.type ≡ false
    → 0 < length png
    → length png ≤ env.max_upload_bytes
    → length png < 2 ^ 64
    → 0 < length text
    → length text ≤ max_text_bytes
    → storage_make_upload_path env.dirs state.jobs.next_id (codes "png") max_job_path
      ≡ some png_path
    → storage_make_upload_path env.dirs state.jobs.next_id (codes "txt") max_job_path
      ≡ some text_path
    → Takes env.disk png_path
    → Takes env.disk text_path
    → CanRead (state.connections fd) (
        length (line_text (encode_text_line (length png) (length text)))
        + 1
        + (length png + (length text + more)))
    → (state.connections fd).input
      ≡ sent_line (encode_text_line (length png) (length text)) ++ (png ++ (text ++ rest))
    → (after : ServerState) × (handle_client_command env state slot fd client
        ≡ enqueue_job env after fd client.addr_str encode_text none
            (some png_path)
            (some text_path))
      × BothReceived state after fd png_path text_path png text rest more
unfolding meant handle_request handle_user_command handle_encode_text
handle_client_command-encode_text env state slot fd more client png_path text_path png text rest
      user some_png png_allowed png_small some_text text_allowed png_named text_named png_takes
      text_takes can sent =
    let line = encode_text_line (length png) (length text) in
    let (handled, left, ready) =
      handle_client_command-line env state slot fd (length png + (length text + more)) client line
        (png ++ (text ++ rest)) (png_small, omega (arith, text_allowed)) can sent in
    let taken = line_taken state fd in
    let (png_found, png_got) =
      receive_png_to_upload-Received env taken fd (length text + more) png_path png (text ++ rest)
        png_named png_takes some_png png_allowed ready left in
    let received = (receive_png_to_upload env taken fd (length png)).1 in
    let named : storage_make_upload_path env.dirs received.jobs.next_id (codes "txt") max_job_path
        ≡ some text_path =
      rw png_got.jobs text_named in
    let (text_found, text_got) =
      receive_extra_to_file-Received env received fd max_text_bytes received.jobs.next_id more
        (codes "text") (codes "txt") text_path text rest named text_takes some_text text_allowed
        png_got.ready png_got.input in
    let apart : text_path ≢ png_path = λ same. txt_is_no_png (
      storage_make_upload_path-suffix env.dirs state.jobs.next_id max_job_path max_job_path
        (codes "txt") (codes "png") text_path text_named (png_named ∙ ap some (sym same))) in
    let after =
      (receive_extra_to_file env received fd (length text) max_text_bytes (codes "text")
        received.jobs.next_id (codes "txt")).1 in
    (
      after,
      handled ∙ rw (user, handle_encode_text, png_found, text_found) refl,
      record {
        png_stored = text_got.others png_path apart ∙ png_got.stored;
        extra_stored = text_got.stored;
        input = text_got.input;
        jobs = text_got.jobs ∙ png_got.jobs;
        queue = text_got.queue ∙ png_got.queue;
        ready = text_got.ready;
      },
    )

data_is_no_png : codes "data" ≢ codes "png"
data_is_no_png e =
    let head : ◌≡◌ {A = ℕ} b'd' b'p' = ap (λ (l : Bytes). get_or l 0 0) e in absurd (omega arith)

-- A user's ENCODE_FILE line with its PNG, the name and the file behind it becomes one job with that
-- name on exactly these two files, and what follows them is still to be read, with jobs and queue
-- as they were: for a PNG and a file of the allowed sizes that are not empty, a name of 1 to 255
-- bytes without a terminator, a disk that takes the files, and steady calls of read, one for each
-- byte at most.
pub handle_client_command-encode_file :
    (env : Surroundings) (state : ServerState) (slot fd more : ℕ) (client : ClientSession)
    (png_path file_path png name file rest : Bytes)
    → is_admin client.type ≡ false
    → 0 < length png
    → length png ≤ env.max_upload_bytes
    → 0 < length name
    → length name ≤ max_filename_bytes
    → c_string name ≡ name
    → 0 < length file
    → length file ≤ env.max_upload_bytes
    → env.max_upload_bytes < 2 ^ 64
    → storage_make_upload_path env.dirs state.jobs.next_id (codes "png") max_job_path
      ≡ some png_path
    → storage_make_upload_path env.dirs state.jobs.next_id (codes "data") max_job_path
      ≡ some file_path
    → Takes env.disk png_path
    → Takes env.disk file_path
    → CanRead (state.connections fd) (
        length (line_text (encode_file_line (length png) (length name) (length file)))
        + 1
        + (length png + (length name + (length file + more))))
    → (state.connections fd).input
      ≡ sent_line (encode_file_line (length png) (length name) (length file))
        ++ (png ++ (name ++ (file ++ rest)))
    → (after : ServerState) × (handle_client_command env state slot fd client
        ≡ enqueue_job env after fd client.addr_str encode_file
            (some name)
            (some png_path)
            (some file_path))
      × BothReceived state after fd png_path file_path png file rest more
unfolding meant handle_request handle_user_command handle_encode_file
handle_client_command-encode_file env state slot fd more client png_path file_path png name file
      rest user some_png png_allowed some_name name_allowed name_text some_file file_allowed limited
      png_named file_named png_takes file_takes can sent =
    let line = encode_file_line (length png) (length name) (length file) in
    let (handled, left, ready) =
      handle_client_command-line env state slot fd
        (length png + (length name + (length file + more))) client line
        (png ++ (name ++ (file ++ rest)))
        (
          omega (arith, png_allowed, limited),
          omega (arith, name_allowed),
          omega (arith, file_allowed, limited),
        )
        can sent in
    let taken = line_taken state fd in
    let (png_found, png_got) =
      receive_png_to_upload-Received env taken fd (length name + (length file + more)) png_path png
        (name ++ (file ++ rest)) png_named png_takes some_png png_allowed ready left in
    let received = (receive_png_to_upload env taken fd (length png)).1 in
    let (name_found, name_left, name_ready, name_files, name_jobs, name_queue) =
      read_name-Received env taken received slot fd (length file + more) client.addr_str name
        (file ++ rest) some_name name_text png_got.ready png_got.input in
    let named = (read_name env taken slot fd client.addr_str received (length name)).1 in
    let file_named' : storage_make_upload_path env.dirs named.jobs.next_id (codes "data")
          max_job_path
        ≡ some file_path =
      rw (name_jobs, png_got.jobs) file_named in
    let (file_found, file_got) =
      receive_extra_to_file-Received env named fd env.max_upload_bytes named.jobs.next_id more
        (codes "file") (codes "data") file_path file rest file_named' file_takes some_file
        file_allowed name_ready name_left in
    let apart : file_path ≢ png_path = λ same. data_is_no_png (
      storage_make_upload_path-suffix env.dirs state.jobs.next_id max_job_path max_job_path
        (codes "data") (codes "png") file_path file_named (png_named ∙ ap some (sym same))) in
    let after =
      (receive_extra_to_file env named fd (length file) env.max_upload_bytes (codes "file")
        named.jobs.next_id (codes "data")).1 in
    let short : ltb max_filename_bytes (length name) ≡ false = ground (arith, name_allowed) in
    (
      after,
      handled ∙ rw (user, handle_encode_file, short, png_found, name_found, file_found) refl,
      record {
        png_stored =
            file_got.others png_path apart
            ∙ ap (λ (f : Files). f png_path) name_files
            ∙ png_got.stored;
        extra_stored = file_got.stored;
        input = file_got.input;
        jobs = file_got.jobs ∙ name_jobs ∙ png_got.jobs;
        queue = file_got.queue ∙ name_queue ∙ png_got.queue;
        ready = file_got.ready;
      },
    )
