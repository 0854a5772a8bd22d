-- ===== src/Client/Uploads.antt =====
-- How src/server/server.c takes what src/client/main.c sends: a command line with the files behind it.
use pcd.Prelude.{
  ℕ, ◌+◌, ◌^◌, ◌≤◌, ◌<◌, ◌≡◌, refl, sym, ap, ◌∙◌, arith, false, none, some, [], ◌∷◌, ◌++◌,
  append_assoc, Bytes, codes, length, length-append, ◌==◌, All, c_string, subst,
}
use pcd.Net.{Descriptor, read_line}
use pcd.Net.Reading.{read_line_lem}
use pcd.Net.Left.{CanRead, CanRead-Spent, read_line-Spent}
use pcd.Storage.{storage_make_upload_path, max_job_path}
use pcd.Job.{JobType, validate_image, analyze_capacity, decode}
use pcd.Protocol.{ProtocolRequest, protocol_parse_line}
use pcd.Server.Clients.{ClientSession, is_admin}
use pcd.Server.State.{
  ServerState, Surroundings, buffer_size, set_connection, enqueue_job, receive_png_to_upload,
}
use pcd.Server.User.{handle_user_command, upload_job}
use pcd.Server.Loop.{handle_client_command, handle_request}
use pcd.Server.Framing.{Takes, Received, receive_png_to_upload-Received, set_connection_lem}
use pcd.Client.{ClientLine, line_text, sent_line, decode_line, validate_line, capacity_line}
use pcd.Client.Commands.{InRange, meant, protocol_parse_line-sent_line, length-line_text}
use pcd.Client.Lines.{Plain, Plain-newline, c_string-line, line_text-Plain}

-- The server when it has read a line from the connection.
abbrev pub line_taken : ServerState → ℕ → ServerState
line_taken state fd = set_connection state fd (read_line (state.connections fd) buffer_size).1

-- A line is handled as the request it is parsed as, behind what it leaves of the input.
pub handle_client_command-request :
    (env : Surroundings) (state : ServerState) (slot fd more : ℕ) (client : ClientSession)
    (text rest : Bytes) (request : ProtocolRequest)
    → All Plain text
    → length text + 1 < buffer_size
    → protocol_parse_line (text ++ (b'\n' ∷ [])) ≡ request
    → CanRead (state.connections fd) (length text + 1 + more)
    → (state.connections fd).input ≡ text ++ (b'\n' ∷ rest)
    → (handle_client_command env state slot fd client
        ≡ handle_request env (line_taken state fd) slot fd client request)
      × (((line_taken state fd).connections fd).input ≡ rest)
      × CanRead ((line_taken state fd).connections fd) more
unfolding handle_client_command
handle_client_command-request env state slot fd more client text rest request plain short parsed can
      sent =
    let no_newline = Plain-newline text plain in
    let (found, left) =
      read_line_lem (state.connections fd) buffer_size text rest can.steady
        (omega (arith, can.enough)) short no_newline sent in
    let spent =
      read_line-Spent (state.connections fd) buffer_size text rest can.steady
        (omega (arith, can.enough)) short no_newline sent in
    let connection = (read_line (state.connections fd) buffer_size).1 in
    let same = set_connection_lem state fd connection in
    let some_text : (length (text ++ (b'\n' ∷ [])) == 0) ≡ false =
      ground (arith, length-append text (b'\n' ∷ [])) in
    let meaning : protocol_parse_line (c_string (text ++ (b'\n' ∷ []))) ≡ request =
      ap protocol_parse_line (c_string-line text plain) ∙ parsed in
    (
      rw (handle_client_command, found, some_text, meaning) refl,
      ap (λ (d : Descriptor). d.input) same ∙ left,
      subst (λ (d : Descriptor). CanRead d more) (sym same)
          (CanRead-Spent (state.connections fd) connection (length text + 1) more can spent),
    )

-- A line of the client is handled as the request it means.
pub handle_client_command-line :
    (env : Surroundings) (state : ServerState) (slot fd more : ℕ) (client : ClientSession)
    (line : ClientLine) (rest : Bytes)
    → InRange line
    → CanRead (state.connections fd) (length (line_text line) + 1 + more)
    → (state.connections fd).input ≡ sent_line line ++ rest
    → (handle_client_command env state slot fd client
        ≡ handle_request env (line_taken state fd) slot fd client (meant line))
      × (((line_taken state fd).connections fd).input ≡ rest)
      × CanRead ((line_taken state fd).connections fd) more
unfolding sent_line
handle_client_command-line env state slot fd more client line rest in_range can sent =
    let text = line_text line in
    handle_client_command-request env state slot fd more client text rest (meant line)
      (line_text-Plain line) (omega (arith, length-line_text line))
      (protocol_parse_line-sent_line line in_range) can (sent ∙ append_assoc text (b'\n' ∷ []) rest)

-- The commands with one file behind them.
pub data UploadCommand : Type 0 where
  decoding validating measuring : UploadCommand

unfoldable pub upload_line : UploadCommand → ℕ → ClientLine
upload_line decoding png_size = decode_line png_size
upload_line validating png_size = validate_line png_size
upload_line measuring png_size = capacity_line png_size

unfoldable pub upload_type : UploadCommand → JobType
upload_type decoding = decode
upload_type validating = validate_image
upload_type measuring = analyze_capacity

upload_line-InRange :
    (command : UploadCommand) (size : ℕ) → size < 2 ^ 64 → InRange (upload_line command size)
unfolding upload_line
upload_line-InRange decoding size small = small
upload_line-InRange validating size small = small
upload_line-InRange measuring size small = small

handle_request-upload :
    (env : Surroundings) (state : ServerState) (slot fd : ℕ) (client : ClientSession)
    (command : UploadCommand) (size : ℕ)
    → is_admin client.type ≡ false
    → handle_request env state slot fd client (meant (upload_line command size))
      ≡ upload_job env state slot fd client.addr_str size (upload_type command)
unfolding upload_line upload_type meant handle_request handle_user_command
handle_request-upload env state slot fd client decoding size user = rw user refl
handle_request-upload env state slot fd client validating size user = rw user refl
handle_request-upload env state slot fd client measuring size user = rw user refl

-- A user's DECODE, VALIDATE or CAPACITY line with its PNG behind it becomes one job on exactly that
-- file: the server enqueues it in a state where the upload holds the PNG and what follows the file
-- is still to be read, with jobs and queue as they were; for a PNG of the allowed size, a disk that
-- takes it, and steady calls of read, one for each byte at most.
pub handle_client_command-upload :
    (env : Surroundings) (state : ServerState) (slot fd more : ℕ) (client : ClientSession)
    (command : UploadCommand) (path png rest : Bytes)
    → is_admin client.type ≡ false
    → 0 < length png
    → length png ≤ env.max_upload_bytes
    → length png < 2 ^ 64
    → storage_make_upload_path env.dirs state.jobs.next_id (codes "png") max_job_path ≡ some path
    → Takes env.disk path
    → CanRead
        (state.connections fd)
        (length (line_text (upload_line command (length png))) + 1 + (length png + more))
    → (state.connections fd).input ≡ sent_line (upload_line command (length png)) ++ (png ++ rest)
    → (after : ServerState) × (handle_client_command env state slot fd client
        ≡ enqueue_job env after fd client.addr_str (upload_type command) none (some path) none)
      × Received state after fd path png rest more
unfolding upload_job
handle_client_command-upload env state slot fd more client command path png rest user some_bytes
      allowed small named takes can sent =
    let size = length png in
    let line = upload_line command size in
    let (handled, left, ready) =
      handle_client_command-line env state slot fd (size + more) client line (png ++ rest)
        (upload_line-InRange command size small) can sent in
    let taken = line_taken state fd in
    let (path_found, got) =
      receive_png_to_upload-Received env taken fd more path png rest named takes some_bytes allowed
        ready left in
    (
      (receive_png_to_upload env taken fd size).1,
      handled
          ∙ handle_request-upload env taken slot fd client command size user
          ∙ rw (upload_job, path_found) refl,
      record {
        input = got.input;
        stored = got.stored;
        others = got.others;
        jobs = got.jobs;
        queue = got.queue;
        ready = got.ready;
      },
    )
