-- ===== src/Client/SessionExamples.antt =====
-- The theorems on the sessions of src/client/main.c with src/server/server.c, at concrete inputs.
use pcd.Prelude.{
  base_name, base_from, ℕ, zero, suc, ◌+◌, ◌-◌, ◌^◌, ◌≤◌, ◌<◌, ◌≡◌, refl, arith, true, false,
  Option, none, some, List, [], ◌∷◌, ◌++◌, Bytes, bytes_eq, codes, length, replicate, decimal,
  c_string, if◌then◌else◌,
}
use pcd.Net.{IoCall, moves, Descriptor}
use pcd.Net.Reading.{IsSteady, rounds}
use pcd.Net.Left.{CanRead, CanWrite}
use pcd.Storage.{Files, default_dirs, storage_make_upload_path}
use pcd.Queue.{Heap, job_queue_init}
use pcd.Queue.Cells.{Chain, Distinct, last_address}
use pcd.Queue.Refinement.{Implements}
use pcd.Job.{
  Job, job_table_init, running, done, decode, encode_text, encode_file, new_job, is_active,
}
use pcd.Server.Clients.{no_session, is_admin}
use pcd.Server.State.{ServerState, Surroundings, enqueue_job}
use pcd.Server.User.{is_done, download, status_text}
use pcd.Server.Loop.{handle_client_command}
use pcd.Server.Enqueued.{Kept}
use pcd.Server.NewJob.{CanEnqueue, Enqueued, asked_job}
use pcd.Server.Framing.{Received}
use pcd.Server.Reachable.{start}
use pcd.Client.{ClientLine, sent_line, encode_text_line, encode_file_line}
use pcd.Client.Commands.{length-line_text}
use pcd.Client.Session.{
  ClientState, LocalDisk, send_text_request, download_result, wait_for_done, verdict, gave_up,
  mentions,
}
use pcd.Client.Main.{send_png_request, send_file_request}
use pcd.Client.Sending.{Readable, length-sent_line}
use pcd.Client.Uploads.{decoding, upload_line, upload_type}
use pcd.Client.Payloads.{BothReceived}
use pcd.Client.EndToEnd.{
  Room, send_png_request-handle_client_command, send_text_request-handle_client_command,
  send_file_request-handle_client_command,
}
use pcd.Client.Served.{Downloadable, answer_size, download_result-download}
use pcd.Client.Waiting.{status_texts, waited, wait_for_done-waited}

-- Calls that move a byte each.
abbrev calls : List IoCall
calls = replicate 500 (moves 1)

replicate-IsSteady : (n : ℕ) → IsSteady (replicate n (moves 1))
unfolding IsSteady
replicate-IsSteady zero = tt
replicate-IsSteady (suc n) = (omega arith, replicate-IsSteady n)

rounds-replicate : (n : ℕ) → rounds (replicate n (moves 1)) ≡ n
unfolding rounds
rounds-replicate zero = refl
rounds-replicate (suc n) = omega (arith, rounds-replicate n)

abbrev peer : Bytes → Descriptor
peer input = record { input = input; output = []; reads = calls; writes = calls }

peer-CanRead : (input : Bytes) (size : ℕ) → size ≤ 500 → CanRead (peer input) size
peer-CanRead input size small = record {
  steady = replicate-IsSteady 500;
  enough = omega (arith, rounds-replicate 500, small);
}

peer-CanWrite : (input : Bytes) (size : ℕ) → size ≤ 500 → CanWrite (peer input) size
peer-CanWrite input size small = record {
  steady = replicate-IsSteady 500;
  enough = omega (arith, rounds-replicate 500, small);
}

sent_line_short : (line : ClientLine) → length (sent_line line) ≤ 81
sent_line_short line = omega (arith, length-sent_line line, length-line_text line)

abbrev local_disk : LocalDisk
local_disk = record {
  can_seek = λ path. true;
  can_read = λ path. true;
  can_create = λ path. true;
  can_store = λ path n. true;
}

abbrev local_files : Files
local_files path =
    if bytes_eq path (codes "a.png")
    then some (codes "PNG")
    else if bytes_eq path (codes "d/s.bin")
    then some (codes "hidden")
    else none

abbrev user : ClientState
user = record { connection = peer []; files = local_files }

abbrev surroundings : Surroundings
surroundings = record {
  max_upload_bytes = 1000;
  disk = record {
    can_open = λ path. true;
    can_store = λ path n. true;
    can_close = λ path. true;
    can_read = λ path. true;
  };
  dirs = default_dirs;
  now = (5, 0);
  ready = true;
  node = some 10;
  average_ms = λ digits table. codes "0.0";
  duration = λ a b. codes "0.0";
}

abbrev no_nodes : Heap
no_nodes a = none

-- A server in which every client has sent the same.
abbrev server : Bytes → ServerState
server input =
    start no_nodes (λ fd. peer input)
      (λ path. if bytes_eq path (codes "out") then some (codes "result") else none)

a_png : Readable local_disk user (codes "a.png") (codes "PNG")
unfolding bytes_eq
a_png = record { found = refl; seeks = refl; reads = refl }

a_payload : Readable local_disk user (codes "d/s.bin") (codes "hidden")
unfolding bytes_eq
a_payload = record { found = refl; seeks = refl; reads = refl }

free_path :
    (input suffix path : Bytes)
    → storage_make_upload_path default_dirs 1 suffix 512 ≡ some path
    → Room surroundings (server input) suffix path
unfolding start job_table_init
free_path input suffix path e = record {
  named = e;
  takes = record { opens = refl; stores = λ n. refl; closes = refl };
}

abbrev png_path : Bytes
png_path = codes "storage/uploads/job_1.png"

png_named : storage_make_upload_path default_dirs 1 (codes "png") 512 ≡ some png_path
unfolding storage_make_upload_path default_dirs decimal pcd.Prelude.decimal_before
png_named = refl

txt_named :
    storage_make_upload_path default_dirs 1 (codes "txt") 512
    ≡ some (codes "storage/uploads/job_1.txt")
unfolding storage_make_upload_path default_dirs decimal pcd.Prelude.decimal_before
txt_named = refl

data_named :
    storage_make_upload_path default_dirs 1 (codes "data") 512
    ≡ some (codes "storage/uploads/job_1.data")
unfolding storage_make_upload_path default_dirs decimal pcd.Prelude.decimal_before
data_named = refl

-- What the client sends for `decode a.png out`.
abbrev sent_png : Bytes
sent_png =
    (send_png_request local_disk (upload_line decoding) (codes "a.png") user).1.connection.output

carried : (input : Bytes) → ((server input).connections 9).input ≡ input
unfolding start
carried input = refl

server-CanRead :
    (input : Bytes) (size : ℕ) → size ≤ 500 → CanRead ((server input).connections 9) size
unfolding start
server-CanRead input size small = peer-CanRead input size small

server-CanWrite :
    (input : Bytes) (size : ℕ) → size ≤ 500 → CanWrite ((server input).connections 9) size
unfolding start
server-CanWrite input size small = peer-CanWrite input size small

is_user : is_admin no_session.type ≡ false
unfolding is_admin
is_user = refl

-- The first job fits, at the address 10.
first_fits :
    (input : Bytes) → CanEnqueue surroundings (server input).jobs (server input).queue 10 []
unfolding start job_table_init job_queue_init Implements Chain Distinct last_address
first_fits input = record {
  ready = refl;
  room = omega arith;
  node = refl;
  free = refl;
  live = ([], record { chain = refl; tail = refl; distinct = tt }, refl, refl);
}

send_png_request-handle_client_command_example :
    (after : ServerState) × (handle_client_command surroundings (server sent_png) 0 9 no_session
      ≡ enqueue_job surroundings after 9 no_session.addr_str
          (upload_type decoding)
          none
          (some png_path)
          none)
    × Received (server sent_png) after 9 png_path (codes "PNG") [] 0
    × Kept 9 after (handle_client_command surroundings (server sent_png) 0 9 no_session)
    × Enqueued
        (server sent_png).jobs
        []
        (asked_job
          (5, 0)
          (server sent_png).jobs
          9
          no_session.addr_str
          (upload_type decoding)
          []
          png_path
          [])
        (handle_client_command surroundings (server sent_png) 0 9 no_session)
send_png_request-handle_client_command_example =
    send_png_request-handle_client_command local_disk user surroundings (server sent_png) 0 9
      no_session 10 [] decoding (codes "a.png") (codes "PNG") png_path a_png
      (peer-CanWrite [] (length (sent_line (upload_line decoding 3)) + 3)
        (omega (arith, sent_line_short (upload_line decoding 3))))
      refl (carried sent_png) is_user (omega arith) (omega arith) (omega arith)
      (free_path sent_png (codes "png") png_path png_named)
      (server-CanRead sent_png (length (sent_line (upload_line decoding 3)) + 3)
        (omega (arith, sent_line_short (upload_line decoding 3))))
      (first_fits sent_png)

-- What the client sends for `encode-text a.png hello out`.
abbrev sent_text : Bytes
sent_text = (send_text_request local_disk (codes "a.png") (codes "hello") user).1.connection.output

send_text_request-handle_client_command_example :
    (after : ServerState) × (handle_client_command surroundings (server sent_text) 0 9 no_session
      ≡ enqueue_job surroundings after 9 no_session.addr_str encode_text none
          (some png_path)
          (some (codes "storage/uploads/job_1.txt")))
    × BothReceived
        (server sent_text)
        after
        9
        png_path
        (codes "storage/uploads/job_1.txt")
        (codes "PNG")
        (codes "hello")
        []
        0
    × Kept 9 after (handle_client_command surroundings (server sent_text) 0 9 no_session)
    × Enqueued
        (server sent_text).jobs
        []
        (asked_job
          (5, 0)
          (server sent_text).jobs
          9
          no_session.addr_str
          encode_text
          []
          png_path
          (codes "storage/uploads/job_1.txt"))
        (handle_client_command surroundings (server sent_text) 0 9 no_session)
send_text_request-handle_client_command_example =
    send_text_request-handle_client_command local_disk user surroundings (server sent_text) 0 9
      no_session 10 [] (codes "a.png") (codes "PNG") (codes "hello") png_path
      (codes "storage/uploads/job_1.txt") a_png
      (peer-CanWrite [] (length (sent_line (encode_text_line 3 5)) + 8)
        (omega (arith, sent_line_short (encode_text_line 3 5))))
      refl (carried sent_text) is_user (omega arith) (omega arith) (omega arith) (omega arith)
      (omega arith) (free_path sent_text (codes "png") png_path png_named)
      (free_path sent_text (codes "txt") (codes "storage/uploads/job_1.txt") txt_named)
      (server-CanRead sent_text (length (sent_line (encode_text_line 3 5)) + 8)
        (omega (arith, sent_line_short (encode_text_line 3 5))))
      (first_fits sent_text)

-- What the client sends for `encode-file a.png d/s.bin out`.
abbrev sent_file : Bytes
sent_file =
    (send_file_request local_disk (codes "a.png") (codes "d/s.bin") user).1.connection.output

send_file_request-handle_client_command_example :
    (after : ServerState) × (handle_client_command surroundings (server sent_file) 0 9 no_session
      ≡ enqueue_job surroundings after 9 no_session.addr_str encode_file
          (some (base_name (codes "d/s.bin")))
          (some png_path)
          (some (codes "storage/uploads/job_1.data")))
    × BothReceived
        (server sent_file)
        after
        9
        png_path
        (codes "storage/uploads/job_1.data")
        (codes "PNG")
        (codes "hidden")
        []
        0
    × Kept 9 after (handle_client_command surroundings (server sent_file) 0 9 no_session)
    × Enqueued
        (server sent_file).jobs
        []
        (asked_job
          (5, 0)
          (server sent_file).jobs
          9
          no_session.addr_str
          encode_file
          (base_name (codes "d/s.bin"))
          png_path
          (codes "storage/uploads/job_1.data"))
        (handle_client_command surroundings (server sent_file) 0 9 no_session)
unfolding base_name base_from c_string
send_file_request-handle_client_command_example =
    send_file_request-handle_client_command local_disk user surroundings (server sent_file) 0 9
      no_session 10 [] (codes "a.png") (codes "d/s.bin") (codes "PNG") (codes "hidden") png_path
      (codes "storage/uploads/job_1.data") a_png a_payload
      (peer-CanWrite [] (length (sent_line (encode_file_line 3 5 6)) + 14)
        (omega (arith, sent_line_short (encode_file_line 3 5 6))))
      refl (carried sent_file) is_user (omega arith) (omega arith) (omega arith) (omega arith) refl
      (omega arith) (omega arith) (omega arith)
      (free_path sent_file (codes "png") png_path png_named)
      (free_path sent_file (codes "data") (codes "storage/uploads/job_1.data") data_named)
      (server-CanRead sent_file (length (sent_line (encode_file_line 3 5 6)) + 14)
        (omega (arith, sent_line_short (encode_file_line 3 5 6))))
      (first_fits sent_file)

abbrev job : Job
job = new_job 1 (5, 0) 9 none decode none none

abbrev finished_job : Job
finished_job = record job { state = done; output_path = codes "out" }

abbrev downloader : ClientState
downloader = record user {
  connection = peer ((download surroundings (server []) 0 9 [] finished_job).connections 9).output;
}

can_download : Downloadable surroundings (server []) finished_job (codes "result")
unfolding start is_done bytes_eq
can_download = record { finished = refl; named = refl; found = refl; readable = refl }

nothing_sent : ((server []).connections 9).output ≡ []
unfolding start
nothing_sent = refl

answer_short : answer_size (codes "result") ≤ 500
unfolding decimal pcd.Prelude.decimal_before
answer_short = omega arith

download_result-download_example :
    ((download_result local_disk 1 (codes "mine") downloader).0 ≡ some tt)
    × ((download_result local_disk 1 (codes "mine") downloader).1.files (codes "mine")
        ≡ some (codes "result"))
    × ((download_result local_disk 1 (codes "mine") downloader).1.connection.input ≡ [])
download_result-download_example =
    download_result-download surroundings (server []) 0 9 [] finished_job local_disk downloader 1
      (codes "mine") (codes "result") can_download
      (server-CanWrite [] (answer_size (codes "result")) answer_short) nothing_sent refl
      (omega arith) refl (λ n. refl)
      (peer-CanRead downloader.connection.input (answer_size (codes "result")) answer_short)
      (peer-CanWrite downloader.connection.input 30 (omega arith))

-- The job is running, and then it is done.
abbrev waiting : ClientState
waiting = record user {
  connection =
      peer
        (status_texts 1 (record job { state = running } ∷ []) (status_text 1 finished_job ++ []));
}

wait_for_done-waited_example :
    ((wait_for_done 1 waiting).0 ≡ waited done)
    × ((wait_for_done 1 waiting).1.connection.input ≡ [])
unfolding is_active
wait_for_done-waited_example =
    wait_for_done-waited (record job { state = running } ∷ []) 1 waiting finished_job []
      (omega arith) (refl, tt) refl (peer-CanRead waiting.connection.input 82 (omega arith))
      (peer-CanWrite waiting.connection.input 60 (omega arith)) refl

-- An answer to STATUS as the client reads it.
reads_failed : verdict (codes "STATUS 3 FAILED\n") ≡ gave_up
unfolding verdict mentions pcd.Client.behind_first pcd.Protocol.starts_with
reads_failed = refl
