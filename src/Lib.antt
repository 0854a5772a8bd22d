-- ===== src/Lib.antt =====
-- PCD is a server, written in C, that hides texts and files in PNG images and finds them again.
-- Clients send commands and files over TCP; the poll loop of src/server/server.c parses a
-- command, stores the file, and creates a job in the job table; worker threads take jobs from
-- the job queue, run the steganography, and report back through a pipe. This library models the
-- parts below as pure functions with explicit state, and states what makes each correct.
--
-- - Stego: src/server/stego.c. Stego.antt has the pixel loops (embed_bits, extract_bits and the
--   capacity), Stego/Crc.antt the checksum, Stego/Container.antt the big-endian words and
--   build_container, Stego/Png.antt loading and saving over libpng, Stego/Codec.antt the public
--   functions. Stego/Pixels.antt, Stego/Slots.antt, Stego/Shape.antt and Stego/Embedding.antt
--   have the proofs about the loops: Slots gives the flat list of the bytes that carry data.
--   Stego/Invisible.antt has what embedding leaves as it was, and Stego/Codec/Fits.antt the
--   reported capacity. Stego/Codec/Parts.antt and Stego/Codec/RoundTrip.antt go from an encoded
--   image back to the payload, Stego/Codec/Loading.antt has what the loader guarantees, and
--   Stego/Codec/Transfer.antt goes the whole way through files. Stego/Toy.antt is a small
--   platform on which the hypotheses about libpng hold.
-- - Queue: src/server/queue.c. The linked list with its head and tail pointers over an explicit
--   heap of nodes. Queue/Cells.antt and Queue/Represents.antt relate it to a list of cells,
--   Queue/Refinement.antt to a first-in first-out queue, and Queue/Destroy.antt follows the loop
--   that frees the nodes.
-- - Job: src/server/job.c and include/job.h. Job.antt has the job and its operations,
--   Job/Table.antt the numbering and lookup, Job/Report.antt the operations over the whole
--   table, Job/Cancel.antt the request to stop the jobs of an owner, which no other part calls
--   yet, Job/History.antt the list of finished jobs and the fields copied into a buffer,
--   Job/Recent.antt which jobs that list has, and Job/Fields.antt the other fields that are read.
-- - Net: src/server/net.c, the loops read_exact, discard_exact, read_line and write_all. A
--   descriptor has the bytes that the peer sent, and the outcome of each call of read and write,
--   so that a loop ends with its outcomes. Net/Reading.antt and Net/Writing.antt follow the
--   loops for calls that do not fail, and Net/Left.antt has what they leave of the calls, so
--   that loops can follow each other. The listening sockets of net.c are in Server/Startup.antt.
-- - Storage: src/server/storage.c. Storage.antt has the directories, the paths of files, and the
--   loops that receive and send a file over the parameter Disk; Storage/Paths.antt has the
--   proofs about the paths, Storage/Transfer.antt and Storage/Left.antt about the loops,
--   Storage/Apart.antt about the files of one job; Storage/Copying.antt has the reading of a
--   file and the copy into the uploads.
-- - Protocol: src/server/protocol.c and include/protocol.h, the parser of command lines, with
--   strtoull in Protocol/Number.antt.
-- - Client: src/client/main.c. Client.antt has its command lines and the job number it reads,
--   Client/Session.antt the state (the connection and the files of the client's machine) with a
--   small monad for the steps, the transfers and the wait, and Client/Main.antt the commands and
--   main. Client/Lines.antt and Client/Commands.antt read the lines with the server's parser,
--   Client/Answers.antt, Client/Replies.antt and Client/Verdicts.antt the server's answers.
--   Client/Requests.antt and Client/Sending.antt follow what is written, Client/Uploads.antt and
--   Client/Payloads.antt what the server makes of it, and Client/EndToEnd.antt joins the two;
--   Client/Downloads.antt and Client/Served.antt do the same for a download, and
--   Client/Waiting.antt for the wait.
-- - Console: src/admin/main.c, the administrator's menu. Console/Input.antt has how typed lines
--   are read, Console/Commands.antt goes from what is typed to what the server does.
-- - Logger: src/server/logger.c, the log file and its lines; Logger/Directories.antt has the
--   proofs about the directories above it.
-- - PngUtils: src/server/png_utils.c, the metadata of a PNG file and the estimate of its
--   capacity.
-- - Worker: src/server/worker.c. Worker.antt has the work on each kind of job and the body of
--   the loop of worker_main (run_job); requests to stop that arrive meanwhile are an argument.
--   Worker/Outcome.antt follows a job to its end, Worker/Thread.antt has the loop over queue and
--   table, Worker/RoundTrip.antt a text through two jobs.
-- - Server: src/server/server.c and include/server.h. Server/Blocklist.antt has the blocked
--   addresses, Server/Clients.antt the sessions, Server/State.antt the state, the answers and
--   the uploads, Server/User.antt and Server/Admin.antt the commands, Server/Loop.antt accepting
--   connections and the events of the poll loop. Server/Sessions.antt and Server/Admins.antt
--   have the proofs about sessions, Server/Blocking.antt what blocking an address does,
--   Server/Invariant.antt with its children the invariant of the state, Server/Inotify.antt the
--   texts about watched directories, Server/Framing.antt how the files behind a command are
--   taken from the connection, Server/Enqueued.antt what an answer and a new job leave as it was,
--   Server/NewJob.antt the job that enqueue_job creates, Server/Startup.antt with its children
--   the start and the end of server_run: Startup/Run.antt has what the loop does to the
--   descriptors of sessions, the array for poll and the cleanup, Startup/Stages.antt,
--   Startup/Opened.antt and Startup/Held.antt follow the descriptors, and Startup/Released.antt
--   and Startup/Polling.antt join them. What the loop does to descriptors is a list of events of
--   its own there; Startup/Agreement.antt compares it with the handlers of Server/Loop.antt.
--   Server/Pipe.antt has the events of the workers, Server/Watching.antt those of the watched
--   directories, and Server/Reachable.antt the steps of the loop and of the workers in any order.
-- - RuntimeConfig: src/server/runtime_config.c, include/runtime_config.h and the start of
--   src/server/main.c, the configuration from its four sources; RuntimeConfig/Workers.antt
--   bounds the number of workers.
-- - Prelude: the shared names, lists over the native numbers, bytes and words, decimal text, and
--   laws of the bit operations.
--
-- Machine integers are native numbers with the remainder by 2 ^ w written out where the source
-- can wrap. libpng, the allocator and the file system are the parameter Platform of
-- Stego/Png.antt; what is relied on is stated by IsLibpng and HasMemory of
-- Stego/Codec/Loading.antt: PNG is lossless at 8 bits, a row has rowbytes bytes, and a side is
-- at most 1,000,000, which bounds every size below 2 ^ 64. A mutex makes an operation of the
-- queue or the table one step. The loop that frees a queue runs on fuel, one unit for each node,
-- the loops that send or copy a file on one unit for each chunk and one more, the loop that
-- saves a download on one unit for each byte, the wait on the 120 rounds of the source, and
-- decimal text on twenty digits, enough for 64 bits.
--
-- Not modelled: opening the connection in the two clients, whose outcome is an argument; what the
-- clients print, the pauses between two polls, and the child process that archives the logs,
-- whose outcome is an argument; what runtime_config.c prints and logs. The average duration of
-- jobs, a floating-point number, is left out, and its text and the text of a duration are
-- parameters.
pub mod Prelude
pub mod Client
pub mod Console
pub mod Job
pub mod Logger
pub mod Net
pub mod PngUtils
pub mod Protocol
pub mod Queue
pub mod RuntimeConfig
pub mod Server
pub mod Stego
pub mod Storage
pub mod Worker
