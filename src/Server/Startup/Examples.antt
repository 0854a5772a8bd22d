-- ===== src/Server/Startup/Examples.antt =====
-- Tests of the start and the end of the server, and the theorem on them at concrete calls.
use pcd.Prelude.{
  ℕ, ◌≡◌, ◌≤◌, ◌+◌, refl, Bool, true, false, not, ◌&&◌, some, List, [], ◌∷◌, ◌==◌, All, length,
  codes,
}
use pcd.Server.Clients.{user_client, admin_client, add_client, active_fds, count_active}
use pcd.Server.Startup.{
  SocketCalls, StartCalls, is_some, install_signal_handlers, set_nonblocking, start_steps,
  run_steps, jobs_step, queue_step, pipe_step, init_inotify, user_step, admin_step, unix_step,
  init_workers, create_listen_socket, create_unix_listen_socket,
}
use pcd.Server.Startup.Run.{
  SessionEvent, connects, session_event, serve, rebuild_pollfds, blank_state, server_run,
  cleanup_server_state, close_fds,
}
use pcd.Server.Startup.Released.{server_run-released}
use pcd.Server.Startup.Polling.{started_state, rebuild_pollfds_lem}

abbrev works : ℕ → SocketCalls
works fd = record { socket = some fd; prepared = true; bound = true; listening = true }

-- The second worker cannot be created.
abbrev no_second_worker : StartCalls
no_second_worker = record {
  blocklist = true;
  sigint = true;
  sigterm = true;
  sigpipe = true;
  root = true;
  dirs = true;
  jobs = true;
  queue = true;
  pipe = some (3, 4);
  get_flags = true;
  set_flags = true;
  inotify = some 5;
  watched = true;
  user = works 6;
  admin = works 7;
  local_socket = works 8;
  created = true ∷ false ∷ [];
}

abbrev standard : ℕ → Bool
standard fd = fd == 2

-- The workers can be created.
abbrev all_works : StartCalls
all_works = record no_second_worker { created = true ∷ true ∷ [] }

-- A user connects, an administrator is refused, and nobody leaves.
abbrev two_connect : List SessionEvent
two_connect =
    connects 9 false (5, 0) user_client (codes "10.0.0.1")
    ∷ connects 10 true (6, 0) admin_client (codes "10.0.0.2")
    ∷ []

server_run-released_example :
    let after = (server_run all_works two_connect (blank_state standard true)).1 in
    ((after.is_open 9 && not (standard 9)) ≡ false)
    × (after.blocklist_initialized ≡ false)
    × (after.jobs_initialized ≡ false)
    × (after.queue_initialized ≡ false)
server_run-released_example = server_run-released all_works two_connect standard true 9

all_works_started : (started_state all_works standard true).0 ≡ true
unfolding blank_state install_signal_handlers set_nonblocking start_steps run_steps jobs_step
    queue_step pipe_step init_inotify user_step admin_step unix_step init_workers
    create_listen_socket create_unix_listen_socket
all_works_started = refl

rebuild_pollfds_lem_example :
    let s = serve two_connect (started_state all_works standard true).1 in
    (length (rebuild_pollfds s) ≡ 5 + count_active s.clients)
    × (length (rebuild_pollfds s) ≤ 256)
    × All (λ fd. is_some fd ≡ true) (rebuild_pollfds s)
rebuild_pollfds_lem_example =
    rebuild_pollfds_lem all_works two_connect standard true all_works_started

-- The user is watched behind the five descriptors of the server.
watches_the_user :
    rebuild_pollfds (serve two_connect (started_state all_works standard true).1)
    ≡ some 6 ∷ some 7 ∷ some 8 ∷ some 3 ∷ some 5 ∷ some 9 ∷ []
unfolding blank_state install_signal_handlers set_nonblocking start_steps run_steps jobs_step
    queue_step pipe_step init_inotify user_step admin_step unix_step init_workers
    create_listen_socket create_unix_listen_socket serve session_event add_client rebuild_pollfds
    active_fds
watches_the_user = refl

-- When the second worker cannot be created, the first is not joined, and goes on
-- with a queue that is destroyed.
worker_left : (server_run no_second_worker [] (blank_state standard true)).1.threads ≡ 1
unfolding server_run blank_state install_signal_handlers set_nonblocking start_steps run_steps
    jobs_step queue_step pipe_step init_inotify user_step admin_step unix_step init_workers
    create_listen_socket create_unix_listen_socket cleanup_server_state close_fds
worker_left = refl
