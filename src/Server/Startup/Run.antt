-- ===== src/Server/Startup/Run.antt =====
-- src/server/server.c: the loop of `server_run` as far as it opens and closes descriptors, the array
-- for `poll`, and the end of the server.
use pcd.Prelude.{
  ℕ, Bool, true, false, Option, none, some, List, [], ◌∷◌, map, Bytes, get_elem?, set, replicate,
  if◌then◌else◌,
}
use pcd.Job.{Timespec}
use pcd.Server.Clients.{
  ClientType, ClientSession, max_clients, no_session, close_client, add_client, active_fds,
}
use pcd.Server.Startup.{
  Startup, Step, StartCalls, mark, opened, closed, is_some, start_steps, run_steps,
}

-- What an event of the loop does to the sessions. A connection has a descriptor, the time, a type
-- and an address, and `refused` says whether the blocklist or the single administrator keep it out.
-- The session in a slot leaves when its input ends, by a command, or at the end of a round when it is
-- to be kicked.
pub data SessionEvent : Type 0 where
  connects : ℕ → (refused : Bool) → Timespec → ClientType → Bytes → SessionEvent
  leaves : ℕ → SessionEvent

-- `close` of `close_client`, which does nothing for a session that is not active.
unfoldable pub close_fd : ClientSession → (ℕ → Bool) → ℕ → Bool
close_fd client fds =
    if client.active then elim client.fd [ none ↦ fds | some fd ↦ mark fds fd false ] else fds

unfoldable pub session_event : SessionEvent → Startup → Startup
unfolding close_fd
session_event (connects fd refused now type addr_str) s =
    if refused then closed (opened s fd) fd else elim (add_client now s.clients fd type addr_str) [
      | none ↦ closed (opened s fd) fd
      | some clients ↦ record (opened s fd) { clients = clients }
    ]
session_event (leaves slot) s = elim (get_elem? s.clients slot) [
  | none ↦ s
  | some client ↦ record s {
    clients = set s.clients slot (close_client client);
    is_open = close_fd client s.is_open;
  }
]

unfoldable pub serve : List SessionEvent → Startup → Startup
unfolding session_event
serve [] s = s
serve (event ∷ events) s = serve events (session_event event s)

-- The descriptors that `poll` watches: those of the server in their fixed order, then those of the
-- active sessions. The descriptor -1 is `none`.
unfoldable pub rebuild_pollfds : Startup → List (Option ℕ)
unfolding active_fds
rebuild_pollfds s =
    s.listen_fd_user
    ∷ s.listen_fd_admin
    ∷ s.listen_fd_unix
    ∷ s.pipe_read_fd
    ∷ s.inotify_fd
    ∷ active_fds s.clients

abbrev pub close_field : Option ℕ → Startup → Startup
close_field none s = s
close_field (some fd) s = closed s fd

-- The descriptors of the server itself.
unfoldable pub close_fds : Startup → Startup
close_fds s =
    record (close_field s.inotify_fd (
      close_field s.pipe_write_fd (
        close_field s.pipe_read_fd (
          close_field s.listen_fd_unix
            (close_field s.listen_fd_admin (close_field s.listen_fd_user s)))))) {
              listen_fd_user = none;
              listen_fd_admin = none;
              listen_fd_unix = none;
              pipe_read_fd = none;
              pipe_write_fd = none;
              inotify_fd = none;
            }

-- The loop over the sessions at the end.
unfoldable pub close_sessions : List ClientSession → (ℕ → Bool) → ℕ → Bool
unfolding close_fd
close_sessions [] fds = fds
close_sessions (client ∷ clients) fds = close_sessions clients (close_fd client fds)

-- The workers are joined when they were all started.
unfoldable pub cleanup_server_state : Startup → Startup
unfolding close_fds close_sessions close_client
cleanup_server_state s =
    record (close_fds (record s { is_open = close_sessions s.clients s.is_open })) {
      clients = map close_client s.clients;
      threads = if s.workers_started then 0 else s.threads;
      socket_path = if is_some s.listen_fd_unix then false else s.socket_path;
      queue_initialized = false;
      jobs_initialized = false;
      blocklist_initialized = false;
    }

-- The state at the beginning of `server_run`, by the descriptors that are open then and whether the
-- path of the local socket exists.
unfoldable pub blank_state : (ℕ → Bool) → Bool → Startup
blank_state is_open socket_path = record {
  listen_fd_user = none;
  listen_fd_admin = none;
  listen_fd_unix = none;
  pipe_read_fd = none;
  pipe_write_fd = none;
  inotify_fd = none;
  blocklist_initialized = false;
  jobs_initialized = false;
  queue_initialized = false;
  workers_started = false;
  clients = replicate max_clients no_session;
  is_open = is_open;
  threads = 0;
  socket_path = socket_path;
}

-- `server_run` with what the events of its loop do to the sessions: whether it ends with
-- EXIT_SUCCESS, and what the process then holds.
unfoldable pub server_run : StartCalls → List SessionEvent → Step
unfolding start_steps run_steps serve cleanup_server_state
server_run calls events s =
    let (started, after) =
      run_steps (start_steps calls) (record s { blocklist_initialized = true }) in
    if calls.blocklist
    then (started, cleanup_server_state (if started then serve events after else after))
    else (false, s)
