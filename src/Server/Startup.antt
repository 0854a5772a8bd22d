-- ===== src/Server/Startup.antt =====
-- src/server/server.c and src/server/net.c: the start of the server and its end. What a system call
-- does is an argument; the state has what the process holds: the descriptors that are open, what is
-- initialised, the sessions of clients, and the threads. Startup/Run.antt has the loop and the end.
pub mod Stages
pub mod Run
pub mod Held
pub mod Released
pub mod Agreement
pub mod Opened
pub mod Polling
mod Examples
use pcd.Prelude.{
  ℕ, zero, suc, ◌+◌, Bool, true, false, not, ◌&&◌, ◌||◌, Option, none, some, List, [], ◌∷◌, ◌==◌,
  if◌then◌else◌,
}
use pcd.Server.Clients.{ClientSession}

-- The fields of `server_state_t` with descriptors, the flags of `server_run`, and what the process
-- holds: the sessions, its open descriptors, its threads, and whether the path of the local socket exists.
pub record Startup : Type 0 where
  pub listen_fd_user : Option ℕ
  pub listen_fd_admin : Option ℕ
  pub listen_fd_unix : Option ℕ
  pub pipe_read_fd : Option ℕ
  pub pipe_write_fd : Option ℕ
  pub inotify_fd : Option ℕ
  pub blocklist_initialized : Bool
  pub jobs_initialized : Bool
  pub queue_initialized : Bool
  pub workers_started : Bool
  pub clients : List ClientSession
  pub is_open : ℕ → Bool
  pub threads : ℕ
  pub socket_path : Bool

abbrev pub mark : (ℕ → Bool) → ℕ → Bool → ℕ → Bool
mark fds fd value other = if other == fd then value else fds other

abbrev pub opened : Startup → ℕ → Startup
opened s fd = record s { is_open = mark s.is_open fd true }

abbrev pub closed : Startup → ℕ → Startup
closed s fd = record s { is_open = mark s.is_open fd false }

-- The calls for a listening socket: `socket`, the calls before `bind`, `bind`, and `listen`. Of a
-- local socket the calls before `bind` are `snprintf` and `unlink`.
pub record SocketCalls : Type 0 where
  pub socket : Option ℕ
  pub prepared : Bool
  pub bound : Bool
  pub listening : Bool

unfoldable pub create_listen_socket : SocketCalls → Startup → Option ℕ × Startup
create_listen_socket calls s = elim calls.socket [
  | none ↦ (none, s)
  | some fd ↦
      if not calls.prepared
      then (none, closed (opened s fd) fd)
      else if not calls.bound
      then (none, closed (opened s fd) fd)
      else if not calls.listening
      then (none, closed (opened s fd) fd)
      else (some fd, opened s fd)
]

unfoldable pub create_unix_listen_socket : SocketCalls → Startup → Option ℕ × Startup
create_unix_listen_socket calls s = elim calls.socket [
  | none ↦ (none, s)
  | some fd ↦
      if not calls.prepared
      then (none, closed (opened s fd) fd)
      else if not calls.bound
      then (none, closed (opened (record s { socket_path = false }) fd) fd)
      else if not calls.listening
      then (none, closed (opened (record s { socket_path = false }) fd) fd)
      else (some fd, opened (record s { socket_path = true }) fd)
]

-- A step of `server_run`: `false` when it fails.
abbrev pub Step : Type 0
Step = Startup → Bool × Startup

abbrev pub is_some {ℓ} : {A : Type ℓ} → Option A → Bool
is_some none = false
is_some (some a) = true

-- A step that only checks.
abbrev pub check_step : Bool → Step
check_step ok s = (ok, s)

unfoldable pub jobs_step : Bool → Step
jobs_step ok s = (ok, record s { jobs_initialized = ok })

unfoldable pub queue_step : Bool → Step
queue_step ok s = (ok, record s { queue_initialized = ok })

unfoldable pub pipe_step : Option (ℕ × ℕ) → Step
pipe_step none s = (false, s)
pipe_step (some (read_fd, write_fd)) s = (
  true,
  record (opened (opened s read_fd) write_fd) {
    pipe_read_fd = some read_fd;
    pipe_write_fd = some write_fd;
  },
)

-- `inotify_init1`, and whether the three watches are added.
unfoldable pub init_inotify : Option ℕ → Bool → Step
init_inotify none watched s = (false, s)
init_inotify (some fd) watched s = (watched, record (opened s fd) { inotify_fd = some fd })

unfoldable pub user_step : SocketCalls → Step
unfolding create_listen_socket
user_step calls s =
    let (fd, after) = create_listen_socket calls s in
    (is_some fd, record after { listen_fd_user = fd })

unfoldable pub admin_step : SocketCalls → Step
unfolding create_listen_socket
admin_step calls s =
    let (fd, after) = create_listen_socket calls s in
    (is_some fd, record after { listen_fd_admin = fd })

unfoldable pub unix_step : SocketCalls → Step
unfolding create_unix_listen_socket
unix_step calls s =
    let (fd, after) = create_unix_listen_socket calls s in
    (is_some fd, record after { listen_fd_unix = fd })

-- `init_workers` for so many workers, the outcomes of `pthread_create` in order.
unfoldable pub init_workers : List Bool → Step
init_workers [] s = (true, record s { workers_started = true })
init_workers (created ∷ rest) s =
    let more = init_workers rest (record s { threads = s.threads + 1 }) in
    if created then more else (false, s)

-- By the outcomes of `sigaction` for SIGINT, SIGTERM and SIGPIPE.
unfoldable pub install_signal_handlers : Bool → Bool → Bool → Bool
install_signal_handlers sigint sigterm sigpipe =
    if not sigint then false else if not sigterm then false else sigpipe

-- By the outcomes of `fcntl` with F_GETFL and F_SETFL.
unfoldable pub set_nonblocking : Bool → Bool → Bool
set_nonblocking get_flags set_flags = if not get_flags then false else set_flags

-- The outcomes of the calls of the start.
pub record StartCalls : Type 0 where
  pub blocklist : Bool
  pub sigint : Bool
  pub sigterm : Bool
  pub sigpipe : Bool
  pub root : Bool
  pub dirs : Bool
  pub jobs : Bool
  pub queue : Bool
  pub pipe : Option (ℕ × ℕ)
  pub get_flags : Bool
  pub set_flags : Bool
  pub inotify : Option ℕ
  pub watched : Bool
  pub user : SocketCalls
  pub admin : SocketCalls
  pub local_socket : SocketCalls
  pub created : List Bool

-- The steps of `server_run` behind `blocklist_init`, in order.
unfoldable pub start_steps : StartCalls → List Step
unfolding install_signal_handlers set_nonblocking
start_steps calls =
    check_step (install_signal_handlers calls.sigint calls.sigterm calls.sigpipe)
    ∷ check_step calls.root
    ∷ check_step calls.dirs
    ∷ jobs_step calls.jobs
    ∷ queue_step calls.queue
    ∷ pipe_step calls.pipe
    ∷ check_step (set_nonblocking calls.get_flags calls.set_flags)
    ∷ init_inotify calls.inotify calls.watched
    ∷ user_step calls.user
    ∷ admin_step calls.admin
    ∷ unix_step calls.local_socket
    ∷ init_workers calls.created
    ∷ []

-- A step that fails ends the start.
unfoldable pub run_steps : List Step → Step
run_steps [] s = (true, s)
run_steps (step ∷ steps) s =
    let (ok, after) = step s in
    let rest = run_steps steps after in if ok then rest else (false, after)
