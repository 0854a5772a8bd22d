-- ===== src/Server/Reachable.antt =====
-- The states that the server of src/server/server.c reaches: its loop and the workers take turns in
-- any order, each event of the loop and each job of a worker being one step.
use pcd.Prelude.{ℕ, zero, suc, ◌≡◌, refl, arith, Bool, true, [], length-replicate, replicate}
use pcd.Net.{Descriptor}
use pcd.Job.{job_table_init}
use pcd.Job.Table.{job_table_init-IsValid}
use pcd.Queue.{Heap, job_queue_init}
use pcd.Storage.{Files}
use pcd.Worker.{Setting}
use pcd.Worker.Thread.{Shared, worked, worker_round, worker_round-IsValid}
use pcd.Server.Blocklist.{blocklist_init}
use pcd.Server.Clients.{no_session, max_clients}
use pcd.Server.Admins.{count_admins, is_admin_session}
use pcd.Server.State.{ServerState, Surroundings}
use pcd.Server.Loop.{PollEvent, handle_event}
use pcd.Server.Invariant.{IsSound, Sound-table}
use pcd.Server.Invariant.Events.{handle_event-IsSound}

-- The state in which the loop of `server_run` begins.
unfoldable pub start : Heap → (ℕ → Descriptor) → Files → ServerState
start heap connections files = record {
  jobs = job_table_init;
  queue = job_queue_init heap;
  blocklist = blocklist_init;
  clients = replicate max_clients no_session;
  connections = connections;
  files = files;
}

-- What the workers see of the state, with no event written yet.
abbrev pub shared_of : ServerState → Shared
shared_of state = record {
  queue = state.queue;
  table = state.jobs;
  files = state.files;
  events = [];
}

abbrev pub with_shared : ServerState → Shared → ServerState
with_shared state shared = record state {
  queue = shared.queue;
  jobs = shared.table;
  files = shared.files;
}

-- One step of the loop or of a worker.
pub data Step : ServerState → ServerState → Type 0 where
  serves :
      (env : Surroundings) (state : ServerState) (event : PollEvent)
      → Step state (handle_event env state event)
  works :
      (s : Setting) (requests : ℕ → Bool) (state : ServerState) (after : Shared)
      → worker_round s true requests (shared_of state) ≡ worked after
      → Step state (with_shared state after)

pub data Reachable : ServerState → Type 0 where
  begins :
      (heap : Heap) (connections : ℕ → Descriptor) (files : Files)
      → Reachable (start heap connections files)
  goes_on : (state next : ServerState) → Reachable state → Step state next → Reachable next

count_admins-start : (n : ℕ) → count_admins (replicate n no_session) ≡ 0
unfolding count_admins is_admin_session
count_admins-start zero = refl
count_admins-start (suc n) = count_admins-start n

start-IsSound :
    (heap : Heap) (connections : ℕ → Descriptor) (files : Files)
    → IsSound (start heap connections files)
unfolding start blocklist_init
start-IsSound heap connections files = record {
  table = job_table_init-IsValid;
  slots = length-replicate max_clients no_session;
  one_admin = omega (arith, count_admins-start max_clients);
  blocked = omega arith;
}

Step-IsSound : (state next : ServerState) → Step state next → IsSound state → IsSound next
Step-IsSound _ _ (serves env state event) sound = handle_event-IsSound env state event sound
Step-IsSound _ _ (works s requests state after e) sound =
    Sound-table state.jobs after.table state.clients state.blocklist sound
      (worker_round-IsValid s true requests (shared_of state) after sound.table e)

-- However the loop and the workers take turns, and whatever clients send, every state that the
-- server reaches is sound: jobs are numbered from 1 without a gap and there are at most 1024, 128
-- slots hold the sessions with one administrator at most, and at most 32 addresses are blocked.
pub Reachable-IsSound : (state : ServerState) → Reachable state → IsSound state
Reachable-IsSound _ (begins heap connections files) = start-IsSound heap connections files
Reachable-IsSound _ (goes_on before after reached step) =
    Step-IsSound before after step (Reachable-IsSound before reached)
