-- ===== src/Server/Examples.antt =====
-- Tests of the model of src/server/server.c, and its theorems at concrete inputs.
use pcd.Prelude.{
  ℕ, ◌≡◌, ◌≤◌, refl, arith, true, false, none, some, List, [], ◌∷◌, All, Bytes, codes, bytes_eq,
}
use pcd.Net.{Descriptor, moves}
use pcd.Storage.{Files, default_dirs}
use pcd.Queue.{Heap}
use pcd.Server.Blocklist.{
  blocklist_contains, blocklist_add, blocklist_remove, remove_first, blocklist_remove-add,
  blocklist_contains-remove,
}
use pcd.Server.Clients.{user_client, from_ip}
use pcd.Server.State.{push_job, id_at, ServerState, Surroundings}
use pcd.Server.Admin.{handle_blockip}
use pcd.Server.Loop.{accept_new_inet_connection, end_round, admin_connects, handle_event}
use pcd.Server.Invariant.{IsSound}
use pcd.Server.Reachable.{start, Reachable, begins, goes_on, serves, Reachable-IsSound}
use pcd.Server.Blocking.{handle_blockip_lem}
use pcd.Job.{job_table_init, job_table_create_job, new_job, text}
use pcd.Queue.{job_queue_push, job_queue_init}
use pcd.Net.Reading.{IsSteady, supply}
use pcd.Client.{parse_job_id}
use pcd.Client.Answers.{push_job-parse_job_id}
use pcd.Server.Inotify.{
  inotify_mask_to_string, event_labels, append_labels, append_event_label, with_label, hex_before,
}

abbrev ip : Bytes
ip = codes "10.0.0.7"

abbrev two_ips : List Bytes
two_ips = codes "10.0.0.8" ∷ codes "10.0.0.9" ∷ []

blocklist_remove-add_example : blocklist_remove (blocklist_add two_ips ip).1 ip ≡ (true, two_ips)
unfolding blocklist_contains bytes_eq
blocklist_remove-add_example =
    blocklist_remove-add two_ips ip (omega arith) (omega arith) (omega arith) refl

abbrev surroundings : Surroundings
surroundings = record {
  max_upload_bytes = 1000;
  disk = record {
    can_open = λ path. true;
    can_store = λ path n. true;
    can_close = λ path. true;
    can_read = λ path. true;
  };
  dirs = default_dirs;
  now = (5, 0);
  ready = true;
  node = some 10;
  average_ms = λ digits table. codes "0.0";
  duration = λ a b. codes "0.0";
}

abbrev no_files : Files
no_files path = none

abbrev no_nodes : Heap
no_nodes a = none

-- Every client has sent PING.
abbrev peers : ℕ → Descriptor
peers fd = record {
  input = codes "PING\n";
  output = [];
  reads = moves 1 ∷ moves 1 ∷ moves 1 ∷ moves 1 ∷ moves 1 ∷ [];
  writes = moves 100 ∷ moves 100 ∷ [];
}

abbrev started : ServerState
started = start no_nodes peers no_files

abbrev connected : ServerState
connected = handle_event surroundings started (admin_connects (some (9, some ip)))

connected-Reachable : Reachable connected
connected-Reachable =
    goes_on started connected (begins no_nodes peers no_files)
      (serves surroundings started (admin_connects (some (9, some ip))))

Reachable-IsSound_example : IsSound connected
Reachable-IsSound_example = Reachable-IsSound connected connected-Reachable

added : (blocklist_add started.blocklist ip).0 ≡ true
unfolding start blocklist_add blocklist_contains pcd.Server.Blocklist.blocklist_init
added = refl

handle_blockip_lem_example :
    All
      (λ client. from_ip ip client ≡ false)
      (end_round surroundings (handle_blockip surroundings started 0 9 ip)).clients
    × ((accept_new_inet_connection surroundings
          (handle_blockip surroundings started 0 9 ip)
          (some (11, some ip))
          user_client
          false).clients
        ≡ (handle_blockip surroundings started 0 9 ip).clients)
handle_blockip_lem_example =
    handle_blockip_lem surroundings started 0 9 ip (omega arith) added 11 (omega arith)

two_events : inotify_mask_to_string 0x300 256 ≡ some (codes "CREATE|DELETE")
unfolding inotify_mask_to_string event_labels append_labels append_event_label with_label
two_events = refl

no_event : inotify_mask_to_string 0x10 256 ≡ some (codes "mask=0x00000010")
unfolding inotify_mask_to_string event_labels append_labels append_event_label with_label hex_before
no_event = refl

abbrev with_job_one : ServerState
with_job_one = record started {
  jobs =
      (job_table_create_job true (5, 0) job_table_init 9 (some ip) text (some (codes "x")) none).1;
}

one_id : id_at with_job_one.jobs 0 ≡ 1
unfolding job_table_create_job job_table_init new_job
one_id = refl

is_pushed : (job_queue_push (some 10) 0 with_job_one.queue).0 ≡ true
unfolding start job_queue_push job_queue_init
is_pushed = refl

unread : (with_job_one.connections 9).output ≡ []
unfolding start
unread = refl

steady : IsSteady (with_job_one.connections 9).writes
unfolding start IsSteady
steady = (omega arith, (omega arith, tt))

supplied : 25 ≤ supply (with_job_one.connections 9).writes
unfolding start supply
supplied = omega arith

push_job-parse_job_id_example :
    parse_job_id ((push_job surroundings with_job_one 9 0).connections 9).output
    ≡ id_at with_job_one.jobs 0
push_job-parse_job_id_example =
    push_job-parse_job_id surroundings with_job_one 9 0 (omega (arith, one_id)) is_pushed unread
      steady supplied
