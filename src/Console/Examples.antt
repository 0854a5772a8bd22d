-- ===== src/Console/Examples.antt =====
-- Tests of the model of src/admin/main.c, and its theorem at a concrete input.
use pcd.Prelude.{
  Bool, ℕ, zero, suc, ◌≡◌, refl, arith, true, false, none, some, List, [], Bytes, codes, replicate,
  length, ◌+◌, All,
}
use pcd.Net.{IoCall, moves, Descriptor}
use pcd.Net.Reading.{IsSteady, rounds}
use pcd.Net.Left.{CanRead, CanWrite}
use pcd.Storage.{default_dirs}
use pcd.Queue.{Heap}
use pcd.Server.Clients.{ClientSession, no_session, admin_client, is_admin}
use pcd.Server.State.{ServerState, Surroundings}
use pcd.Server.Loop.{handle_client_command}
use pcd.Server.Reachable.{start}
use pcd.Client.Lines.{Plain, is_plain, is_plain-Plain}
use pcd.Client.Uploads.{line_taken}
use pcd.Console.{ConsoleState, console_turn, atoi, strtol_word, menu, menu_action, leave}
use pcd.Console.Commands.{
  blocking, typed, command_text, verb, moderate, console_turn-handle_client_command,
}

-- A word that is no number is option 0, the end.
no_number : menu_action menu (atoi (codes "stats")) ≡ leave
unfolding menu_action menu atoi strtol_word pcd.Protocol.Number.skip_space
    pcd.Protocol.Number.is_space pcd.Protocol.Number.read_digits pcd.Protocol.Number.is_digit
no_number = refl

abbrev calls : List IoCall
calls = replicate 30 (moves 1)

abbrev peer : Bytes → Descriptor
peer input = record { input = input; output = []; reads = calls; writes = calls }

replicate-IsSteady : (n : ℕ) → IsSteady (replicate n (moves 1))
unfolding IsSteady
replicate-IsSteady zero = tt
replicate-IsSteady (suc n) = (omega arith, replicate-IsSteady n)

rounds-replicate : (n : ℕ) → rounds (replicate n (moves 1)) ≡ n
unfolding rounds
rounds-replicate zero = refl
rounds-replicate (suc n) = omega (arith, rounds-replicate n)

abbrev ip : Bytes
ip = codes "10.0.0.7"

abbrev at_console : ConsoleState
at_console = record { connection = peer []; stdin = typed blocking ip (codes "0\n") }

abbrev no_tar : Bytes → Bool
no_tar path = false

abbrev surroundings : Surroundings
surroundings = record {
  max_upload_bytes = 1000;
  disk = record {
    can_open = λ path. true;
    can_store = λ path n. true;
    can_close = λ path. true;
    can_read = λ path. true;
  };
  dirs = default_dirs;
  now = (5, 0);
  ready = true;
  node = some 10;
  average_ms = λ digits table. codes "0.0";
  duration = λ a b. codes "0.0";
}

abbrev no_nodes : Heap
no_nodes a = none

abbrev administrator : ClientSession
administrator = record no_session { type = admin_client }

abbrev server : ServerState
server =
    start no_nodes (λ fd. peer (console_turn no_tar at_console).1.connection.output) (λ path. none)

carried : (server.connections 9).input ≡ (console_turn no_tar at_console).1.connection.output
unfolding start
carried = refl

server-CanRead : CanRead (server.connections 9) (length (command_text blocking ip) + 1)
unfolding start verb
server-CanRead = record {
  steady = replicate-IsSteady 30;
  enough = omega (arith, rounds-replicate 30);
}

console-CanWrite : CanWrite at_console.connection (length (command_text blocking ip) + 1)
unfolding verb
console-CanWrite = record {
  steady = replicate-IsSteady 30;
  enough = omega (arith, rounds-replicate 30);
}

ip-Plain : All Plain ip
unfolding is_plain
ip-Plain = is_plain-Plain ip refl

administers : is_admin administrator.type ≡ true
unfolding is_admin
administers = refl

console_turn-handle_client_command_example :
    (handle_client_command surroundings server 0 9 administrator
      ≡ moderate surroundings (line_taken server 9) 0 9 blocking ip)
    × (((line_taken server 9).connections 9).input ≡ [])
console_turn-handle_client_command_example =
    console_turn-handle_client_command no_tar blocking at_console ip (codes "0\n") surroundings
      server 0 9 administrator ip-Plain (omega arith) (omega arith) refl refl console-CanWrite
      administers carried server-CanRead
