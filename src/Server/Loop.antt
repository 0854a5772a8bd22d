-- ===== src/Server/Loop.antt =====
-- src/server/server.c: accepting connections, the command of a client, and a round of the loop of
-- `server_run`.
use pcd.Prelude.{
  ℕ, Bool, true, false, ◌&&◌, Option, none, some, Bytes, codes, length, get_elem?, ◌==◌,
  if◌then◌else◌, c_string,
}
use pcd.Net.{read_line}
use pcd.Protocol.{ProtocolRequest, protocol_parse_line}
use pcd.Server.Blocklist.{blocklist_contains}
use pcd.Server.Clients.{
  ClientType, user_client, admin_client, ClientSession, is_admin, is_user, add_client, has_admin,
  close_kicked,
}
use pcd.Server.State.{ServerState, Surroundings, buffer_size, set_connection, respond, close_slot}
use pcd.Server.User.{handle_user_command}
use pcd.Server.Admin.{handle_admin_command}

module _ (env : Surroundings) where
  -- `add_client` with the answer to the client.
  unfoldable pub admit : ServerState → ℕ → ClientType → Bytes → ServerState
  admit state client_fd type addr_str =
      elim (add_client env.now state.clients client_fd type addr_str) [
        | none ↦ respond state client_fd (codes "ERR server full\n")
        | some clients ↦
            respond (record state { clients = clients }) client_fd (codes "OK connected\n")
      ]

  -- `accepted` is the descriptor and the address, when `accept` succeeds and `inet_ntop` does.
  unfoldable pub accept_new_inet_connection :
      ServerState → Option (ℕ × Option Bytes) → ClientType → Bool → ServerState
  accept_new_inet_connection state none type single_admin_only = state
  accept_new_inet_connection state (some (client_fd, res)) type single_admin_only =
      let addr_str : Bytes = elim res [ none ↦ codes "unknown" | some address ↦ address ] in
      if is_user type && blocklist_contains state.blocklist addr_str
      then respond state client_fd (codes "ERR ip blocked\n")
      else if single_admin_only && has_admin state.clients
      then respond state client_fd (codes "ERR admin already connected\n")
      else admit state client_fd type addr_str

  unfoldable pub accept_new_unix_connection : ServerState → Option ℕ → ServerState
  accept_new_unix_connection state none = state
  accept_new_unix_connection state (some client_fd) =
      admit state client_fd user_client (codes "unix-local")

  unfoldable pub handle_request :
      ServerState → ℕ → ℕ → ClientSession → ProtocolRequest → ServerState
  handle_request state slot fd client request =
      if is_admin client.type
      then handle_admin_command env state slot fd request.command request
      else handle_user_command env state slot fd client.addr_str request.command request

  -- The end of the input, or an error, closes the session.
  unfoldable pub handle_client_command : ServerState → ℕ → ℕ → ClientSession → ServerState
  handle_client_command state slot fd client =
      let (line, connection) = read_line (state.connections fd) buffer_size in
      let after = set_connection state fd connection in
      elim line [
        | none ↦ close_slot after slot
        | some buffer ↦
            if length buffer == 0
            then close_slot after slot
            else handle_request after slot fd client (protocol_parse_line (c_string buffer))
      ]

  -- The end of a round.
  unfoldable pub end_round : ServerState → ServerState
  end_round state = record state { clients = close_kicked state.clients }

-- What `poll` reports, in the order in which the loop looks at it.
pub data PollEvent : Type 0 where
  user_connects admin_connects : Option (ℕ × Option Bytes) → PollEvent
  local_connects : Option ℕ → PollEvent
  client_ready : ℕ → PollEvent
  round_ends : PollEvent

module _ (env : Surroundings) where
  -- The session in a slot is looked at only when it is active.
  unfoldable pub client_turn : ServerState → ℕ → ServerState
  client_turn state slot = elim (get_elem? state.clients slot) [
    | none ↦ state
    | some client ↦ elim client.fd [
      | none ↦ state
      | some fd ↦ if client.active then handle_client_command env state slot fd client else state
    ]
  ]

  unfoldable pub handle_event : ServerState → PollEvent → ServerState
  handle_event state (user_connects accepted) =
      accept_new_inet_connection env state accepted user_client false
  handle_event state (admin_connects accepted) =
      accept_new_inet_connection env state accepted admin_client true
  handle_event state (local_connects accepted) = accept_new_unix_connection env state accepted
  handle_event state (client_ready slot) = client_turn state slot
  handle_event state round_ends = end_round env state
