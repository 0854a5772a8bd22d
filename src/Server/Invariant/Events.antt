-- ===== src/Server/Invariant/Events.antt =====
-- The administrator's commands and the events of the loop of src/server/server.c keep the invariant
-- of the state.
use pcd.Prelude.{
  ℕ, ◌+◌, ◌≤◌, ◌≡◌, ◌∙◌, arith, true, false, Option, none, some, List, Bytes, codes, length,
  get_elem?, if◌then◌else◌, ◌==◌, Bool-cases, Option-cases, inl, inr,
}
use pcd.Net.{read_line}
use pcd.Job.{JobTable}
use pcd.Protocol.{ProtocolCommand, ProtocolRequest}
use pcd.Server.Blocklist.{
  blocklist_contains, blocklist_add, blocklist_remove, length-blocklist_add,
  length-blocklist_remove,
}
use pcd.Server.Clients.{
  ClientType, user_client, admin_client, ClientSession, is_admin, is_user, has_admin, add_client,
  kick_client,
}
use pcd.Server.Admins.{
  count_admins, Tamer-kick_ip, Tamer-kick_client, Tamer-close_kicked, count_admins-add_client,
  count_admins-has_admin,
}
use pcd.Server.State.{ServerState, Surroundings, buffer_size}
use pcd.Server.Admin.{
  parse_int_arg, handle_kick, handle_blockip, handle_unblockip, handle_admin_command,
}
use pcd.Server.Loop.{
  admit, accept_new_inet_connection, accept_new_unix_connection, handle_request,
  handle_client_command, end_round, PollEvent, user_connects, admin_connects, local_connects,
  client_ready, round_ends, client_turn, handle_event,
}
use pcd.Server.Invariant.{
  Sound, IsSound, Sound-Tamer, respond-IsSound, close_slot-IsSound, with_job-IsSound,
}
use pcd.Server.Invariant.Users.{cancel_job-IsSound, handle_user_command-IsSound}

Sound-blocklist :
    (jobs : JobTable) (clients : List ClientSession) (blocklist after : List Bytes)
    → Sound jobs clients blocklist
    → length after ≤ 32
    → Sound jobs clients after
Sound-blocklist jobs clients blocklist after sound bounded = record {
  table = sound.table;
  slots = sound.slots;
  one_admin = sound.one_admin;
  blocked = bounded;
}

module _ (env : Surroundings) (state : ServerState) (slot fd : ℕ) (sound : IsSound state) where
  handle_kick-IsSound : (argument : Bytes) → IsSound (handle_kick env state slot fd argument)
  unfolding handle_kick
  handle_kick-IsSound argument = elim (Option-cases (parse_int_arg argument)) [
    | inl invalid ↦ rw (handle_kick, invalid) (respond-IsSound state fd _ sound)
    | inr (target_fd, parsed) ↦ elim (Option-cases (kick_client state.clients target_fd)) [
      | inl missing ↦ rw (handle_kick, parsed, missing) (respond-IsSound state fd _ sound)
      | inr (clients, kicked) ↦
          rw (handle_kick, parsed, kicked)
            (respond-IsSound _ fd _ (
              respond-IsSound _ target_fd _ (
                Sound-Tamer state.jobs state.clients clients state.blocklist sound
                  (Tamer-kick_client state.clients clients target_fd kicked))))
    ]
  ]

  handle_blockip-IsSound : (ip : Bytes) → IsSound (handle_blockip env state slot fd ip)
  unfolding handle_blockip
  handle_blockip-IsSound ip =
      let blocked =
        Sound-blocklist state.jobs state.clients state.blocklist
          (blocklist_add state.blocklist ip).1 sound
          (length-blocklist_add state.blocklist ip sound.blocked) in
      elim (Bool-cases (length ip == 0)) [
        | inl missing ↦ rw (handle_blockip, missing) (respond-IsSound state fd _ sound)
        | inr given ↦ elim (Bool-cases (blocklist_add state.blocklist ip).0) [
          | inr full ↦ rw (handle_blockip, given, full) (respond-IsSound _ fd _ blocked)
          | inl added ↦
              rw (handle_blockip, given, added)
                (respond-IsSound _ fd _ (
                  Sound-Tamer state.jobs state.clients _ _ blocked
                    (Tamer-kick_ip state.clients ip)))
        ]
      ]

  handle_unblockip-IsSound : (ip : Bytes) → IsSound (handle_unblockip env state slot fd ip)
  unfolding handle_unblockip
  handle_unblockip-IsSound ip =
      let freed =
        Sound-blocklist state.jobs state.clients state.blocklist
          (blocklist_remove state.blocklist ip).1 sound
          (omega (arith, length-blocklist_remove state.blocklist ip, sound.blocked)) in
      elim (Bool-cases (length ip == 0)) [
        | inl missing ↦ rw (handle_unblockip, missing) (respond-IsSound state fd _ sound)
        | inr given ↦ elim (Bool-cases (blocklist_remove state.blocklist ip).0) [
          | inr unknown ↦ rw (handle_unblockip, given, unknown) (respond-IsSound _ fd _ freed)
          | inl removed ↦ rw (handle_unblockip, given, removed) (respond-IsSound _ fd _ freed)
        ]
      ]

  handle_admin_command-IsSound :
      (command : ProtocolCommand) (request : ProtocolRequest)
      → IsSound (handle_admin_command env state slot fd command request)
  unfolding handle_admin_command
  handle_admin_command-IsSound ProtocolCommand.ping request = respond-IsSound state fd _ sound
  handle_admin_command-IsSound ProtocolCommand.help request = respond-IsSound state fd _ sound
  handle_admin_command-IsSound ProtocolCommand.stats request = respond-IsSound state fd _ sound
  handle_admin_command-IsSound ProtocolCommand.avgduration request =
      respond-IsSound state fd _ sound
  handle_admin_command-IsSound ProtocolCommand.listjobs request = respond-IsSound state fd _ sound
  handle_admin_command-IsSound ProtocolCommand.history request = respond-IsSound state fd _ sound
  handle_admin_command-IsSound ProtocolCommand.listclients request =
      respond-IsSound state fd _ sound
  handle_admin_command-IsSound ProtocolCommand.cancel request =
      with_job-IsSound state fd _ _ sound
        (λ p job found. cancel_job-IsSound state fd _ _ p job sound found)
  handle_admin_command-IsSound ProtocolCommand.kick request = handle_kick-IsSound _
  handle_admin_command-IsSound ProtocolCommand.blockip request = handle_blockip-IsSound _
  handle_admin_command-IsSound ProtocolCommand.unblockip request = handle_unblockip-IsSound _
  handle_admin_command-IsSound ProtocolCommand.quit request =
      close_slot-IsSound _ slot (respond-IsSound state fd _ sound)
  handle_admin_command-IsSound ProtocolCommand.unknown request = respond-IsSound state fd _ sound
  handle_admin_command-IsSound ProtocolCommand.submit request = respond-IsSound state fd _ sound
  handle_admin_command-IsSound ProtocolCommand.status request = respond-IsSound state fd _ sound
  handle_admin_command-IsSound ProtocolCommand.result request = respond-IsSound state fd _ sound
  handle_admin_command-IsSound ProtocolCommand.validate_image request =
      respond-IsSound state fd _ sound
  handle_admin_command-IsSound ProtocolCommand.analyze_capacity request =
      respond-IsSound state fd _ sound
  handle_admin_command-IsSound ProtocolCommand.encode_text request =
      respond-IsSound state fd _ sound
  handle_admin_command-IsSound ProtocolCommand.encode_file request =
      respond-IsSound state fd _ sound
  handle_admin_command-IsSound ProtocolCommand.decode request = respond-IsSound state fd _ sound
  handle_admin_command-IsSound ProtocolCommand.validate request = respond-IsSound state fd _ sound
  handle_admin_command-IsSound ProtocolCommand.capacity request = respond-IsSound state fd _ sound
  handle_admin_command-IsSound ProtocolCommand.meta request = respond-IsSound state fd _ sound
  handle_admin_command-IsSound ProtocolCommand.download request = respond-IsSound state fd _ sound

module _ (env : Surroundings) where
  -- A session is admitted when that makes one administrator at most.
  admit-IsSound :
      (state : ServerState) (client_fd : ℕ) (type : ClientType) (addr_str : Bytes)
      → IsSound state
      → count_admins state.clients + (if is_admin type then 1 else 0) ≤ 1
      → IsSound (admit env state client_fd type addr_str)
  unfolding admit
  admit-IsSound state client_fd type addr_str sound alone =
      elim (Option-cases (add_client env.now state.clients client_fd type addr_str)) [
        | inl full ↦ rw (admit, full) (respond-IsSound state client_fd _ sound)
        | inr (clients, added) ↦
            let (slots, count) =
              count_admins-add_client env.now state.clients clients client_fd type addr_str added in
            let one : count_admins clients ≤ 1 = omega (arith, count, alone) in
            rw (admit, added)
              (respond-IsSound _ client_fd _ (record {
                table = sound.table;
                slots = slots ∙ sound.slots;
                one_admin = one;
                blocked = sound.blocked;
              }))
      ]

  user-IsSound :
      (state : ServerState) (client_fd : ℕ) (addr_str : Bytes)
      → IsSound state
      → IsSound (admit env state client_fd user_client addr_str)
  unfolding is_admin
  user-IsSound state client_fd addr_str sound =
      admit-IsSound state client_fd user_client addr_str sound (omega (arith, sound.one_admin))

  admin-IsSound :
      (state : ServerState) (client_fd : ℕ) (addr_str : Bytes)
      → IsSound state
      → has_admin state.clients ≡ false
      → IsSound (admit env state client_fd admin_client addr_str)
  unfolding is_admin
  admin-IsSound state client_fd addr_str sound alone =
      admit-IsSound state client_fd admin_client addr_str sound
        (omega (arith, count_admins-has_admin state.clients alone))

  user_accepted-IsSound :
      (state : ServerState) (accepted : Option (ℕ × Option Bytes))
      → IsSound state
      → IsSound (accept_new_inet_connection env state accepted user_client false)
  unfolding accept_new_inet_connection is_user
  user_accepted-IsSound state none sound = sound
  user_accepted-IsSound state (some (client_fd, res)) sound =
      let addr_str : Bytes = elim res [ none ↦ codes "unknown" | some address ↦ address ] in
      elim (Bool-cases (blocklist_contains state.blocklist addr_str)) [
        | inl blocked ↦
            rw (accept_new_inet_connection, blocked) (respond-IsSound state client_fd _ sound)
        | inr free ↦
            rw (accept_new_inet_connection, free) (user-IsSound state client_fd addr_str sound)
      ]

  admin_accepted-IsSound :
      (state : ServerState) (accepted : Option (ℕ × Option Bytes))
      → IsSound state
      → IsSound (accept_new_inet_connection env state accepted admin_client true)
  unfolding accept_new_inet_connection is_user
  admin_accepted-IsSound state none sound = sound
  admin_accepted-IsSound state (some (client_fd, res)) sound =
      elim (Bool-cases (has_admin state.clients)) [
        | inl taken ↦
            rw (accept_new_inet_connection, taken) (respond-IsSound state client_fd _ sound)
        | inr alone ↦
            rw (accept_new_inet_connection, alone) (admin-IsSound state client_fd _ sound alone)
      ]

  handle_request-IsSound :
      (state : ServerState) (slot fd : ℕ) (client : ClientSession) (request : ProtocolRequest)
      → IsSound state
      → IsSound (handle_request env state slot fd client request)
  unfolding handle_request
  handle_request-IsSound state slot fd client request sound =
      elim (Bool-cases (is_admin client.type)) [
        | inl admin ↦
            rw (handle_request, admin)
              (handle_admin_command-IsSound env state slot fd sound request.command request)
        | inr user ↦
            rw (handle_request, user)
              (handle_user_command-IsSound env state slot fd client.addr_str sound request.command
                request)
      ]

  handle_client_command-IsSound :
      (state : ServerState) (slot fd : ℕ) (client : ClientSession)
      → IsSound state
      → IsSound (handle_client_command env state slot fd client)
  unfolding handle_client_command
  handle_client_command-IsSound state slot fd client sound =
      elim (Option-cases (read_line (state.connections fd) buffer_size).0) [
        | inl broken ↦ rw (handle_client_command, broken) (close_slot-IsSound _ slot sound)
        | inr (line, found) ↦ elim (Bool-cases (length line == 0)) [
          | inl ended ↦ rw (handle_client_command, found, ended) (close_slot-IsSound _ slot sound)
          | inr text ↦
              rw (handle_client_command, found, text)
                (handle_request-IsSound _ slot fd client _ sound)
        ]
      ]

  client_turn-IsSound :
      (state : ServerState) (slot : ℕ) → IsSound state → IsSound (client_turn env state slot)
  unfolding client_turn
  client_turn-IsSound state slot sound = elim (Option-cases (get_elem? state.clients slot)) [
    | inl missing ↦ rw (client_turn, missing) sound
    | inr (client, found) ↦ elim (Option-cases client.fd) [
      | inl closed ↦ rw (client_turn, found, closed) sound
      | inr (fd, opened) ↦ elim (Bool-cases client.active) [
        | inl active ↦
            rw (client_turn, found, opened, active)
              (handle_client_command-IsSound state slot fd _ sound)
        | inr free ↦ rw (client_turn, found, opened, free) sound
      ]
    ]
  ]

  -- Every event of the loop keeps the state sound: the table of jobs valid, 128 slots with one
  -- administrator at most, and at most 32 blocked addresses, whatever connects and whatever the
  -- clients send.
  pub handle_event-IsSound :
      (state : ServerState) (event : PollEvent)
      → IsSound state
      → IsSound (handle_event env state event)
  unfolding handle_event end_round accept_new_unix_connection
  handle_event-IsSound state (user_connects accepted) sound =
      user_accepted-IsSound state accepted sound
  handle_event-IsSound state (admin_connects accepted) sound =
      admin_accepted-IsSound state accepted sound
  handle_event-IsSound state (local_connects none) sound = sound
  handle_event-IsSound state (local_connects (some client_fd)) sound =
      user-IsSound state client_fd _ sound
  handle_event-IsSound state (client_ready slot) sound = client_turn-IsSound state slot sound
  handle_event-IsSound state round_ends sound =
      Sound-Tamer state.jobs state.clients _ state.blocklist sound
        (Tamer-close_kicked state.clients)
