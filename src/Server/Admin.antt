-- ===== src/Server/Admin.antt =====
-- src/server/server.c: the commands of the administrator, `handle_admin_command`.
use pcd.Prelude.{
  ℕ, ◌+◌, Bool, true, false, not, ◌||◌, ◌&&◌, Option, none, some, [], ◌∷◌, ◌++◌, ◌^◌, Bytes, codes,
  length, ltb, ◌==◌, if◌then◌else◌, decimal,
}
use pcd.Job.Report.{job_table_collect_stats, job_table_format_list}
use pcd.Job.History.{job_table_format_history}
use pcd.Protocol.{ProtocolCommand, ProtocolRequest}
use pcd.Protocol.Number.{is_digit, skip_space, read_digits}
use pcd.Server.Blocklist.{blocklist_add, blocklist_remove, blocklist_format}
use pcd.Server.Clients.{count_active, kick_client, kick_ip, format_client_list}
use pcd.Server.State.{ServerState, Surroundings, buffer_size, respond, close_slot, with_job}
use pcd.Server.User.{cancel_job}

-- `strtol` of a text that must be consumed whole; a number beyond `INT32_MAX` is refused.
abbrev whole_int : Bool → Bytes → Option ℕ
whole_int negative [] = none
whole_int negative (c ∷ digits) =
    let (n, tail) = read_digits 0 (c ∷ digits) in
    if is_digit c && ((length tail == 0) && (ltb n (2 ^ 31) && (not negative || (n == 0))))
    then some n
    else none

abbrev signed_int : Bytes → Option ℕ
signed_int [] = none
signed_int (c ∷ text) =
    if c == b'-'
    then whole_int true text
    else if c == b'+'
    then whole_int false text
    else whole_int false (c ∷ text)

unfoldable pub parse_int_arg : Bytes → Option ℕ
parse_int_arg text = signed_int (skip_space text)

pub send_admin_help_text : Bytes
send_admin_help_text =
    codes
      "OK help admin: PING QUIT STATS LISTJOBS HISTORY AVGDURATION LISTCLIENTS | CANCEL <id> | KICK <fd> | BLOCKIP <ip> | UNBLOCKIP <ip>\n"

-- A list that is printed, or an error.
abbrev list_text : Bytes → Bytes → Option Bytes → Bytes
list_text name error none = error
list_text name error (some list) = name ++ (list ++ codes "\n")

module _ (env : Surroundings) (state : ServerState) (slot fd : ℕ) where
  unfoldable pub stats_text : Bytes
  stats_text =
      let st = job_table_collect_stats state.jobs in
      codes "STATS total="
      ++ (decimal st.total
          ++ (codes " queued="
              ++ (decimal st.queued
                  ++ (codes " running="
                      ++ (decimal st.running
                          ++ (codes " done="
                              ++ (decimal st.done
                                  ++ (codes " failed="
                                      ++ (decimal st.failed
                                          ++ (codes " canceled="
                                              ++ (decimal st.canceled
                                                  ++ (codes " avg_ms="
                                                      ++ (env.average_ms 1 state.jobs
                                                          ++ (codes " clients="
                                                            ++ (decimal (count_active state.clients)
                                                            ++ codes "\n")))))))))))))))

  unfoldable pub average_text : Bytes
  average_text =
      let st = job_table_collect_stats state.jobs in
      codes "AVGDURATION ms="
      ++ (env.average_ms 2 state.jobs
          ++ (codes " samples=" ++ (decimal (st.done + st.failed) ++ codes "\n")))

  -- The user is told first, then the administrator.
  unfoldable pub handle_kick : Bytes → ServerState
  handle_kick argument = elim (parse_int_arg argument) [
    | none ↦ respond state fd (codes "ERR invalid fd\n")
    | some target_fd ↦ elim (kick_client state.clients target_fd) [
      | none ↦ respond state fd (codes "ERR client not found\n")
      | some clients ↦
          respond
            (respond (record state { clients = clients }) target_fd (codes "ERR kicked by admin\n"))
            fd (codes "OK kicked fd=" ++ (decimal target_fd ++ codes "\n"))
    ]
  ]

  unfoldable pub handle_blockip : Bytes → ServerState
  handle_blockip ip =
      let (added, blocklist) = blocklist_add state.blocklist ip in
      let (kicked, clients) = kick_ip state.clients ip in
      if length ip == 0
      then respond state fd (codes "ERR empty ip\n")
      else if not added
      then respond (record state { blocklist = blocklist }) fd (codes "ERR blocklist full\n")
      else respond (record state { blocklist = blocklist; clients = clients }) fd
          (codes "OK blocked ip=" ++ (ip ++ (codes " kicked=" ++ (decimal kicked ++ codes "\n"))))

  unfoldable pub handle_unblockip : Bytes → ServerState
  handle_unblockip ip =
      let (removed, blocklist) = blocklist_remove state.blocklist ip in
      if length ip == 0
      then respond state fd (codes "ERR empty ip\n")
      else if not removed
      then respond (record state { blocklist = blocklist }) fd (codes "ERR not in blocklist\n")
      else respond (record state { blocklist = blocklist }) fd
          (list_text (codes "OK unblocked ip=" ++ (ip ++ codes " blocklist=")) []
            (blocklist_format blocklist buffer_size))

  unfoldable pub handle_admin_command : ProtocolCommand → ProtocolRequest → ServerState
  handle_admin_command ProtocolCommand.ping request = respond state fd (codes "PONG\n")
  handle_admin_command ProtocolCommand.help request = respond state fd send_admin_help_text
  handle_admin_command ProtocolCommand.stats request = respond state fd stats_text
  handle_admin_command ProtocolCommand.avgduration request = respond state fd average_text
  handle_admin_command ProtocolCommand.listjobs request = respond state fd (
      list_text (codes "JOBS ") (codes "ERR list failed\n")
        (job_table_format_list state.jobs (buffer_size + buffer_size)))
  handle_admin_command ProtocolCommand.history request = respond state fd (
      list_text (codes "HISTORY ") (codes "ERR history failed\n")
        (job_table_format_history env.duration state.jobs (buffer_size + buffer_size) 50))
  handle_admin_command ProtocolCommand.listclients request = respond state fd (
      list_text (codes "CLIENTS ") []
        (format_client_list state.clients (buffer_size + buffer_size)))
  handle_admin_command ProtocolCommand.cancel request =
      with_job state fd request.job_id
        (cancel_job state fd request.job_id (codes "ERR cannot cancel\n"))
  handle_admin_command ProtocolCommand.kick request = handle_kick request.argument1
  handle_admin_command ProtocolCommand.blockip request = handle_blockip request.argument1
  handle_admin_command ProtocolCommand.unblockip request = handle_unblockip request.argument1
  handle_admin_command ProtocolCommand.quit request =
      close_slot (respond state fd (codes "BYE\n")) slot
  handle_admin_command _ request = respond state fd (codes "ERR unknown admin command\n")
