-- ===== src/Protocol.antt =====
-- src/server/protocol.c and include/protocol.h: the parser of command lines. A line is a C string,
-- the bytes before its terminator.
pub mod Number
use pcd.Prelude.{
  ℕ, zero, suc, ◌+◌, Bool, true, false, Option, none, some, List, [], ◌∷◌, ◌++◌, Bytes, bytes_eq,
  codes, ◌==◌, if◌then◌else◌, snprintf,
}
use pcd.Protocol.Number.{strtoull, parse_u64, skip_ws}

-- `protocol_command_t`.
pub data ProtocolCommand : Type 0 where
  unknown ping quit submit status result cancel listjobs stats : ProtocolCommand
  validate_image analyze_capacity encode_text encode_file decode : ProtocolCommand
  validate capacity meta download listclients history kick : ProtocolCommand
  blockip unblockip avgduration help : ProtocolCommand

-- `protocol_request_t`; nothing sets its second argument.
pub record ProtocolRequest : Type 0 where
  pub command : ProtocolCommand
  pub job_id : ℕ
  pub size1 : ℕ
  pub size2 : ℕ
  pub size3 : ℕ
  pub argument1 : Bytes

-- `BUFFER_SIZE`.
abbrev pub buffer_size : ℕ
buffer_size = 4096

unfoldable pub trim_newline : Bytes → Bytes
trim_newline [] = []
trim_newline (ch ∷ []) = if ch == b'\n' then [] else ch ∷ []
trim_newline (ch ∷ next ∷ rest) = ch ∷ trim_newline (next ∷ rest)

-- What stands behind the prefix, when the text starts with it.
unfoldable pub starts_with : Bytes → Bytes → Option Bytes
starts_with s [] = some s
starts_with [] (p ∷ prefix) = none
starts_with (ch ∷ s) (p ∷ prefix) = elim (ch == p) [ true ↦ starts_with s prefix | false ↦ none ]

abbrev pub request_of : ProtocolCommand → ProtocolRequest
request_of command = record {
  command = command;
  job_id = 0;
  size1 = 0;
  size2 = 0;
  size3 = 0;
  argument1 = [];
}

-- The commands without an argument, in the order of the source.
unfoldable pub plain_commands : List (Bytes × ProtocolCommand)
plain_commands =
    (codes "PING", ping)
    ∷ (codes "QUIT", quit)
    ∷ (codes "LISTJOBS", listjobs)
    ∷ (codes "STATS", stats)
    ∷ (codes "LISTCLIENTS", listclients)
    ∷ (codes "HISTORY", history)
    ∷ (codes "AVGDURATION", avgduration)
    ∷ (codes "HELP", help)
    ∷ []

unfoldable pub find_plain : List (Bytes × ProtocolCommand) → Bytes → Option ProtocolCommand
find_plain [] text = none
find_plain ((name, command) ∷ rest) text = elim (bytes_eq text name) [
  | true ↦ some command
  | false ↦ find_plain rest text
]

-- What follows the name of a command: a text, the number of a job, or sizes.
pub data Argument : Type 0 where
  a_text a_job one_size two_sizes three_sizes : Argument

unfoldable pub prefixed_commands : List (Bytes × (ProtocolCommand × Argument))
prefixed_commands =
    (codes "SUBMIT ", (submit, a_text))
    ∷ (codes "STATUS ", (status, a_job))
    ∷ (codes "RESULT ", (result, a_job))
    ∷ (codes "CANCEL ", (cancel, a_job))
    ∷ (codes "VALIDATE_IMAGE ", (validate_image, a_text))
    ∷ (codes "ANALYZE_CAPACITY ", (analyze_capacity, a_text))
    ∷ (codes "ENCODE_TEXT ", (encode_text, two_sizes))
    ∷ (codes "ENCODE_FILE ", (encode_file, three_sizes))
    ∷ (codes "DECODE ", (decode, one_size))
    ∷ (codes "VALIDATE ", (validate, one_size))
    ∷ (codes "CAPACITY ", (capacity, one_size))
    ∷ (codes "META ", (meta, a_job))
    ∷ (codes "DOWNLOAD ", (download, a_job))
    ∷ (codes "KICK ", (kick, a_text))
    ∷ (codes "BLOCKIP ", (blockip, a_text))
    ∷ (codes "UNBLOCKIP ", (unblockip, a_text))
    ∷ []

-- The sizes that are read before one that cannot be read stay in the request.
unfoldable pub parse_sizes : ProtocolRequest → Bytes → ProtocolRequest
parse_sizes request p = elim (parse_u64 p) [
  | none ↦ record request { command = unknown }
  | some (size1, e) ↦ elim (parse_u64 (skip_ws e)) [
    | none ↦ record request { command = unknown; size1 = size1 }
    | some (size2, e') ↦ record request { size1 = size1; size2 = size2 }
  ]
]

unfoldable pub parse_three_sizes : ProtocolRequest → Bytes → ProtocolRequest
parse_three_sizes request p = elim (parse_u64 p) [
  | none ↦ record request { command = unknown }
  | some (size1, e) ↦ elim (parse_u64 (skip_ws e)) [
    | none ↦ record request { command = unknown; size1 = size1 }
    | some (size2, e') ↦ elim (parse_u64 (skip_ws e')) [
      | none ↦ record request { command = unknown; size1 = size1; size2 = size2 }
      | some (size3, e'') ↦ record request { size1 = size1; size2 = size2; size3 = size3 }
    ]
  ]
]

unfoldable pub parse_argument : ProtocolCommand → Argument → Bytes → ProtocolRequest
unfolding parse_sizes parse_three_sizes
parse_argument command a_text p = record (request_of command) { argument1 = snprintf buffer_size p }
parse_argument command a_job p = record (request_of command) { job_id = (strtoull p).value }
parse_argument command one_size p = record (request_of command) { size1 = (strtoull p).value }
parse_argument command two_sizes p = parse_sizes (request_of command) p
parse_argument command three_sizes p = parse_three_sizes (request_of command) p

unfoldable pub find_prefixed :
    List (Bytes × (ProtocolCommand × Argument))
    → Bytes
    → Option (ProtocolCommand × (Argument × Bytes))
find_prefixed [] text = none
find_prefixed ((name, (command, argument)) ∷ rest) text = elim (starts_with text name) [
  | some p ↦ some (command, (argument, p))
  | none ↦ find_prefixed rest text
]

-- `protocol_parse_line` behind the copy of the line.
unfoldable pub parse_copy : Bytes → ProtocolRequest
parse_copy copy = elim (find_plain plain_commands copy) [
  | some command ↦ request_of command
  | none ↦ elim (find_prefixed prefixed_commands copy) [
    | some (command, (argument, p)) ↦ parse_argument command argument p
    | none ↦ request_of unknown
  ]
]

unfoldable pub protocol_parse_line : Bytes → ProtocolRequest
protocol_parse_line line = parse_copy (trim_newline (snprintf buffer_size line))
