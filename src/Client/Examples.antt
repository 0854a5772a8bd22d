-- ===== src/Client/Examples.antt =====
-- Tests of the models of src/client/main.c and src/server/protocol.c, and their theorems at concrete
-- inputs.
use pcd.Prelude.{◌^◌, ◌-◌, ◌≡◌, refl, arith, codes}
use pcd.Protocol.{
  request_of, protocol_parse_line, encode_text, unknown, find_plain, plain_commands, find_prefixed,
  starts_with, parse_argument, parse_copy, parse_sizes, trim_newline, prefixed_commands,
}
use pcd.Prelude.{bytes_eq}
use pcd.Protocol.Number.{
  strtoull, parse_u64, skip_ws, skip_space, signed, unsigned, read_digits, is_digit, is_space,
}
use pcd.Client.{sent_line, encode_file_line, parse_job_id, behind_first}
use pcd.Client.Commands.{meant, protocol_parse_line-sent_line}

protocol_parse_line-sent_line_example :
    protocol_parse_line (sent_line (encode_file_line 70000 8 12))
    ≡ meant (encode_file_line 70000 8 12)
protocol_parse_line-sent_line_example =
    protocol_parse_line-sent_line (encode_file_line 70000 8 12) (omega arith)

-- The answer to a command, as the client reads it.
reads_job : parse_job_id (codes "JOB 17\n") ≡ 17
unfolding parse_job_id behind_first starts_with strtoull skip_space signed unsigned read_digits
    is_digit is_space
reads_job = refl

-- A size that cannot be read makes the command unknown, and keeps the sizes before it.
half_a_command :
    protocol_parse_line (codes "ENCODE_TEXT 12 x") ≡ record (request_of unknown) { size1 = 12 }
unfolding protocol_parse_line parse_copy trim_newline find_plain plain_commands find_prefixed
    prefixed_commands starts_with parse_argument parse_sizes parse_u64 strtoull skip_space skip_ws
    signed unsigned read_digits is_digit is_space bytes_eq
half_a_command = refl

-- A sign is read: a negative size is taken modulo 2 ^ 64.
negative_size :
    protocol_parse_line (codes "ENCODE_TEXT -1 2")
    ≡ record (request_of encode_text) { size1 = 2 ^ 64 - 1; size2 = 2 }
unfolding protocol_parse_line parse_copy trim_newline find_plain plain_commands find_prefixed
    prefixed_commands starts_with parse_argument parse_sizes parse_u64 strtoull skip_space skip_ws
    signed unsigned read_digits is_digit is_space bytes_eq
negative_size = refl
