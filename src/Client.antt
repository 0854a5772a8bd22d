-- ===== src/Client.antt =====
-- src/client/main.c: the lines that the client sends, and the job number that it reads in an answer.
-- Its steps, its transfers and its commands are the children.
pub mod Commands
pub mod Answers
pub mod Lines
pub mod Uploads
pub mod Payloads
pub mod Session
pub mod Main
pub mod Requests
pub mod Sending
pub mod EndToEnd
pub mod Downloads
pub mod Replies
pub mod Served
pub mod Verdicts
pub mod Waiting
mod Examples
mod SessionExamples
use pcd.Prelude.{
  ℕ, suc, ◌+◌, ◌*◌, Bool, Option, none, some, List, [], ◌∷◌, ◌++◌, Bytes, codes, decimal,
}
use pcd.Protocol.{
  ProtocolRequest, request_of, starts_with, ping, quit, status, result, meta, download, encode_text,
  encode_file, decode, capacity, validate,
}
use pcd.Protocol.Number.{strtoull}

-- The command lines of the client, by the calls of `send_line`.
pub data ClientLine : Type 0 where
  ping_line quit_line : ClientLine
  status_line result_line meta_line download_line : ℕ → ClientLine
  encode_text_line : ℕ → ℕ → ClientLine
  encode_file_line : ℕ → ℕ → ℕ → ClientLine
  decode_line capacity_line validate_line : ℕ → ClientLine

-- The text without its newline.
unfoldable pub line_text : ClientLine → Bytes
line_text ping_line = codes "PING"
line_text quit_line = codes "QUIT"
line_text (status_line job_id) = codes "STATUS " ++ decimal job_id
line_text (result_line job_id) = codes "RESULT " ++ decimal job_id
line_text (meta_line job_id) = codes "META " ++ decimal job_id
line_text (download_line job_id) = codes "DOWNLOAD " ++ decimal job_id
line_text (encode_text_line png_size text_len) =
    codes "ENCODE_TEXT " ++ (decimal png_size ++ (b' ' ∷ decimal text_len))
line_text (encode_file_line png_size name_len file_size) =
    codes "ENCODE_FILE "
    ++ (decimal png_size ++ (b' ' ∷ (decimal name_len ++ (b' ' ∷ decimal file_size))))
line_text (decode_line png_size) = codes "DECODE " ++ decimal png_size
line_text (capacity_line png_size) = codes "CAPACITY " ++ decimal png_size
line_text (validate_line png_size) = codes "VALIDATE " ++ decimal png_size

unfoldable pub sent_line : ClientLine → Bytes
sent_line line = line_text line ++ (b'\n' ∷ [])

-- `strstr`, for a text that is not empty: what begins at its first occurrence, behind it.
unfoldable pub behind_first : Bytes → Bytes → Option Bytes
behind_first [] text = none
behind_first (ch ∷ line) text = elim (starts_with (ch ∷ line) text) [
  | some rest ↦ some rest
  | none ↦ behind_first line text
]

-- 0 when the answer has no job.
unfoldable pub parse_job_id : Bytes → ℕ
unfolding behind_first
parse_job_id line = elim (behind_first line (codes "JOB ")) [
  | none ↦ 0
  | some rest ↦ (strtoull rest).value
]
