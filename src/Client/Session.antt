-- ===== src/Client/Session.antt =====
-- src/client/main.c: what the client does on its connection, with the files of its machine. What it
-- prints is left out, and so are the pauses of `wait_for_done`.
use pcd.Prelude.{
  ℕ, zero, suc, ◌-◌, ◌^◌, Bool, true, false, Option, none, some, [], ◌∷◌, ◌++◌, Bytes, codes,
  length, take, drop, ltb, leb, ◌==◌, if◌then◌else◌, snprintf, c_string,
}
use pcd.Net.{Descriptor, chunk_size, at_most, read_line, read_exact, write_all}
use pcd.Storage.{Files, put_file, get_file_size_bytes, send_rounds}
use pcd.Protocol.{starts_with, buffer_size}
use pcd.Protocol.Number.{read_digits, skip_space}
use pcd.Client.{
  ClientLine, status_line, result_line, meta_line, download_line, encode_text_line, sent_line,
  behind_first, parse_job_id,
}

-- The connection to the server and the files that the client sees.
pub record ClientState : Type 0 where
  pub connection : Descriptor
  pub files : Files

-- `none` for -1.
abbrev pub Client : Type 0 → Type 0
Client A = ClientState → Option A × ClientState

abbrev pub pure : {A : Type 0} → A → Client A
pure a s = (some a, s)

abbrev pub fail : {A : Type 0} → Client A
fail s = (none, s)

abbrev pub continue_with : {A B : Type 0} → (A → Client B) → Option A → Client B
continue_with next none s = (none, s)
continue_with next (some a) s = next a s

infixl 5 ◌>>=◌ ◌>>◌
abbrev pub ◌>>=◌ : {A B : Type 0} → Client A → (A → Client B) → Client B
◌>>=◌ first next s = continue_with next (first s).0 (first s).1

abbrev pub ◌>>◌ : {A B : Type 0} → Client A → Client B → Client B
first >> next = first >>= λ a. next

-- A step whose success is not looked at.
abbrev pub ignored : {A : Type 0} → Client A → Client (Unit {0})
ignored step s = (some tt, (step s).1)

abbrev pub need : {A : Type 0} → Option A → Client A
need result s = (result, s)

-- `write_all` with its result compared with 0.
unfoldable pub send_bytes : Bytes → Client (Unit {0})
send_bytes text s =
    let (total, connection) = write_all s.connection text in
    let result : Option (Unit {0}) = elim total [ none ↦ none | some n ↦ some tt ] in
    (result, record s { connection = connection })

unfoldable pub send_line : Bytes → Client (Unit {0})
unfolding send_bytes
send_line line = send_bytes line

abbrev pub some_line : Option Bytes → Option Bytes
some_line none = none
some_line (some []) = none
some_line (some (ch ∷ line)) = some (c_string (ch ∷ line))

-- `expect_line` and `read_banner`.
unfoldable pub expect_line : Client Bytes
expect_line s =
    let (line, connection) = read_line s.connection buffer_size in
    (some_line line, record s { connection = connection })

-- The files of the client: whether one can be measured with `fseek` and `ftell`, read to its end,
-- created, and extended by so many bytes.
pub record LocalDisk : Type 0 where
  pub can_seek : Bytes → Bool
  pub can_read : Bytes → Bool
  pub can_create : Bytes → Bool
  pub can_store : Bytes → ℕ → Bool

-- The loop of `send_file_bytes` over what is left of the file, one round for each chunk. A chunk
-- that is not full is the last one; `readable` is false when `ferror` is set then.
unfoldable pub send_chunks : ℕ → Bool → Descriptor → Bytes → Option (Unit {0}) × Descriptor
send_chunks zero readable fd contents = (none, fd)
send_chunks (suc fuel) readable fd contents =
    let part = take chunk_size contents in
    elim (write_all fd part).0 [
      | none ↦ (none, (write_all fd part).1)
      | some total ↦ elim (ltb (length part) chunk_size) [
        | true ↦ (if readable then some tt else none, (write_all fd part).1)
        | false ↦ send_chunks fuel readable (write_all fd part).1 (drop chunk_size contents)
      ]
    ]

-- `strtol` in base ten; `none` for a negative number.
unfoldable pub strtol : Bytes → Option ℕ
strtol text = elim (skip_space text) [
  | [] ↦ some 0
  | c ∷ s ↦
      let below = (read_digits 0 s).0 in
      let value = if c == b'+' then below else (read_digits 0 (c ∷ s)).0 in
      if c == b'-'
      then (if below == 0 then some 0 else none)
      else some (if leb (2 ^ 63) value then 2 ^ 63 - 1 else value)
]

-- `none` for -1 and every negative number.
unfoldable pub parse_data_size : Bytes → Option ℕ
parse_data_size line = elim (starts_with line (codes "DATA ")) [
  | none ↦ none
  | some rest ↦ strtol rest
]

-- A command of 64 bytes at most.
abbrev pub job_line : ClientLine → Bytes
job_line line = snprintf 64 (sent_line line)

-- What an answer to STATUS says: done, ended otherwise, or not yet.
pub data Verdict : Type 0 where
  succeeded gave_up pending : Verdict

unfoldable pub mentions : Bytes → Bytes → Bool
mentions line text = elim (behind_first line text) [ none ↦ false | some rest ↦ true ]

unfoldable pub verdict : Bytes → Verdict
verdict buf =
    if mentions buf (codes "DONE")
    then succeeded
    else if mentions buf (codes "FAILED")
    then gave_up
    else if mentions buf (codes "CANCELED")
    then gave_up
    else pending

-- The rounds of `wait_for_done`.
unfoldable pub wait_rounds : ℕ → ℕ → Client (Unit {0})
wait_rounds zero job_id s = (none, s)
wait_rounds (suc rounds) job_id s =
    let (answer, s') = (do send_line (job_line (status_line job_id)); expect_line) s in
    elim answer [
      | none ↦ (none, s')
      | some buf ↦ elim (verdict buf) [
        | succeeded ↦ (some tt, s')
        | gave_up ↦ (none, s')
        | pending ↦ wait_rounds rounds job_id s'
      ]
    ]

unfoldable pub wait_for_done : ℕ → Client (Unit {0})
wait_for_done job_id = wait_rounds 120 job_id

-- `stat`.
abbrev pub file_size : Bytes → Client ℕ
file_size path s = (get_file_size_bytes s.files path, s)

abbrev pub job_of : Bytes → Client ℕ
job_of buf s = (if parse_job_id buf == 0 then none else some (parse_job_id buf), s)

-- The answer to a command that starts a job: its number.
unfoldable pub started_job : Client ℕ
started_job = do buf ← expect_line; job_of buf

-- `META` or `RESULT`, whose answer is shown only.
unfoldable pub ask : ClientLine → Client (Unit {0})
ask line = do ignored (send_line (job_line line)); ignored expect_line

-- After a job that did not end well: two commands and one answer.
abbrev pub ask_after_failure : ℕ → Client (Unit {0})
ask_after_failure job_id = do
  ignored (send_line (codes "RESULT 0\n"))
  ask (result_line job_id)
  fail

abbrev pub otherwise : Client (Unit {0}) → Client (Unit {0}) → Client (Unit {0})
otherwise step after s = elim (step s).0 [ none ↦ after (step s).1 | some _ ↦ step s ]

abbrev pub line_buffer : ℕ → ClientLine → Bytes
line_buffer size line = snprintf size (sent_line line)

module _ (disk : LocalDisk) where
  unfoldable pub send_file_bytes : Bytes → Client (Unit {0})
  send_file_bytes path s = elim (s.files path) [
    | none ↦ (none, s)
    | some contents ↦
        let (result, connection) =
          send_chunks (send_rounds contents) (disk.can_read path) s.connection contents in
        if disk.can_seek path then (result, record s { connection = connection }) else (none, s)
  ]

  -- The loop of `download_result`: whether every byte came, the bytes stored, and the connection.
  -- Each round stores a byte at least. Of a call of `fwrite` that fails nothing is stored.
  unfoldable pub download_loop : ℕ → Bytes → ℕ → Descriptor → Bytes → Bool × (Bytes × Descriptor)
  download_loop fuel out_path zero fd stored = (true, (stored, fd))
  download_loop zero out_path (suc n) fd stored = (false, (stored, fd))
  download_loop (suc fuel) out_path (suc n) fd stored =
      let (data', after) = read_exact fd (at_most chunk_size (suc n)) in
      elim data' [
        | none ↦ (false, (stored, after))
        | some got ↦ elim (length got) [
          | zero ↦ (false, (stored, after))
          | suc rc ↦ elim (disk.can_store out_path (suc rc)) [
            | false ↦ (false, (stored, after))
            | true ↦ download_loop fuel out_path (n - rc) after (stored ++ got)
          ]
        ]
      ]

  -- The bytes that the server announced, into the file; what came stays there.
  unfoldable pub save_data : ℕ → Bytes → Client (Unit {0})
  save_data size out_path s =
      let (whole, (stored, connection)) = download_loop size out_path size s.connection [] in
      if disk.can_create out_path
      then (
        if whole then some tt else none,
        record { connection = connection; files = put_file s.files out_path (some stored) },
      )
      else (none, s)

  unfoldable pub download_result : ℕ → Bytes → Client (Unit {0})
  download_result job_id out_path = do
    send_line (job_line (download_line job_id))
    buf ← expect_line
    size ← need (parse_data_size buf)
    save_data size out_path

  -- The part of a command up to the answer: the line and the files.
  unfoldable pub send_text_request : Bytes → Bytes → Client (Unit {0})
  send_text_request png_in text = do
    png_size ← file_size png_in
    send_line (line_buffer 256 (encode_text_line png_size (length text)))
    send_file_bytes png_in
    send_bytes text

  unfoldable pub cmd_encode_text : Bytes → Bytes → Bytes → Client (Unit {0})
  unfolding send_text_request
  cmd_encode_text png_in text out_png = do
    send_text_request png_in text
    job_id ← started_job
    otherwise (wait_for_done job_id) (ask_after_failure job_id)
    ask (meta_line job_id)
    download_result job_id out_png
