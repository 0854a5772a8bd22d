-- ===== src/Client/Main.antt =====
-- src/client/main.c: the commands on files and the choice of the command.
use pcd.Prelude.{
  ℕ, Bool, true, false, Option, none, some, List, [], ◌∷◌, Bytes, bytes_eq, codes, length,
  if◌then◌else◌, base_name,
}
use pcd.Net.{Descriptor}
use pcd.Storage.{Files}
use pcd.Client.{
  ClientLine, result_line, meta_line, encode_file_line, decode_line, capacity_line, validate_line,
}
use pcd.Client.Session.{
  ClientState, Client, ignored, ◌>>=◌, ◌>>◌, LocalDisk, send_line, send_bytes, expect_line,
  send_file_bytes, file_size, line_buffer, started_job, wait_for_done, ask, download_result,
  cmd_encode_text,
}

module _ (disk : LocalDisk) where
  unfoldable pub send_file_request : Bytes → Bytes → Client (Unit {0})
  send_file_request png_in file_in = do
    png_size ← file_size png_in
    payload_size ← file_size file_in
    send_line
        (line_buffer 256 (encode_file_line png_size (length (base_name file_in)) payload_size))
    send_file_bytes disk png_in
    send_bytes (base_name file_in)
    send_file_bytes disk file_in

  unfoldable pub cmd_encode_file : Bytes → Bytes → Bytes → Client (Unit {0})
  unfolding send_file_request
  cmd_encode_file png_in file_in out_png = do
    send_file_request png_in file_in
    job_id ← started_job
    wait_for_done job_id
    download_result disk job_id out_png

  -- The requests with one file.
  unfoldable pub send_png_request : (ℕ → ClientLine) → Bytes → Client (Unit {0})
  send_png_request line png_in = do
    png_size ← file_size png_in
    send_line (line_buffer 128 (line png_size))
    send_file_bytes disk png_in

  unfoldable pub cmd_decode : Bytes → Bytes → Client (Unit {0})
  unfolding send_png_request
  cmd_decode png_in out_path = do
    send_png_request decode_line png_in
    job_id ← started_job
    wait_for_done job_id
    ask (meta_line job_id)
    download_result disk job_id out_path

  unfoldable pub cmd_capacity : Bytes → Client (Unit {0})
  unfolding send_png_request
  cmd_capacity png_in = do
    send_png_request capacity_line png_in
    job_id ← started_job
    wait_for_done job_id
    ask (result_line job_id)

  unfoldable pub cmd_validate : Bytes → Client (Unit {0})
  unfolding send_png_request
  cmd_validate png_in = do
    send_png_request validate_line png_in
    job_id ← started_job
    wait_for_done job_id
    ask (result_line job_id)

  unfoldable pub ping_server : Client (Unit {0})
  ping_server = do ignored (send_line (codes "PING\n")); buf ← expect_line; λ s. (some tt, s)

  -- The command that the arguments name, behind the program's name; `none` for the usage text.
  unfoldable pub chosen : Bytes → List Bytes → Option (Client (Unit {0}))
  chosen name (a ∷ []) =
      if bytes_eq name (codes "ping")
      then some ping_server
      else if bytes_eq name (codes "capacity")
      then some (cmd_capacity a)
      else if bytes_eq name (codes "validate")
      then some (cmd_validate a)
      else none
  chosen name (a ∷ b ∷ []) =
      if bytes_eq name (codes "ping")
      then some ping_server
      else if bytes_eq name (codes "decode")
      then some (cmd_decode a b)
      else none
  chosen name (a ∷ b ∷ c ∷ []) =
      if bytes_eq name (codes "ping")
      then some ping_server
      else if bytes_eq name (codes "encode-text")
      then some (cmd_encode_text disk a b c)
      else if bytes_eq name (codes "encode-file")
      then some (cmd_encode_file a b c)
      else none
  chosen name _ = if bytes_eq name (codes "ping") then some ping_server else none

  -- The session behind the banner: QUIT is sent after a command, not after the usage text.
  unfoldable pub run_session : Option (Client (Unit {0})) → ClientState → Bool × ClientState
  run_session none s = (false, s)
  run_session (some command) s =
      let (result, after) = command s in
      let left = (do ignored (send_line (codes "QUIT\n")); ignored expect_line) after in
      (elim result [ none ↦ false | some _ ↦ true ], left.1)

  -- `main`, by whether it ends with EXIT_SUCCESS: `connected` is the connection that
  -- `connect_to_server` gives.
  unfoldable pub main : List Bytes → Option Descriptor → Files → Bool × Files
  unfolding chosen run_session
  main [] connected files = (false, files)
  main (name ∷ arguments) none files = (false, files)
  main (name ∷ arguments) (some fd) files =
      let (banner, s) = expect_line (record { connection = fd; files = files }) in
      let (success, after) = run_session (chosen name arguments) s in (success, after.files)
