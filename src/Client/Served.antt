-- ===== src/Client/Served.antt =====
-- DOWNLOAD between src/client/main.c and src/server/server.c: what the server sends is what the
-- client saves.
use pcd.Prelude.{
  ℕ, ◌+◌, ◌^◌, ◌<◌, ◌≡◌, refl, sym, ap, ◌∙◌, arith, true, false, some, [], ◌∷◌, ◌++◌, append_assoc,
  append-nil, Bytes, codes, decimal, length, length-append, length-decimal, leb, ◌==◌, subst,
}
use pcd.Net.{Descriptor, write_all}
use pcd.Net.Left.{CanRead, CanRead-le, CanWrite, CanWrite-le, write_all-CanWrite}
use pcd.Job.{Job}
use pcd.Storage.{get_file_size_bytes, storage_send_file}
use pcd.Storage.Transfer.{storage_send_file-output}
use pcd.Server.State.{ServerState, Surroundings, buffer_size, set_connection, send_responsef}
use pcd.Server.User.{is_done, download}
use pcd.Server.Framing.{set_connection_lem}
use pcd.Client.Session.{ClientState, LocalDisk, download_result}
use pcd.Client.Downloads.{data_text, download_result-Saved}

-- A job whose output file the server can send.
pub record Downloadable (env : Surroundings) (state : ServerState) (job : Job) (contents : Bytes)
    : Type 0 where
  pub finished : is_done job.state ≡ true
  pub named : (length job.output_path == 0) ≡ false
  pub found : state.files job.output_path ≡ some contents
  pub readable : env.disk.can_read job.output_path ≡ true

abbrev pub answer_size : Bytes → ℕ
answer_size contents = length (data_text (length contents)) + 1 + length contents

pub download-output :
    (env : Surroundings) (state : ServerState) (slot fd : ℕ) (addr_str : Bytes) (job : Job)
    (contents : Bytes)
    → Downloadable env state job contents
    → CanWrite (state.connections fd) (answer_size contents)
    → ((download env state slot fd addr_str job).connections fd).output
      ≡ (state.connections fd).output ++ (data_text (length contents) ++ (b'\n' ∷ contents))
unfolding download send_responsef get_file_size_bytes
download-output env state slot fd addr_str job contents ready can =
    let size = length contents in
    let text : Bytes = codes "DATA " ++ (decimal size ++ codes "\n") in
    let same_text : text ≡ data_text size ++ (b'\n' ∷ []) =
      sym (append_assoc (codes "DATA ") (decimal size) (codes "\n")) in
    let text_length : length text ≡ length (data_text size) + 1 =
      ap (length {A = ℕ}) same_text ∙ length-append (data_text size) (b'\n' ∷ []) in
    let short : leb buffer_size (length text) ≡ false =
      ground (arith, text_length, length-decimal size) in
    let fd' = state.connections fd in
    let (count, output, left) = write_all-CanWrite fd' text size (
      CanWrite-le fd' (length text + size) (answer_size contents) can
        (omega (arith, text_length))) in
    let answered = set_connection state fd (write_all fd' text).1 in
    let same = set_connection_lem state fd (write_all fd' text).1 in
    let ready_to_send : CanWrite (answered.connections fd) size =
      subst (λ (d : Descriptor). CanWrite d size) (sym same) left in
    let (whole, sent) =
      storage_send_file-output env.disk (answered.connections fd) state.files job.output_path
        contents ready.found ready.readable ready_to_send.steady ready_to_send.enough in
    let connection =
      (storage_send_file env.disk (answered.connections fd) state.files job.output_path).1 in
    let steps : download env state slot fd addr_str job ≡ set_connection answered fd connection =
      rw
        (
          download, ready.finished, ready.named, get_file_size_bytes, ready.found, send_responsef,
          short, count,
        )
        refl in
    ap (λ (after : ServerState). (after.connections fd).output) steps
    ∙ ap (λ (d : Descriptor). d.output) (set_connection_lem answered fd connection)
    ∙ sent
    ∙ ap (λ (d : Descriptor). d.output ++ contents) same
    ∙ ap (λ (o : Bytes). o ++ contents) (output ∙ ap (◌++◌ fd'.output) same_text)
    ∙ append_assoc fd'.output (data_text size ++ (b'\n' ∷ [])) contents
    ∙ ap (◌++◌ fd'.output) (append_assoc (data_text size) (b'\n' ∷ []) contents)

-- A finished job's file that the server sends in answer to DOWNLOAD is what the client saves, byte
-- for byte, and nothing stays unread: the client had read everything before, the file is smaller
-- than 2 ^ 63 bytes and both disks work, and the calls of read and write do not fail, one for each
-- byte at most.
pub download_result-download :
    (env : Surroundings) (state : ServerState) (slot fd : ℕ) (addr_str : Bytes) (job : Job)
    (disk : LocalDisk) (s : ClientState) (job_id : ℕ) (out_path contents : Bytes)
    → Downloadable env state job contents
    → CanWrite (state.connections fd) (answer_size contents)
    → (state.connections fd).output ≡ []
    → s.connection.input ≡ ((download env state slot fd addr_str job).connections fd).output
    → length contents < 2 ^ 63
    → disk.can_create out_path ≡ true
    → ((n : ℕ) → disk.can_store out_path n ≡ true)
    → CanRead s.connection (answer_size contents)
    → CanWrite s.connection 30
    → ((download_result disk job_id out_path s).0 ≡ some tt)
      × ((download_result disk job_id out_path s).1.files out_path ≡ some contents)
      × ((download_result disk job_id out_path s).1.connection.input ≡ [])
download_result-download env state slot fd addr_str job disk s job_id out_path contents ready
      server_writes fresh carried small creates stores client_reads client_writes =
    let text = data_text (length contents) in
    let sent : s.connection.input ≡ text ++ (b'\n' ∷ (contents ++ [])) =
      carried
      ∙ download-output env state slot fd addr_str job contents ready server_writes
      ∙ ap (λ (o : Bytes). o ++ (text ++ (b'\n' ∷ contents))) fresh
      ∙ ap (λ (c : Bytes). text ++ (b'\n' ∷ c)) (sym (append-nil contents)) in
    download_result-Saved disk s job_id 0 out_path contents [] small creates stores
      (CanRead-le s.connection (length text + 1 + (length contents + 0)) (answer_size contents)
        client_reads (omega arith))
      client_writes sent
