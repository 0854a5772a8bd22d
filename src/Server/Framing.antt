-- ===== src/Server/Framing.antt =====
-- How src/server/server.c takes the file that a user sends behind a command line.
use pcd.Prelude.{
  ℕ, ◌+◌, ◌≤◌, ◌<◌, ◌≡◌, ◌≢◌, refl, sym, ap, ◌∙◌, arith, true, false, ◌||◌, some, ◌++◌, Bytes,
  codes, length, length-append, take, drop, take-append, drop-append, ltb, ◌==◌, c_string, subst,
}
use pcd.Net.{Descriptor, read_exact}
use pcd.Net.Reading.{read_exact-take}
use pcd.Net.Left.{CanRead, CanRead-Spent, CanRead-le, read_exact-Spent}
use pcd.Net.Writing.{rounds-le-supply}
use pcd.Storage.{Disk, storage_make_upload_path, storage_receive_to_file, max_job_path}
use pcd.Storage.Transfer.{storage_receive_to_file-take, storage_receive_to_file-other}
use pcd.Storage.Left.{storage_receive_to_file-Spent}
use pcd.Server.User.{read_name}
use pcd.Server.State.{
  ServerState, Surroundings, set_connection, receive_png_to_upload, receive_extra_to_file,
}

-- The disk takes a whole file at the path.
pub record Takes (disk : Disk) (path : Bytes) : Type 0 where
  pub opens : disk.can_open path ≡ true
  pub stores : (n : ℕ) → disk.can_store path n ≡ true
  pub closes : disk.can_close path ≡ true

-- A file of the client has been stored at the path, with `rest` still to be read and calls for
-- `more` bytes; jobs, queue and sessions are as before.
pub record Received (state after : ServerState) (fd : ℕ) (path contents rest : Bytes) (more : ℕ)
    : Type 0 where
  pub input : (after.connections fd).input ≡ rest
  pub stored : after.files path ≡ some contents
  pub others : (other : Bytes) → path ≢ other → after.files other ≡ state.files other
  pub jobs : after.jobs ≡ state.jobs
  pub queue : after.queue ≡ state.queue
  pub ready : CanRead (after.connections fd) more

pub set_connection_lem :
    (state : ServerState) (fd : ℕ) (connection : Descriptor)
    → (set_connection state fd connection).connections fd ≡ connection
set_connection_lem state fd connection =
    let itself : (fd == fd) ≡ true = ground arith in rw itself refl

pub receive_png_to_upload-Received :
    (env : Surroundings) (state : ServerState) (fd more : ℕ) (path png rest : Bytes)
    → storage_make_upload_path env.dirs state.jobs.next_id (codes "png") max_job_path ≡ some path
    → Takes env.disk path
    → 0 < length png
    → length png ≤ env.max_upload_bytes
    → CanRead (state.connections fd) (length png + more)
    → (state.connections fd).input ≡ png ++ rest
    → ((receive_png_to_upload env state fd (length png)).0 ≡ some path)
      × Received state (receive_png_to_upload env state fd (length png)).1 fd path png rest more
unfolding receive_png_to_upload
receive_png_to_upload-Received env state fd more path png rest named takes some_bytes allowed can
      sent =
    let few =
      CanRead-le (state.connections fd) (length png) (length png + more) can (omega arith) in
    let long : length png ≤ length (state.connections fd).input =
      omega (arith, ap (length {A = ℕ}) sent, length-append png rest) in
    let (done, input, stored) =
      storage_receive_to_file-take env.disk path (state.connections fd) state.files (length png)
        takes.opens takes.closes takes.stores can.steady few.enough long in
    let spent =
      storage_receive_to_file-Spent env.disk path (state.connections fd) state.files (length png)
        takes.opens takes.closes takes.stores can.steady few.enough long in
    let valid : ((length png == 0) || ltb env.max_upload_bytes (length png)) ≡ false =
      ground (arith, some_bytes, allowed) in
    let connection =
      (storage_receive_to_file env.disk path (state.connections fd) state.files (length png)).1.0 in
    let same = set_connection_lem state fd connection in
    rw (receive_png_to_upload, valid, named, done)
      (
        refl,
        record {
          input =
              ap (λ (d : Descriptor). d.input) same
              ∙ input
              ∙ ap (drop (length png)) sent
              ∙ drop-append png rest;
          stored =
              stored
              ∙ ap (λ (s : Bytes). some (take (length png) s)) sent
              ∙ ap some (take-append png rest);
          others = λ other ne.
              storage_receive_to_file-other env.disk path (state.connections fd) state.files
                (length png) other ne;
          jobs = refl;
          queue = refl;
          ready =
              subst (λ (d : Descriptor). CanRead d more) (sym same)
                (CanRead-Spent (state.connections fd) connection (length png) more can spent);
        },
      )

pub receive_extra_to_file-Received :
    (env : Surroundings) (state : ServerState) (fd limit job_seq more : ℕ)
    (label suffix path contents rest : Bytes)
    → storage_make_upload_path env.dirs job_seq suffix max_job_path ≡ some path
    → Takes env.disk path
    → 0 < length contents
    → length contents ≤ limit
    → CanRead (state.connections fd) (length contents + more)
    → (state.connections fd).input ≡ contents ++ rest
    → ((receive_extra_to_file env state fd (length contents) limit label job_seq suffix).0
        ≡ some path)
      × Received state
          (receive_extra_to_file env state fd (length contents) limit label job_seq suffix).1
          fd
          path
          contents
          rest
          more
unfolding receive_extra_to_file
receive_extra_to_file-Received env state fd limit job_seq more label suffix path contents rest named
      takes some_bytes allowed can sent =
    let few =
      CanRead-le (state.connections fd) (length contents) (length contents + more) can
        (omega arith) in
    let long : length contents ≤ length (state.connections fd).input =
      omega (arith, ap (length {A = ℕ}) sent, length-append contents rest) in
    let (done, input, stored) =
      storage_receive_to_file-take env.disk path (state.connections fd) state.files
        (length contents) takes.opens takes.closes takes.stores can.steady few.enough long in
    let spent =
      storage_receive_to_file-Spent env.disk path (state.connections fd) state.files
        (length contents) takes.opens takes.closes takes.stores can.steady few.enough long in
    let small : ltb limit (length contents) ≡ false = ground (arith, allowed) in
    let sized : (length contents == 0) ≡ false = ground (arith, some_bytes) in
    let connection =
      (storage_receive_to_file env.disk path (state.connections fd) state.files
        (length contents)).1.0 in
    let same = set_connection_lem state fd connection in
    rw (receive_extra_to_file, small, named, sized, done)
      (
        refl,
        record {
          input =
              ap (λ (d : Descriptor). d.input) same
              ∙ input
              ∙ ap (drop (length contents)) sent
              ∙ drop-append contents rest;
          stored =
              stored
              ∙ ap (λ (s : Bytes). some (take (length contents) s)) sent
              ∙ ap some (take-append contents rest);
          others = λ other ne.
              storage_receive_to_file-other env.disk path (state.connections fd) state.files
                (length contents) other ne;
          jobs = refl;
          queue = refl;
          ready =
              subst (λ (d : Descriptor). CanRead d more) (sym same)
                (CanRead-Spent (state.connections fd) connection (length contents) more can spent);
        },
      )

-- The name that `ENCODE_FILE` reads, for a name without a terminator.
pub read_name-Received :
    (env : Surroundings) (start state : ServerState) (slot fd more : ℕ) (addr_str name rest : Bytes)
    → 0 < length name
    → c_string name ≡ name
    → CanRead (state.connections fd) (length name + more)
    → (state.connections fd).input ≡ name ++ rest
    → ((read_name env start slot fd addr_str state (length name)).0 ≡ some name)
      × (((read_name env start slot fd addr_str state (length name)).1.connections fd).input ≡ rest)
      × CanRead ((read_name env start slot fd addr_str state (length name)).1.connections fd) more
      × ((read_name env start slot fd addr_str state (length name)).1.files ≡ state.files)
      × ((read_name env start slot fd addr_str state (length name)).1.jobs ≡ state.jobs)
      × ((read_name env start slot fd addr_str state (length name)).1.queue ≡ state.queue)
read_name-Received env start state slot fd more addr_str name rest some_bytes text can sent =
    let fd' = state.connections fd in
    let few = CanRead-le fd' (length name) (length name + more) can (omega arith) in
    let long : length name ≤ length fd'.input =
      omega (arith, ap (length {A = ℕ}) sent, length-append name rest) in
    let (found, left) =
      read_exact-take fd' (length name) can.steady
        (omega (arith, few.enough, rounds-le-supply fd'.reads can.steady)) long in
    let spent = read_exact-Spent fd' (length name) few long in
    let connection = (read_exact fd' (length name)).1 in
    let same = set_connection_lem state fd connection in
    let whole : (read_exact fd' (length name)).0 ≡ some name =
      found
      ∙ ap (λ (s : Bytes). some (take (length name) s)) sent
      ∙ ap some (take-append name rest) in
    let sized : (length name == 0) ≡ false = ground (arith, some_bytes) in
    let itself : (length name == length name) ≡ true = ground arith in
    rw (sized, whole, itself, text)
      (
        refl,
        ap (λ (d : Descriptor). d.input) same
            ∙ left
            ∙ ap (drop (length name)) sent
            ∙ drop-append name rest,
        subst (λ (d : Descriptor). CanRead d more) (sym same)
            (CanRead-Spent fd' connection (length name) more can spent),
        refl,
        refl,
        refl,
      )
