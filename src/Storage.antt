-- ===== src/Storage.antt =====
-- src/server/storage.c: the directories of the server, the paths of its files, and the loops that
-- move a file between a descriptor and the disk. The disk's files are a function from paths to
-- contents; whether a call on a file succeeds is the parameter Disk. Null pointers are not
-- modelled.
pub mod Paths
pub mod Transfer
pub mod Left
pub mod Apart
pub mod Copying
mod Examples
use pcd.Prelude.{
  ℕ, zero, suc, ◌+◌, ◌-◌, ◌/◌, ◌<◌, ◌≡◌, Bool, true, false, not, ◌&&◌, Option, none, some, List, [],
  ◌∷◌, ◌++◌, Bytes, bytes_eq, codes, length, take, drop, ltb, leb, ◌==◌, if◌then◌else◌, snprintf,
  decimal,
}
use pcd.Net.{IoCall, interrupted, failed, moves, Descriptor, chunk, chunk_size, at_most, write_all}

-- `MAX_JOB_PATH`.
abbrev pub max_job_path : ℕ
max_job_path = 512

-- The file's globals.
pub record StorageDirs : Type 0 where
  pub root : Bytes
  pub uploads : Bytes
  pub results : Bytes
  pub temp : Bytes

unfoldable pub default_dirs : StorageDirs
default_dirs = record {
  root = codes "storage";
  uploads = codes "storage/uploads";
  results = codes "storage/results";
  temp = codes "storage/temp";
}

-- `snprintf` into a buffer: whether the text fits, and what the buffer then holds.
abbrev pub printed : Bytes → ℕ → Bool × Bytes
printed text out_size = (ltb (length text) out_size, snprintf out_size text)

unfoldable pub build_child_path : Bytes → Bytes → ℕ → Bool × Bytes
build_child_path root name out_size = printed (root ++ (b'/' ∷ name)) out_size

-- Each directory is set even when its text is cut; a failure leaves the later ones.
unfoldable pub storage_set_root : StorageDirs → Bytes → Bool × StorageDirs
storage_set_root dirs root_path =
    if length root_path == 0
    then (false, dirs)
    else let (root_fits, root) = printed root_path max_job_path in
      let rooted = record dirs { root = root } in
      if not root_fits
      then (false, rooted)
      else let (uploads_fit, uploads) = build_child_path root (codes "uploads") max_job_path in
        let with_uploads = record rooted { uploads = uploads } in
        if not uploads_fit
        then (false, with_uploads)
        else let (results_fit, results) = build_child_path root (codes "results") max_job_path in
          let with_results = record with_uploads { results = results } in
          if not results_fit
          then (false, with_results)
          else let (temp_fit, temp) = build_child_path root (codes "temp") max_job_path in
            (temp_fit, record with_results { temp = temp })

-- What `stat` finds at a path.
pub data Entry : Type 0 where
  absent directory other_file : Entry

unfoldable pub make_directory : (Bytes → Entry) → Bytes → Bytes → Entry
make_directory tree path other = if bytes_eq path other then directory else tree other

-- `mkdir_ok`: whether a call of `mkdir` succeeds.
module _ (mkdir_ok : Bytes → Bool) where
  unfoldable pub ensure_directory_exists : (Bytes → Entry) → Bytes → Bool × (Bytes → Entry)
  unfolding make_directory
  ensure_directory_exists tree path = elim (tree path) [
    | directory ↦ (true, tree)
    | other_file ↦ (false, tree)
    | absent ↦ if mkdir_ok path then (true, make_directory tree path) else (false, tree)
  ]

  unfoldable pub ensure_directories : (Bytes → Entry) → List Bytes → Bool × (Bytes → Entry)
  ensure_directories tree [] = (true, tree)
  ensure_directories tree (path ∷ paths) =
      let (made, tree') = ensure_directory_exists tree path in
      let rest = ensure_directories tree' paths in if made then rest else (false, tree')

  unfoldable pub storage_init_dirs : StorageDirs → (Bytes → Entry) → Bool × (Bytes → Entry)
  unfolding ensure_directories
  storage_init_dirs dirs tree =
      ensure_directories tree (dirs.root ∷ dirs.uploads ∷ dirs.results ∷ dirs.temp ∷ [])

-- `<dir>/job_<id>.<suffix>`, or `none` for -1.
abbrev pub job_file_text : Bytes → ℕ → Bytes → Bytes
job_file_text dir job_id suffix = dir ++ (codes "/job_" ++ (decimal job_id ++ (b'.' ∷ suffix)))

abbrev pub job_file_path : Bytes → ℕ → Bytes → ℕ → Option Bytes
job_file_path dir job_id suffix out_size =
    if ltb (length (job_file_text dir job_id suffix)) out_size
    then some (job_file_text dir job_id suffix)
    else none

unfoldable pub storage_make_upload_path : StorageDirs → ℕ → Bytes → ℕ → Option Bytes
storage_make_upload_path dirs job_id suffix out_size =
    job_file_path dirs.uploads job_id suffix out_size

unfoldable pub storage_make_result_path : StorageDirs → ℕ → Bytes → ℕ → Option Bytes
storage_make_result_path dirs job_id suffix out_size =
    job_file_path dirs.results job_id suffix out_size

abbrev pub Files : Type 0
Files = Bytes → Option Bytes

unfoldable pub put_file : Files → Bytes → Option Bytes → Files
put_file files path contents other = if bytes_eq path other then contents else files other

unfoldable pub get_file_size_bytes : Files → Bytes → Option ℕ
get_file_size_bytes files path = elim (files path) [
  | none ↦ none
  | some contents ↦ some (length contents)
]

-- Whether a call on the file of a path succeeds: opening it for writing, storing so many more
-- bytes, closing it, and reading it.
pub record Disk : Type 0 where
  pub can_open : Bytes → Bool
  pub can_store : Bytes → ℕ → Bool
  pub can_close : Bytes → Bool
  pub can_read : Bytes → Bool

module _ (disk : Disk) (dst_path : Bytes) where
  -- The loop of `storage_receive_to_file`: whether it ended well, the bytes stored, and what is
  -- left of the input and of the calls.
  unfoldable pub receive_loop :
      List IoCall → ℕ → Bytes → Bytes → Bool × (Bytes × (Bytes × List IoCall))
  receive_loop calls zero input stored = (true, (stored, (input, calls)))
  receive_loop [] (suc n) input stored = (false, (stored, (input, [])))
  receive_loop (interrupted ∷ calls) (suc n) input stored = receive_loop calls (suc n) input stored
  receive_loop (failed ∷ calls) (suc n) input stored = (false, (stored, (input, calls)))
  receive_loop (moves available ∷ calls) (suc n) input stored =
      let got = chunk available (at_most chunk_size (suc n)) input in
      elim (length got) [
        | zero ↦ (false, (stored, (input, calls)))
        | suc rc ↦ elim (disk.can_store dst_path (suc rc)) [
          | false ↦ (false, (stored, (drop (suc rc) input, calls)))
          | true ↦ receive_loop calls (n - rc) (drop (suc rc) input) (stored ++ got)
        ]
      ]

  -- A file that is not complete is unlinked.
  unfoldable pub storage_receive_to_file : Descriptor → Files → ℕ → Bool × (Descriptor × Files)
  unfolding receive_loop put_file
  storage_receive_to_file fd files size =
      if not (disk.can_open dst_path)
      then (false, (fd, files))
      else let (done, (stored, (input, reads))) = receive_loop fd.reads size fd.input [] in
        let fd' = record fd { input = input; reads = reads } in
        if done && disk.can_close dst_path
        then (true, (fd', put_file files dst_path (some stored)))
        else (false, (fd', put_file files dst_path none))

-- The loop of `storage_send_file` over what is left of the file: one round for each chunk, the
-- last one not full. `readable` is false when `ferror` is set at the end.
unfoldable pub send_loop : ℕ → Bool → Descriptor → Bytes → Bool × Descriptor
send_loop zero readable fd contents = (false, fd)
send_loop (suc fuel) readable fd contents =
    let part = take chunk_size contents in
    elim (length part) [
      | zero ↦ (readable, fd)
      | suc r ↦ elim (write_all fd part).0 [
        | none ↦ (false, (write_all fd part).1)
        | some total ↦ elim (ltb (suc r) chunk_size) [
          | true ↦ (readable, (write_all fd part).1)
          | false ↦ send_loop fuel readable (write_all fd part).1 (drop chunk_size contents)
        ]
      ]
    ]

abbrev pub send_rounds : Bytes → ℕ
send_rounds contents = length contents / chunk_size + 1

unfoldable pub storage_send_file : Disk → Descriptor → Files → Bytes → Bool × Descriptor
unfolding send_loop
storage_send_file disk fd files src_path = elim (files src_path) [
  | none ↦ (false, fd)
  | some contents ↦ send_loop (send_rounds contents) (disk.can_read src_path) fd contents
]
