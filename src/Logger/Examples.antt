-- ===== src/Logger/Examples.antt =====
-- Tests of the model of src/server/logger.c, and its theorem at a concrete path.
use pcd.Prelude.{◌≡◌, refl, arith, Bytes, bytes_eq, codes, ◌≢◌}
use pcd.Storage.{absent, directory, make_directory}
use pcd.Logger.{
  MkdirOutcome, made, exists, Tree, log_line, warn, level_to_string, ensure_dir, ensure_prefixes,
  ensure_parent_dirs_for_file, before_last_slash,
}
use pcd.Logger.Directories.{ensure_parent_dirs_for_file-directory}

a_line : log_line (codes "now") warn (codes "low") ≡ codes "[now] [WARN] low\n"
unfolding log_line level_to_string
a_line = refl

abbrev mkdir : Bytes → MkdirOutcome
mkdir path = made

abbrev empty_tree : Tree
empty_tree path = absent

mkdir_never_late : (path : Bytes) → mkdir path ≢ exists
mkdir_never_late path e = ground (arith, e)

-- For `logs/a/x`, the directory `logs`.
ensure_parent_dirs_for_file-directory_example :
    (ensure_parent_dirs_for_file mkdir empty_tree (codes "logs/a/x")).1 (codes "logs") ≡ directory
unfolding ensure_parent_dirs_for_file ensure_prefixes ensure_dir before_last_slash make_directory
    bytes_eq
ensure_parent_dirs_for_file-directory_example =
    ensure_parent_dirs_for_file-directory mkdir mkdir_never_late empty_tree b'l' (codes "ogs/a")
      (codes "x") (codes "ogs") (codes "a/x") ((λ e. ground (arith, e)), tt) refl refl
