-- ===== src/Storage/Examples.antt =====
-- Tests of the model of src/server/storage.c, and its theorems at concrete inputs.
use pcd.Prelude.{
  ℕ, ◌≡◌, refl, arith, true, false, none, some, [], ◌∷◌, Bytes, bytes_eq, codes, ap, get_or,
  decimal, if◌then◌else◌,
}
use pcd.Net.{Descriptor, interrupted, moves}
use pcd.Net.Reading.{IsSteady, rounds}
use pcd.Storage.{Disk, Files, default_dirs, storage_make_upload_path, storage_receive_to_file}
use pcd.Storage.Paths.{storage_make_upload_path-id}
use pcd.Storage.Copying.{CopyCalls, copy_loop, copy_contents, copy_path, copy_file_to_storage}
use pcd.Prelude.{base_name, length}
use pcd.Storage.Transfer.{storage_receive_to_file-take, storage_receive_to_file_error}

abbrev sound_disk : Disk
sound_disk = record {
  can_open = λ path. true;
  can_store = λ path n. true;
  can_close = λ path. true;
  can_read = λ path. true;
}

abbrev client : Descriptor
client = record {
  input = codes "abcdefg";
  output = [];
  reads = moves 2 ∷ interrupted ∷ moves 2 ∷ moves 9 ∷ moves 1 ∷ [];
  writes = moves 1 ∷ moves 2 ∷ interrupted ∷ moves 5 ∷ [];
}

abbrev disk_files : Files
disk_files path = if bytes_eq path (codes "r") then some (codes "xyz") else none

upload_path :
    storage_make_upload_path default_dirs 1024 (codes "txt") 512
    ≡ some (codes "storage/uploads/job_1024.txt")
unfolding storage_make_upload_path default_dirs decimal
upload_path = refl

storage_make_upload_path-id_example : ◌≡◌ {A = ℕ} 1024 1024
storage_make_upload_path-id_example =
    storage_make_upload_path-id default_dirs (codes "txt") (codes "txt")
      (codes "storage/uploads/job_1024.txt") 1024 1024 512 512 (omega arith) (omega arith)
      upload_path upload_path

storage_receive_to_file-take_example :
    ((storage_receive_to_file sound_disk (codes "f") client disk_files 4).0 ≡ true)
    × ((storage_receive_to_file sound_disk (codes "f") client disk_files 4).1.0.input ≡ codes "efg")
    × ((storage_receive_to_file sound_disk (codes "f") client disk_files 4).1.1 (codes "f")
        ≡ some (codes "abcd"))
unfolding IsSteady rounds
storage_receive_to_file-take_example =
    storage_receive_to_file-take sound_disk (codes "f") client disk_files 4 refl refl (λ k. refl)
      (omega arith) (omega arith) (omega arith)

short_upload_fails : (storage_receive_to_file sound_disk (codes "f") client disk_files 9).0 ≡ false
unfolding storage_receive_to_file
short_upload_fails = refl

storage_receive_to_file_error_example :
    ((storage_receive_to_file sound_disk (codes "f") client disk_files 9).1.1 (codes "f") ≡ none)
    × ((storage_receive_to_file sound_disk (codes "f") client disk_files 9).1.1 (codes "r")
        ≡ disk_files (codes "r"))
storage_receive_to_file_error_example =
    storage_receive_to_file_error sound_disk (codes "f") client disk_files 9 (codes "r")
      (λ e. ground (arith, ap (λ (l : Bytes). get_or l 0 0) e)) refl short_upload_fails

on_disk : disk_files (codes "r") ≡ some (codes "xyz")
unfolding bytes_eq
on_disk = refl

abbrev copy_calls : CopyCalls
copy_calls = record {
  opens = true;
  stores = λ n. true;
  reads = true;
  closes_src = true;
  closes_dst = true;
}

-- The file `r` goes to `storage/uploads/5_7_r`.
copied_to :
    (copy_file_to_storage copy_calls true default_dirs (some (5, 7)) disk_files (codes "r") 512).0
    ≡ some (codes "storage/uploads/5_7_r")
unfolding copy_file_to_storage copy_contents copy_loop copy_path default_dirs decimal
    pcd.Prelude.decimal_before base_name pcd.Prelude.base_from bytes_eq
copied_to = refl
