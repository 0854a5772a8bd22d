-- ===== src/Storage/Apart.antt =====
-- The files of one job do not share a path.
use pcd.Prelude.{
  ℕ, ◌≡◌, sym, ap, ◌∙◌, some, ◌∷◌, ◌++◌, Bytes, codes, drop, drop-append, decimal, length,
}
use pcd.Storage.{StorageDirs, job_file_text, storage_make_upload_path}
use pcd.Storage.Paths.{job_file_path-text}

behind_number :
    (dir s : Bytes) (n : ℕ)
    → drop 1 (drop (length (decimal n)) (drop 5 (drop (length dir) (job_file_text dir n s)))) ≡ s
behind_number dir s n =
    ap (λ (l : Bytes). drop 1 (drop (length (decimal n)) (drop 5 l)))
      (drop-append dir (codes "/job_" ++ (decimal n ++ (b'.' ∷ s))))
    ∙ ap (drop 1) (drop-append (decimal n) (b'.' ∷ s))

-- Two uploads of one job with the same path have the same suffix.
pub storage_make_upload_path-suffix :
    (dirs : StorageDirs) (job_id n m : ℕ) (s t path : Bytes)
    → storage_make_upload_path dirs job_id s n ≡ some path
    → storage_make_upload_path dirs job_id t m ≡ some path
    → s ≡ t
unfolding storage_make_upload_path
storage_make_upload_path-suffix dirs job_id n m s t path first second =
    let same =
      job_file_path-text dirs.uploads s path job_id n first
      ∙ sym (job_file_path-text dirs.uploads t path job_id m second) in
    sym (behind_number dirs.uploads s job_id)
    ∙ ap
        (λ (l : Bytes).
          drop 1 (drop (length (decimal job_id)) (drop 5 (drop (length dirs.uploads) l))))
        same
    ∙ behind_number dirs.uploads t job_id
