-- ===== src/Storage/Paths.antt =====
-- The paths of src/server/storage.c.
use pcd.Prelude.{
  ℕ, ◌+◌, ◌-◌, ◌^◌, ◌<◌, ◌≡◌, refl, sym, ap, ◌∙◌, arith, Bool, true, false, Option, none, some,
  List, [], ◌∷◌, ◌++◌, Bytes, bytes_eq_refl, All, codes, subst, drop, drop-append, get_or, ap₂,
  IsDigit, spelled, spelled-decimal, digits-decimal, ◌==◌, length, length-append, take_all, ltb,
  Bool-cases, inl, inr, decimal,
}
use pcd.Storage.{
  StorageDirs, max_job_path, build_child_path, storage_set_root, Entry, directory, make_directory,
  ensure_directory_exists, ensure_directories, storage_init_dirs, job_file_text, job_file_path,
  storage_make_upload_path, storage_make_result_path,
}

child_lem :
    (root name : Bytes)
    → length root + (length name + 1) < max_job_path
    → build_child_path root name max_job_path ≡ (true, root ++ (b'/' ∷ name))
unfolding build_child_path
child_lem root name h =
    let fits : length (root ++ (b'/' ∷ name)) < max_job_path =
      omega (arith, length-append root (b'/' ∷ name)) in
    let test : ltb (length (root ++ (b'/' ∷ name))) max_job_path ≡ true = ground arith in
    simp (test, take_all (max_job_path - 1) (root ++ (b'/' ∷ name)) (omega arith))

-- A root of at most 503 bytes that is not empty is accepted, and every directory stands under it.
pub storage_set_root_lem :
    (dirs : StorageDirs) (root_path : Bytes)
    → 0 < length root_path
    → length root_path < 504
    → storage_set_root dirs root_path ≡ (
      true,
      record {
        root = root_path;
        uploads = root_path ++ codes "/uploads";
        results = root_path ++ codes "/results";
        temp = root_path ++ codes "/temp";
      },
    )
unfolding storage_set_root
storage_set_root_lem dirs root_path some_root short =
    let test : ltb (length root_path) max_job_path ≡ true = ground arith in
    let nonempty : (length root_path == 0) ≡ false = ground arith in
    simp (
      nonempty,
      test,
      take_all (max_job_path - 1) root_path (omega arith),
      child_lem root_path (codes "uploads") (omega arith),
      child_lem root_path (codes "results") (omega arith),
      child_lem root_path (codes "temp") (omega arith),
    )

-- Every path that was made a directory, or was one, still is.
ensure-keeps :
    (mkdir_ok : Bytes → Bool) (tree : Bytes → Entry) (path other : Bytes)
    → tree other ≡ directory
    → (ensure_directory_exists mkdir_ok tree path).1 other ≡ directory
unfolding ensure_directory_exists make_directory
ensure-keeps mkdir_ok tree path other h = ground arith

ensure-makes :
    (mkdir_ok : Bytes → Bool) (tree : Bytes → Entry) (path : Bytes)
    → (ensure_directory_exists mkdir_ok tree path).0 ≡ true
    → (ensure_directory_exists mkdir_ok tree path).1 path ≡ directory
unfolding ensure_directory_exists make_directory
ensure-makes mkdir_ok tree path h = ground (arith, bytes_eq_refl path)

ensure_directories-keeps :
    (mkdir_ok : Bytes → Bool) (tree : Bytes → Entry) (paths : List Bytes) (other : Bytes)
    → tree other ≡ directory
    → (ensure_directories mkdir_ok tree paths).1 other ≡ directory
unfolding ensure_directories
ensure_directories-keeps mkdir_ok tree [] other h = h
ensure_directories-keeps mkdir_ok tree (path ∷ paths) other h =
    elim (Bool-cases (ensure_directory_exists mkdir_ok tree path).0) [
      | inl made ↦ rw made (
          ensure_directories-keeps mkdir_ok (ensure_directory_exists mkdir_ok tree path).1 paths
            other (ensure-keeps mkdir_ok tree path other h))
      | inr refused ↦ rw refused (ensure-keeps mkdir_ok tree path other h)
    ]

ensure_directories-All :
    (mkdir_ok : Bytes → Bool) (tree : Bytes → Entry) (paths : List Bytes)
    → (ensure_directories mkdir_ok tree paths).0 ≡ true
    → All (λ path. (ensure_directories mkdir_ok tree paths).1 path ≡ directory) paths
unfolding ensure_directories
ensure_directories-All mkdir_ok tree [] h = tt
ensure_directories-All mkdir_ok tree (path ∷ paths) h =
    elim (Bool-cases (ensure_directory_exists mkdir_ok tree path).0) [
      | inr refused ↦ absurd (ground arith)
      | inl made ↦
          let next = (ensure_directory_exists mkdir_ok tree path).1 in
          let step : ensure_directories mkdir_ok tree (path ∷ paths)
              ≡ ensure_directories mkdir_ok next paths =
            rw (ensure_directories, made) refl in
          subst
            (λ (r : Bool × (Bytes → Entry)). All (λ (p : Bytes). r.1 p ≡ directory) (path ∷ paths))
            (sym step)
            (
              ensure_directories-keeps mkdir_ok next paths path
                  (ensure-makes mkdir_ok tree path made),
              ensure_directories-All mkdir_ok next paths
                  (ap (λ (r : Bool × (Bytes → Entry)). r.0) (sym step) ∙ h),
            )
    ]

-- When the initialisation succeeds, the root and the three directories under it exist.
pub storage_init_dirs_lem :
    (mkdir_ok : Bytes → Bool) (dirs : StorageDirs) (tree : Bytes → Entry)
    → (storage_init_dirs mkdir_ok dirs tree).0 ≡ true
    → let after = (storage_init_dirs mkdir_ok dirs tree).1 in
      (after dirs.root ≡ directory)
      × (after dirs.uploads ≡ directory)
      × (after dirs.results ≡ directory)
      × (after dirs.temp ≡ directory)
unfolding storage_init_dirs
storage_init_dirs_lem mkdir_ok dirs tree h =
    let (root, (uploads, (results, (temp, rest)))) =
      ensure_directories-All mkdir_ok tree
        (dirs.root ∷ dirs.uploads ∷ dirs.results ∷ dirs.temp ∷ []) h in
    (root, uploads, results, temp)

digits_before_dot :
    (xs ys s t : Bytes)
    → All IsDigit xs
    → All IsDigit ys
    → xs ++ (b'.' ∷ s) ≡ ys ++ (b'.' ∷ t)
    → xs ≡ ys
digits_before_dot [] [] s t hx hy e = refl
digits_before_dot [] (y ∷ ys) s t hx ((lo, hi), hy) e =
    let head : b'.' ≡ y = ap (λ (l : Bytes). get_or l 0 0) e in absurd (omega arith)
digits_before_dot (x ∷ xs) [] s t ((lo, hi), hx) hy e =
    let head : x ≡ b'.' = ap (λ (l : Bytes). get_or l 0 0) e in absurd (omega arith)
digits_before_dot (x ∷ xs) (y ∷ ys) s t (dx, hx) (dy, hy) e =
    let head : x ≡ y = ap (λ (l : Bytes). get_or l 0 0) e in
    let tail = digits_before_dot xs ys s t hx hy (ap (drop 1) e) in ap₂ ◌∷◌ head tail

job_file_text-id :
    (dir s t : Bytes) (a b : ℕ)
    → a < 2 ^ 64
    → b < 2 ^ 64
    → job_file_text dir a s ≡ job_file_text dir b t
    → a ≡ b
job_file_text-id dir s t a b ha hb e =
    let behind : codes "/job_" ++ (decimal a ++ (b'.' ∷ s))
        ≡ codes "/job_" ++ (decimal b ++ (b'.' ∷ t)) =
      sym (drop-append dir (codes "/job_" ++ (decimal a ++ (b'.' ∷ s))))
      ∙ ap (drop (length dir)) e
      ∙ drop-append dir (codes "/job_" ++ (decimal b ++ (b'.' ∷ t))) in
    let same : decimal a ≡ decimal b =
      digits_before_dot (decimal a) (decimal b) s t (digits-decimal a) (digits-decimal b)
        (ap (drop 5) behind) in
    sym (spelled-decimal a ha) ∙ ap (spelled 0) same ∙ spelled-decimal b hb

pub job_file_path-text :
    (dir suffix path : Bytes) (job_id size : ℕ)
    → job_file_path dir job_id suffix size ≡ some path
    → job_file_text dir job_id suffix ≡ path
job_file_path-text dir suffix path job_id size e =
    elim (Bool-cases (ltb (length (job_file_text dir job_id suffix)) size)) [
      | inl fits ↦ some-inj (sym (path_fits fits) ∙ e)
      | inr long ↦ absurd (none-some (sym (path_long long) ∙ e))
    ]
  where
    path_fits :
        ltb (length (job_file_text dir job_id suffix)) size ≡ true
        → job_file_path dir job_id suffix size ≡ some (job_file_text dir job_id suffix)
    path_fits fits = rw fits refl

    path_long :
        ltb (length (job_file_text dir job_id suffix)) size ≡ false
        → job_file_path dir job_id suffix size ≡ none
    path_long long = rw long refl

    some-inj : {a b : Bytes} → Path (Option Bytes) (some a) (some b) → a ≡ b
    some-inj h = ground (arith, h)

    none-some : {a : Bytes} → Path (Option Bytes) none (some a) → ⊥
    none-some h = ground (arith, h)

-- A path that is built fits its buffer with the terminator.
pub storage_make_upload_path-lt :
    (dirs : StorageDirs) (suffix path : Bytes) (job_id size : ℕ)
    → storage_make_upload_path dirs job_id suffix size ≡ some path
    → length path < size
unfolding storage_make_upload_path
storage_make_upload_path-lt dirs suffix path job_id size e =
    elim (Bool-cases (ltb (length (job_file_text dirs.uploads job_id suffix)) size)) [
      | inl fits ↦
          let same = job_file_path-text dirs.uploads suffix path job_id size e in
          subst (λ (text : Bytes). length text < size) same (ground arith)
      | inr long ↦ absurd (ground (arith, long, e))
    ]

-- Uploads of different jobs never share a path: two upload paths that are equal are of the same
-- 64-bit job number, whatever their suffixes.
pub storage_make_upload_path-id :
    (dirs : StorageDirs) (s t path : Bytes) (a b n m : ℕ)
    → a < 2 ^ 64
    → b < 2 ^ 64
    → storage_make_upload_path dirs a s n ≡ some path
    → storage_make_upload_path dirs b t m ≡ some path
    → a ≡ b
unfolding storage_make_upload_path
storage_make_upload_path-id dirs s t path a b n m ha hb first second =
    job_file_text-id dirs.uploads s t a b ha hb (
      job_file_path-text dirs.uploads s path a n first
      ∙ sym (job_file_path-text dirs.uploads t path b m second))

-- Neither do results.
pub storage_make_result_path-id :
    (dirs : StorageDirs) (s t path : Bytes) (a b n m : ℕ)
    → a < 2 ^ 64
    → b < 2 ^ 64
    → storage_make_result_path dirs a s n ≡ some path
    → storage_make_result_path dirs b t m ≡ some path
    → a ≡ b
unfolding storage_make_result_path
storage_make_result_path-id dirs s t path a b n m ha hb first second =
    job_file_text-id dirs.results s t a b ha hb (
      job_file_path-text dirs.results s path a n first
      ∙ sym (job_file_path-text dirs.results t path b m second))
