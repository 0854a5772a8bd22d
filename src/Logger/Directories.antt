-- ===== src/Logger/Directories.antt =====
-- The parents of the log file that src/server/logger.c has seen to.
use pcd.Prelude.{
  ℕ, ◌≡◌, ◌≢◌, ◌⊎◌, inl, inr, refl, sym, ap, ◌∙◌, arith, Bool, true, false, none, some, [], ◌∷◌,
  ◌++◌, append_assoc, append-nil, Bytes, length, bytes_eq_refl, leb, ◌==◌, Bool-cases, ◌||◌, All,
  ap₂, get_or, drop,
}
use pcd.Storage.{directory, make_directory}
use pcd.Logger.{
  MkdirOutcome, exists, Tree, ensure_dir, ensure_prefixes, ensure_parent_dirs_for_file,
  before_last_slash, buffer_size,
}

no_slash : (name : Bytes) → All (λ ch. ch ≢ b'/') name → before_last_slash name ≡ none
unfolding before_last_slash
no_slash [] plain = refl
no_slash (ch ∷ name) (other, plain) =
    let differs : (ch == b'/') ≡ false = ground (arith, other) in
    rw (before_last_slash, no_slash name plain, differs) refl

before_last_slash-append :
    (parent name : Bytes)
    → All (λ ch. ch ≢ b'/') name
    → before_last_slash (parent ++ (b'/' ∷ name)) ≡ some parent
unfolding before_last_slash
before_last_slash-append [] name plain = rw (before_last_slash, no_slash name plain) refl
before_last_slash-append (ch ∷ parent) name plain =
    rw (before_last_slash, before_last_slash-append parent name plain) refl

-- A `/` of a path is the last one or stands before it.
split_cases :
    (parent name a b : Bytes)
    → All (λ ch. ch ≢ b'/') name
    → parent ++ (b'/' ∷ name) ≡ a ++ (b'/' ∷ b)
    → (a ≡ parent) ⊎ ((c : Bytes) × (parent ≡ a ++ (b'/' ∷ c)))
split_cases [] name [] b plain e = inl refl
split_cases [] name (x ∷ a) b plain e = absurd (no_second_slash name a b plain (ap (drop 1) e))
  where
    no_second_slash : (name a b : Bytes) → All (λ ch. ch ≢ b'/') name → name ≡ a ++ (b'/' ∷ b) → ⊥
    no_second_slash [] [] b plain e = ground (arith, e)
    no_second_slash [] (x ∷ a) b plain e = ground (arith, e)
    no_second_slash (ch ∷ name) [] b (other, plain) e = other (ap (λ (l : Bytes). get_or l 0 0) e)
    no_second_slash (ch ∷ name) (x ∷ a) b (other, plain) e =
        no_second_slash name a b plain (ap (drop 1) e)
split_cases (ch ∷ parent) name [] b plain e =
    let same : ◌≡◌ {A = ℕ} ch b'/' = ap (λ (l : Bytes). get_or l 0 0) e in
    inr (parent, ap (λ (x : ℕ). x ∷ parent) same)
split_cases (ch ∷ parent) name (x ∷ a) b plain e =
    let same : ◌≡◌ {A = ℕ} ch x = ap (λ (l : Bytes). get_or l 0 0) e in
    elim (split_cases parent name a b plain (ap (drop 1) e)) [
      | inl whole ↦ inl (ap₂ ◌∷◌ (sym same) whole)
      | inr (c, inside) ↦ inr (c, ap₂ ◌∷◌ same inside)
    ]

module _ (mkdir : Bytes → MkdirOutcome) (no_race : (path : Bytes) → mkdir path ≢ exists) where
  make_directory-keeps :
      (tree : Tree) (path other : Bytes)
      → tree other ≡ directory
      → make_directory tree path other ≡ directory
  unfolding make_directory
  make_directory-keeps tree path other there = ground (arith, there)

  make_directory_lem : (tree : Tree) (path : Bytes) → make_directory tree path path ≡ directory
  unfolding make_directory
  make_directory_lem tree path = rw (bytes_eq_refl path) refl

  ensure_dir-keeps :
      (tree : Tree) (path other : Bytes)
      → tree other ≡ directory
      → (ensure_dir mkdir tree path).1 other ≡ directory
  unfolding ensure_dir
  ensure_dir-keeps tree path other there =
      ground (arith, there, make_directory-keeps tree path other there)

  ensure_dir-directory :
      (tree : Tree) (path : Bytes)
      → (ensure_dir mkdir tree path).0 ≡ true
      → (ensure_dir mkdir tree path).1 path ≡ directory
  unfolding ensure_dir
  ensure_dir-directory tree path ok = ground (arith, ok, no_race path, make_directory_lem tree path)

  ensure_prefixes-keeps :
      (tree : Tree) (before path other : Bytes)
      → tree other ≡ directory
      → (ensure_prefixes mkdir tree before path).1 other ≡ directory
  unfolding ensure_prefixes
  ensure_prefixes-keeps tree before [] other there = ensure_dir-keeps tree before other there
  ensure_prefixes-keeps tree before (ch ∷ path) other there =
      let kept = ensure_dir-keeps tree before other there in
      let on =
        ensure_prefixes-keeps (ensure_dir mkdir tree before).1 (before ++ (ch ∷ [])) path other
          kept in
      let straight = ensure_prefixes-keeps tree (before ++ (ch ∷ [])) path other there in
      elim (Bool-cases (ch == b'/')) [
        | inl slash ↦ elim (Bool-cases (ensure_dir mkdir tree before).0) [
          | inl ready ↦ rw (ensure_prefixes, slash, ready) on
          | inr cut ↦ rw (ensure_prefixes, slash, cut) kept
        ]
        | inr plain ↦ rw (ensure_prefixes, plain) straight
      ]

  -- A round at a `/` that does not fail.
  slash_step :
      (tree : Tree) (before path : Bytes) (ch : ℕ)
      → (ch == b'/') ≡ true
      → (ensure_prefixes mkdir tree before (ch ∷ path)).0 ≡ true
      → ((ensure_dir mkdir tree before).0 ≡ true)
        × (ensure_prefixes mkdir tree before (ch ∷ path)
            ≡ ensure_prefixes mkdir (ensure_dir mkdir tree before).1 (before ++ (ch ∷ [])) path)
  unfolding ensure_prefixes
  slash_step tree before path ch slash ok = elim (Bool-cases (ensure_dir mkdir tree before).0) [
    | inl ready ↦ (ready, rw (ensure_prefixes, slash, ready) refl)
    | inr cut ↦ absurd (ground (arith, ok, slash, cut))
  ]

  plain_step :
      (tree : Tree) (before path : Bytes) (ch : ℕ)
      → (ch == b'/') ≡ false
      → ensure_prefixes mkdir tree before (ch ∷ path)
        ≡ ensure_prefixes mkdir tree (before ++ (ch ∷ [])) path
  unfolding ensure_prefixes
  plain_step tree before path ch plain = rw (ensure_prefixes, plain) refl

  ensure_prefixes-directory :
      (tree : Tree) (before path a b : Bytes)
      → (ensure_prefixes mkdir tree before path).0 ≡ true
      → path ≡ a ++ (b'/' ∷ b)
      → (ensure_prefixes mkdir tree before path).1 (before ++ a) ≡ directory
  ensure_prefixes-directory tree before [] [] b ok e = absurd (ground (arith, e))
  ensure_prefixes-directory tree before [] (x ∷ a) b ok e = absurd (ground (arith, e))
  ensure_prefixes-directory tree before (ch ∷ path) [] b ok e =
      let same : ◌≡◌ {A = ℕ} ch b'/' = ap (λ (l : Bytes). get_or l 0 0) e in
      let (ready, step) = slash_step tree before path ch (ground (arith, same)) ok in
      rw (step, append-nil before)
        (ensure_prefixes-keeps (ensure_dir mkdir tree before).1 (before ++ (ch ∷ [])) path before
          (ensure_dir-directory tree before ready))
  ensure_prefixes-directory tree before (ch ∷ path) (x ∷ a) b ok e =
      let same : ◌≡◌ {A = ℕ} ch x = ap (λ (l : Bytes). get_or l 0 0) e in
      let moved : (before ++ (ch ∷ [])) ++ a ≡ before ++ (x ∷ a) =
        append_assoc before (ch ∷ []) a ∙ ap (λ (y : ℕ). before ++ (y ∷ a)) same in
      elim (Bool-cases (ch == b'/')) [
        | inl slash ↦
            let (ready, step) = slash_step tree before path ch slash ok in
            rw (step, ← moved)
              (ensure_prefixes-directory (ensure_dir mkdir tree before).1 (before ++ (ch ∷ [])) path
                a b (ap (λ (r : Bool × Tree). r.0) (sym step) ∙ ok) (ap (drop 1) e))
        | inr plain ↦
            let step = plain_step tree before path ch plain in
            rw (step, ← moved)
              (ensure_prefixes-directory tree (before ++ (ch ∷ [])) path a b
                (ap (λ (r : Bool × Tree). r.0) (sym step) ∙ ok) (ap (drop 1) e))
      ]

  ensure_prefixes-last :
      (tree : Tree) (before path : Bytes)
      → (ensure_prefixes mkdir tree before path).0 ≡ true
      → (ensure_prefixes mkdir tree before path).1 (before ++ path) ≡ directory
  unfolding ensure_prefixes
  ensure_prefixes-last tree before [] ok =
      rw (append-nil before) (ensure_dir-directory tree before ok)
  ensure_prefixes-last tree before (ch ∷ path) ok =
      let moved = append_assoc before (ch ∷ []) path in
      elim (Bool-cases (ch == b'/')) [
        | inl slash ↦
            let (ready, step) = slash_step tree before path ch slash ok in
            rw (step, ← moved)
              (ensure_prefixes-last (ensure_dir mkdir tree before).1 (before ++ (ch ∷ [])) path
                (ap (λ (r : Bool × Tree). r.0) (sym step) ∙ ok))
        | inr plain ↦
            let step = plain_step tree before path ch plain in
            rw (step, ← moved)
              (ensure_prefixes-last tree (before ++ (ch ∷ [])) path
                (ap (λ (r : Bool × Tree). r.0) (sym step) ∙ ok))
      ]

  -- When the logger has seen to the parents of its file, every text of the path before a `/`, from
  -- the first name on, is a directory: for a path with a name behind its last `/`, when nobody else
  -- makes directories meanwhile.
  pub ensure_parent_dirs_for_file-directory :
      (tree : Tree) (first : ℕ) (parent name a b : Bytes)
      → All (λ ch. ch ≢ b'/') name
      → parent ++ (b'/' ∷ name) ≡ a ++ (b'/' ∷ b)
      → (ensure_parent_dirs_for_file mkdir tree (first ∷ (parent ++ (b'/' ∷ name)))).0 ≡ true
      → (ensure_parent_dirs_for_file mkdir tree (first ∷ (parent ++ (b'/' ∷ name)))).1 (first ∷ a)
        ≡ directory
  unfolding ensure_parent_dirs_for_file
  ensure_parent_dirs_for_file-directory tree first parent name a b plain e ok =
      let path = first ∷ (parent ++ (b'/' ∷ name)) in
      let found = before_last_slash-append (first ∷ parent) name plain in
      elim (Bool-cases ((length path == 0) || leb buffer_size (length path))) [
        | inl long ↦ absurd (ground (arith, ok, long))
        | inr fits ↦
            let steps : ensure_parent_dirs_for_file mkdir tree path
                ≡ ensure_prefixes mkdir tree (first ∷ []) parent =
              rw (ensure_parent_dirs_for_file, fits, found) refl in
            let done = ap (λ (r : Bool × Tree). r.0) (sym steps) ∙ ok in
            rw steps (elim (split_cases parent name a b plain e) [
              | inl same ↦ rw same (ensure_prefixes-last tree (first ∷ []) parent done)
              | inr (c, inside) ↦ ensure_prefixes-directory tree (first ∷ []) parent a c done inside
            ])
      ]
