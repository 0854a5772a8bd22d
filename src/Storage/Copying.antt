-- ===== src/Storage/Copying.antt =====
-- src/server/storage.c: reading a whole file and copying one into the uploads, which no other part
-- of the program calls.
use pcd.Prelude.{
  ℕ, zero, suc, ◌-◌, ◌*◌, ◌<◌, ◌≡◌, ◌≢◌, refl, sym, ap, ◌∙◌, arith, Bool, true, false, not, ◌&&◌,
  Option, none, some, [], ◌∷◌, ◌++◌, append_assoc, Bytes, bytes_eq_refl, bytes_eq_sound, length,
  length-drop, length-take, take, drop, take_all, take-append-drop, ltb, ltb→lt, ltb_false→le, ◌==◌,
  if◌then◌else◌, Bool-cases, Option-cases, inl, inr, decimal, base_name, subst,
}
use pcd.Net.{chunk_size}
use pcd.Storage.{StorageDirs, Files, put_file, send_rounds}

-- The bytes read and the number of them; a read that fails is not modelled.
unfoldable pub storage_read_all : Files → Bytes → ℕ → Option Bytes
storage_read_all files path buffer_size = elim (files path) [
  | none ↦ none
  | some contents ↦ if buffer_size == 0 then none else some (take (buffer_size - 1) contents)
]

-- `<uploads>/<seconds>_<nanoseconds>_<name>`, or `none` for -1.
unfoldable pub copy_path : StorageDirs → ℕ × ℕ → Bytes → ℕ → Option Bytes
copy_path dirs (seconds, nanoseconds) src_path dst_path_size =
    let text =
      dirs.uploads
      ++ (b'/'
          ∷ (decimal seconds ++ (b'_' ∷ (decimal nanoseconds ++ (b'_' ∷ base_name src_path))))) in
    if ltb (length text) dst_path_size then some text else none

-- Whether the calls on the two files succeed: opening the copy, storing so many more bytes, the
-- reads to the end, and the two calls of `fclose`.
pub record CopyCalls : Type 0 where
  pub opens : Bool
  pub stores : ℕ → Bool
  pub reads : Bool
  pub closes_src : Bool
  pub closes_dst : Bool

module _ (calls : CopyCalls) where
  -- The loop over what is left of the source, one round for each chunk; a chunk that is not full is
  -- the last one.
  unfoldable pub copy_loop : ℕ → Bytes → Bytes → Bool × Bytes
  copy_loop zero contents stored = (false, stored)
  copy_loop (suc fuel) contents stored =
      let part = take chunk_size contents in
      let rest = copy_loop fuel (drop chunk_size contents) (stored ++ part) in
      if ltb 0 (length part) && not (calls.stores (length part))
      then (false, stored)
      else if ltb (length part) chunk_size
      then (calls.reads, stored ++ part)
      else rest

  -- Behind the opening of the source. A copy that is not complete is unlinked.
  unfoldable pub copy_contents : Files → Bytes → Bytes → Option Bytes × Files
  copy_contents files dst_path contents =
      let (whole, stored) = copy_loop (send_rounds contents) contents [] in
      if not calls.opens
      then (none, files)
      else if whole && (calls.closes_src && calls.closes_dst)
      then (some dst_path, put_file files dst_path (some stored))
      else (none, put_file files dst_path none)

  -- `ready`: whether the directories are there.
  unfoldable pub copy_file_to_storage :
      Bool → StorageDirs → Option (ℕ × ℕ) → Files → Bytes → ℕ → Option Bytes × Files
  unfolding copy_contents copy_path
  copy_file_to_storage ready dirs now files src_path dst_path_size =
      if not ready then (none, files) else elim now [
        | none ↦ (none, files)
        | some time ↦ elim (copy_path dirs time src_path dst_path_size) [
          | none ↦ (none, files)
          | some dst_path ↦ elim (files src_path) [
            | none ↦ (none, files)
            | some contents ↦ copy_contents files dst_path contents
          ]
        ]
      ]

  copy_loop-stored :
      (fuel : ℕ) (contents stored : Bytes)
      → length contents < fuel * chunk_size
      → (copy_loop fuel contents stored).0 ≡ true
      → (copy_loop fuel contents stored).1 ≡ stored ++ contents
  unfolding copy_loop
  copy_loop-stored zero contents stored enough ok = absurd (omega arith)
  copy_loop-stored (suc fuel) contents stored enough ok =
      let part = take chunk_size contents in
      let left = drop chunk_size contents in
      elim (Bool-cases (ltb 0 (length part) && not (calls.stores (length part)))) [
        | inl bad ↦ absurd (ground (arith, ok, bad))
        | inr good ↦ elim (Bool-cases (ltb (length part) chunk_size)) [
          | inl short ↦
              let whole : part ≡ contents = take_all chunk_size contents (
                omega (
                  arith,
                  length-take chunk_size contents,
                  ltb→lt (length part) chunk_size short,
                )) in
              rw (copy_loop, good, short) (ap (◌++◌ stored) whole)
          | inr full ↦
              let on : copy_loop (suc fuel) contents stored ≡ copy_loop fuel left (stored ++ part) =
                rw (copy_loop, good, full) refl in
              let below : length left < fuel * chunk_size = omega (
                arith,
                length-drop chunk_size contents,
                length-take chunk_size contents,
                ltb_false→le (length part) chunk_size full,
                enough,
              ) in
              rw on (
                copy_loop-stored fuel left (stored ++ part) below
                  (ap (λ (r : Bool × Bytes). r.0) (sym on) ∙ ok)
                ∙ append_assoc stored part left
                ∙ ap (◌++◌ stored) (take-append-drop chunk_size contents))
        ]
      ]

  -- What a copy that succeeded has done.
  abbrev pub CopiedIf : Files → Bytes → Option Bytes × Files → Type 0
  CopiedIf files src_path (none, after) = Unit
  CopiedIf files src_path (some dst_path, after) =
      (after dst_path ≡ files src_path)
      × ((other : Bytes) → dst_path ≢ other → after other ≡ files other)

  put_file-other :
      (files : Files) (path other : Bytes) (contents : Option Bytes)
      → path ≢ other
      → put_file files path contents other ≡ files other
  unfolding put_file
  put_file-other files path other contents ne = ground (arith, bytes_eq_sound path other)

  put_file_lem :
      (files : Files) (path : Bytes) (contents : Option Bytes)
      → put_file files path contents path ≡ contents
  unfolding put_file
  put_file_lem files path contents = rw (bytes_eq_refl path) refl

  copy_contents-CopiedIf :
      (files : Files) (src_path dst_path contents : Bytes)
      → files src_path ≡ some contents
      → CopiedIf files src_path (copy_contents files dst_path contents)
  unfolding copy_contents copy_loop
  copy_contents-CopiedIf files src_path dst_path contents found =
      let copied = copy_loop (send_rounds contents) contents [] in
      elim (Bool-cases calls.opens) [
        | inr closed ↦ rw (copy_contents, closed) tt
        | inl opens ↦ elim (Bool-cases (copied.0 && (calls.closes_src && calls.closes_dst))) [
          | inr cut ↦ rw (copy_contents, opens, cut) tt
          | inl done ↦
              let stored =
                copy_loop-stored (send_rounds contents) contents [] (omega arith)
                  (ground (arith, done)) in
              rw (copy_contents, opens, done)
                (
                  put_file_lem files dst_path (some copied.1) ∙ ap some stored ∙ sym found,
                  λ other ne. put_file-other files dst_path other (some copied.1) ne,
                )
        ]
      ]

  copy_file_to_storage-CopiedIf :
      (ready : Bool) (dirs : StorageDirs) (now : Option (ℕ × ℕ)) (files : Files) (src_path : Bytes)
      (dst_path_size : ℕ)
      → CopiedIf files src_path (copy_file_to_storage ready dirs now files src_path dst_path_size)
  unfolding copy_file_to_storage
  copy_file_to_storage-CopiedIf false dirs now files src_path size = tt
  copy_file_to_storage-CopiedIf true dirs none files src_path size = tt
  copy_file_to_storage-CopiedIf true dirs (some time) files src_path size =
      elim (Option-cases (copy_path dirs time src_path size)) [
        | inl long ↦ rw (copy_file_to_storage, long) tt
        | inr (dst_path, fits) ↦ elim (Option-cases (files src_path)) [
          | inl missing ↦ rw (copy_file_to_storage, fits, missing) tt
          | inr (contents, found) ↦
              rw (copy_file_to_storage, fits, found)
                (copy_contents-CopiedIf files src_path dst_path contents found)
        ]
      ]

  -- A copy that succeeds has exactly the bytes of its source, and no other file changes.
  pub copy_file_to_storage_lem :
      (ready : Bool) (dirs : StorageDirs) (now : Option (ℕ × ℕ)) (files : Files) (src_path : Bytes)
      (dst_path_size : ℕ) (dst_path other : Bytes)
      → (copy_file_to_storage ready dirs now files src_path dst_path_size).0 ≡ some dst_path
      → dst_path ≢ other
      → ((copy_file_to_storage ready dirs now files src_path dst_path_size).1 dst_path
          ≡ files src_path)
        × ((copy_file_to_storage ready dirs now files src_path dst_path_size).1 other ≡ files other)
  copy_file_to_storage_lem ready dirs now files src_path dst_path_size dst_path other ok ne =
      let after = (copy_file_to_storage ready dirs now files src_path dst_path_size).1 in
      let (same, others) =
        subst (λ (path : Option Bytes). CopiedIf files src_path (path, after)) ok
          (copy_file_to_storage-CopiedIf ready dirs now files src_path dst_path_size) in
      (same, others other ne)
