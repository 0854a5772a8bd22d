-- ===== src/Storage/Transfer.antt =====
-- What the loops of src/server/storage.c move between a descriptor and the disk.

use pcd.Prelude.{
  ℕ, zero, suc, ◌+◌, ◌-◌, ◌*◌, ◌≤◌, ◌<◌, ◌≡◌, ◌≢◌, refl, sym, ap, ◌∙◌, arith, Bool, true, false,
  none, some, List, [], ◌∷◌, ◌++◌, append_assoc, append-nil, Bytes, bytes_eq_refl, bytes_eq_sound,
  length, length-drop, length-take, take, drop, take_all, take-append-drop, ltb, ltb→lt,
  ltb_false→le, if◌then◌else◌, Bool-cases, inl, inr,
}
use pcd.Net.{IoCall, interrupted, failed, moves, Descriptor, chunk, chunk_size, at_most, write_all}
use pcd.Net.Reading.{
  IsSteady, rounds, take-split, drop-split, rc_of, rc_of-le, length-chunk, chunk-take,
  at_most_cases,
}
use pcd.Net.Writing.{write_all-rounds}
use pcd.Storage.{
  Files, Disk, put_file, receive_loop, storage_receive_to_file, send_loop, send_rounds,
  storage_send_file,
}

module _ (disk : Disk) (dst_path : Bytes) where
  pub receive_step :
      (calls : List IoCall) (available n rc : ℕ) (input stored : Bytes)
      → length (chunk available (at_most chunk_size (suc n)) input) ≡ suc rc
      → disk.can_store dst_path (suc rc) ≡ true
      → receive_loop disk dst_path (moves available ∷ calls) (suc n) input stored
        ≡ receive_loop disk dst_path calls
            (n - rc)
            (drop (suc rc) input)
            (stored ++ chunk available (at_most chunk_size (suc n)) input)
  unfolding receive_loop
  receive_step calls available n rc input stored e ok = rw (receive_loop, e, ok) refl

  receive_loop-take :
      (calls : List IoCall) (n : ℕ) (input stored : Bytes)
      → ((k : ℕ) → disk.can_store dst_path k ≡ true)
      → IsSteady calls
      → n ≤ rounds calls
      → n ≤ length input
      → ((receive_loop disk dst_path calls n input stored).0 ≡ true)
        × ((receive_loop disk dst_path calls n input stored).1.0 ≡ stored ++ take n input)
        × ((receive_loop disk dst_path calls n input stored).1.1.0 ≡ drop n input)
  unfolding receive_loop IsSteady rounds
  receive_loop-take calls zero input stored stores steady some_calls enough =
      (refl, sym (append-nil stored), refl)
  receive_loop-take [] (suc n) input stored stores steady some_calls enough = absurd (omega arith)
  receive_loop-take (interrupted ∷ calls) (suc n) input stored stores steady some_calls enough =
      receive_loop-take calls (suc n) input stored stores steady some_calls enough
  receive_loop-take (failed ∷ calls) (suc n) input stored stores steady some_calls enough =
      absurd steady
  receive_loop-take (moves available ∷ calls) (suc n) input stored stores (positive, steady)
        some_calls enough =
      let (w, want, below) = at_most_cases n in
      let rc = rc_of available w in
      let small = rc_of-le available w in
      let whole : suc rc + (n - rc) ≡ suc n = omega (arith, small) in
      let got : chunk available (at_most chunk_size (suc n)) input ≡ take (suc rc) input =
        rw want (chunk-take available w input positive) in
      let moved : length (chunk available (at_most chunk_size (suc n)) input) ≡ suc rc =
        rw want (length-chunk available w input positive (omega arith)) in
      let (done, stored', rest) =
        receive_loop-take calls (n - rc) (drop (suc rc) input)
          (stored ++ chunk available (at_most chunk_size (suc n)) input) stores steady (omega arith)
          (omega (arith, length-drop (suc rc) input, small)) in
      rw (receive_step calls available n rc input stored moved (stores (suc rc))) (
        done,
        stored'
            ∙ append_assoc stored (chunk available (at_most chunk_size (suc n)) input)
                (take (n - rc) (drop (suc rc) input))
            ∙ ap (λ (c : Bytes). stored ++ (c ++ take (n - rc) (drop (suc rc) input))) got
            ∙ ap (◌++◌ stored)
                (sym (take-split (suc rc) (n - rc) input) ∙ ap (λ (k : ℕ). take k input) whole),
        rest ∙ sym (drop-split (suc rc) (n - rc) input) ∙ ap (λ (k : ℕ). drop k input) whole,
      )

  -- However the calls of `read` cut the input, `storage_receive_to_file` stores exactly the next
  -- `size` bytes in the file and leaves what follows them, when the disk takes the file, for steady
  -- calls, one for each byte at most, of an input that long.
  pub storage_receive_to_file-take :
      (fd : Descriptor) (files : Files) (size : ℕ)
      → disk.can_open dst_path ≡ true
      → disk.can_close dst_path ≡ true
      → ((k : ℕ) → disk.can_store dst_path k ≡ true)
      → IsSteady fd.reads
      → size ≤ rounds fd.reads
      → size ≤ length fd.input
      → ((storage_receive_to_file disk dst_path fd files size).0 ≡ true)
        × ((storage_receive_to_file disk dst_path fd files size).1.0.input ≡ drop size fd.input)
        × ((storage_receive_to_file disk dst_path fd files size).1.1 dst_path
            ≡ some (take size fd.input))
  unfolding storage_receive_to_file put_file
  storage_receive_to_file-take fd files size opens closes stores steady some_calls enough =
      let (done, stored, rest) =
        receive_loop-take fd.reads size fd.input [] stores steady some_calls enough in
      simp (opens, closes, done, bytes_eq_refl) (refl, rest, ap some stored)

  -- A transfer that fails behind the opening of the file leaves no file there, and every other
  -- file as it was.
  pub storage_receive_to_file_error :
      (fd : Descriptor) (files : Files) (size : ℕ) (other : Bytes)
      → dst_path ≢ other
      → disk.can_open dst_path ≡ true
      → (storage_receive_to_file disk dst_path fd files size).0 ≡ false
      → ((storage_receive_to_file disk dst_path fd files size).1.1 dst_path ≡ none)
        × ((storage_receive_to_file disk dst_path fd files size).1.1 other ≡ files other)
  unfolding storage_receive_to_file put_file
  storage_receive_to_file_error fd files size other ne opens failure =
      (ground (arith, bytes_eq_refl dst_path), ground (arith, bytes_eq_sound dst_path other))

  -- No other file changes, however the transfer ends.
  pub storage_receive_to_file-other :
      (fd : Descriptor) (files : Files) (size : ℕ) (other : Bytes)
      → dst_path ≢ other
      → (storage_receive_to_file disk dst_path fd files size).1.1 other ≡ files other
  unfolding storage_receive_to_file put_file
  storage_receive_to_file-other fd files size other ne =
      ground (arith, bytes_eq_sound dst_path other)

send_step :
    (fuel r total : ℕ) (readable : Bool) (fd : Descriptor) (contents : Bytes)
    → length (take chunk_size contents) ≡ suc r
    → (write_all fd (take chunk_size contents)).0 ≡ some total
    → send_loop (suc fuel) readable fd contents ≡ (
        if ltb (suc r) chunk_size
        then (readable, (write_all fd (take chunk_size contents)).1)
        else send_loop fuel readable
            (write_all fd (take chunk_size contents)).1
            (drop chunk_size contents))
unfolding send_loop
send_step fuel r total readable fd contents e w = elim (Bool-cases (ltb (suc r) chunk_size)) [
  | inl short ↦ rw (send_loop, e, w, short) refl
  | inr full ↦ rw (send_loop, e, w, full) refl
]

send_end :
    (fuel : ℕ) (readable : Bool) (fd : Descriptor) (contents : Bytes)
    → length (take chunk_size contents) ≡ 0
    → send_loop (suc fuel) readable fd contents ≡ (readable, fd)
unfolding send_loop
send_end fuel readable fd contents e = rw (send_loop, e) refl

send_loop-output :
    (fuel : ℕ) (readable : Bool) (fd : Descriptor) (contents : Bytes)
    → length contents < fuel * chunk_size
    → IsSteady fd.writes
    → length contents ≤ rounds fd.writes
    → ((send_loop fuel readable fd contents).0 ≡ readable)
      × ((send_loop fuel readable fd contents).1.output ≡ fd.output ++ contents)
send_loop-output zero readable fd contents fuel_ok steady enough = absurd (omega arith)
send_loop-output (suc fuel) readable fd [] fuel_ok steady enough =
    rw (send_end fuel readable fd [] refl) (refl, sym (append-nil fd.output))
send_loop-output (suc fuel) readable fd (b ∷ rest) fuel_ok steady enough =
    let contents = b ∷ rest in
    let part = take chunk_size contents in
    let size : length part ≡ suc (length part - 1) =
      omega (arith, length-take chunk_size contents) in
    let (count, output, still, left) =
      write_all-rounds fd part steady (omega (arith, length-take chunk_size contents)) in
    rw (send_step fuel (length part - 1) (length part) readable fd contents size count)
      (elim (Bool-cases (ltb (suc (length part - 1)) chunk_size)) [
        | inl short ↦
            let whole : part ≡ contents = take_all chunk_size contents (
              omega (
                arith,
                length-take chunk_size contents,
                ltb→lt (suc (length part - 1)) chunk_size short,
              )) in
            rw short (refl, output ∙ ap (◌++◌ fd.output) whole)
        | inr full ↦
            let (done, output') =
              send_loop-output fuel readable (write_all fd part).1 (drop chunk_size contents)
                (omega (
                  arith,
                  length-drop chunk_size contents,
                  length-take chunk_size contents,
                  ltb_false→le (suc (length part - 1)) chunk_size full,
                  fuel_ok,
                ))
                still
                (omega (
                  arith,
                  length-drop chunk_size contents,
                  length-take chunk_size contents,
                  left,
                  enough,
                )) in
            rw full (
              done,
              output'
                  ∙ ap (λ (o : Bytes). o ++ drop chunk_size contents) output
                  ∙ append_assoc fd.output part (drop chunk_size contents)
                  ∙ ap (◌++◌ fd.output) (take-append-drop chunk_size contents),
            )
      ])

-- However the calls of `write` cut the chunks, a file that is sent arrives whole and in order, in
-- as many rounds as it has chunks of 65536 bytes, for steady calls, one for each byte at most.
pub storage_send_file-output :
    (disk : Disk) (fd : Descriptor) (files : Files) (src_path contents : Bytes)
    → files src_path ≡ some contents
    → disk.can_read src_path ≡ true
    → IsSteady fd.writes
    → length contents ≤ rounds fd.writes
    → ((storage_send_file disk fd files src_path).0 ≡ true)
      × ((storage_send_file disk fd files src_path).1.output ≡ fd.output ++ contents)
unfolding storage_send_file
storage_send_file-output disk fd files src_path contents found readable steady enough =
    rw (storage_send_file, found, readable)
      (send_loop-output (send_rounds contents) true fd contents (omega arith) steady enough)
