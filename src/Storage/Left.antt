-- ===== src/Storage/Left.antt =====
-- What the loop of storage_receive_to_file leaves of the calls of a descriptor.
use pcd.Prelude.{
  ℕ, zero, suc, ◌-◌, ◌≤◌, ◌≡◌, arith, true, List, [], ◌∷◌, ◌++◌, Bytes, length, length-drop, drop,
  Bool-cases, inl, inr,
}
use pcd.Net.{IoCall, interrupted, failed, moves, Descriptor, chunk, chunk_size, at_most}
use pcd.Net.Reading.{IsSteady, rounds, rc_of, rc_of-le, length-chunk, at_most_cases}
use pcd.Net.Left.{Spent}
use pcd.Storage.{Files, Disk, receive_loop, storage_receive_to_file}
use pcd.Storage.Transfer.{receive_step}

module _ (disk : Disk) (dst_path : Bytes) where
  receive_loop-Spent :
      (calls : List IoCall) (n : ℕ) (input stored : Bytes)
      → ((k : ℕ) → disk.can_store dst_path k ≡ true)
      → IsSteady calls
      → n ≤ rounds calls
      → n ≤ length input
      → Spent n calls (receive_loop disk dst_path calls n input stored).1.1.1
  unfolding receive_loop IsSteady rounds
  receive_loop-Spent calls zero input stored stores steady some_calls enough = record {
    steady = steady;
    kept = omega arith;
  }
  receive_loop-Spent [] (suc n) input stored stores steady some_calls enough = absurd (omega arith)
  receive_loop-Spent (interrupted ∷ calls) (suc n) input stored stores steady some_calls enough =
      let left = receive_loop-Spent calls (suc n) input stored stores steady some_calls enough in
      record { steady = left.steady; kept = omega (arith, left.kept) }
  receive_loop-Spent (failed ∷ calls) (suc n) input stored stores steady some_calls enough =
      absurd steady
  receive_loop-Spent (moves available ∷ calls) (suc n) input stored stores (positive, steady)
        some_calls enough =
      let (w, want, below) = at_most_cases n in
      let rc = rc_of available w in
      let small = rc_of-le available w in
      let moved : length (chunk available (at_most chunk_size (suc n)) input) ≡ suc rc =
        rw want (length-chunk available w input positive (omega arith)) in
      let left =
        receive_loop-Spent calls (n - rc) (drop (suc rc) input)
          (stored ++ chunk available (at_most chunk_size (suc n)) input) stores steady (omega arith)
          (omega (arith, length-drop (suc rc) input, small)) in
      rw (receive_step disk dst_path calls available n rc input stored moved (stores (suc rc)))
        (record { steady = left.steady; kept = omega (arith, left.kept, small, below) })

  pub storage_receive_to_file-Spent :
      (fd : Descriptor) (files : Files) (size : ℕ)
      → disk.can_open dst_path ≡ true
      → disk.can_close dst_path ≡ true
      → ((k : ℕ) → disk.can_store dst_path k ≡ true)
      → IsSteady fd.reads
      → size ≤ rounds fd.reads
      → size ≤ length fd.input
      → Spent size fd.reads (storage_receive_to_file disk dst_path fd files size).1.0.reads
  unfolding storage_receive_to_file
  storage_receive_to_file-Spent fd files size opens closes stores steady some_calls enough =
      let left = receive_loop-Spent fd.reads size fd.input [] stores steady some_calls enough in
      elim (Bool-cases (receive_loop disk dst_path fd.reads size fd.input []).0) [
        | inl done ↦ simp (opens, closes, done) left
        | inr cut ↦ simp (opens, cut) left
      ]
