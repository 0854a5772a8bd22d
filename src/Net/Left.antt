-- ===== src/Net/Left.antt =====
-- What the loops of src/server/net.c leave of the calls of a descriptor: enough for what is still to
-- be moved, so that several of them can follow each other.
use pcd.Prelude.{
  ℕ, zero, suc, ◌+◌, ◌-◌, ◌≤◌, ◌<◌, ◌≡◌, ◌≢◌, arith, false, some, List, [], ◌∷◌, ◌++◌, Bytes, All,
  length, drop, length-drop, ◌==◌,
}
use pcd.Net.{
  IoCall, interrupted, failed, moves, Descriptor, chunk, read_exact_loop, read_exact,
  read_line_loop, read_line, write_all,
}
use pcd.Net.Reading.{
  IsSteady, rounds, rc_of, rc_of-le, length-chunk, line_end, line_more, read_step,
}
use pcd.Net.Writing.{write_all-rounds}

-- A descriptor from which so many bytes can be read, one in a call at least.
pub record CanRead (fd : Descriptor) (size : ℕ) : Type 0 where
  pub steady : IsSteady fd.reads
  pub enough : size ≤ rounds fd.reads

-- A descriptor to which so many bytes can be written, one in a call at least.
pub record CanWrite (fd : Descriptor) (size : ℕ) : Type 0 where
  pub steady : IsSteady fd.writes
  pub enough : size ≤ rounds fd.writes

-- What a loop that moved at most `size` bytes leaves of the calls.
pub record Spent (size : ℕ) (calls left : List IoCall) : Type 0 where
  pub steady : IsSteady left
  pub kept : rounds calls ≤ rounds left + size

pub CanRead-Spent :
    (fd after : Descriptor) (size more : ℕ)
    → CanRead fd (size + more)
    → Spent size fd.reads after.reads
    → CanRead after more
CanRead-Spent fd after size more can spent = record {
  steady = spent.steady;
  enough = omega (arith, can.enough, spent.kept);
}

pub CanRead-le : (fd : Descriptor) (size more : ℕ) → CanRead fd more → size ≤ more → CanRead fd size
CanRead-le fd size more can small = record {
  steady = can.steady;
  enough = omega (arith, can.enough, small);
}

pub CanWrite-le :
    (fd : Descriptor) (size more : ℕ) → CanWrite fd more → size ≤ more → CanWrite fd size
CanWrite-le fd size more can small = record {
  steady = can.steady;
  enough = omega (arith, can.enough, small);
}

read_line_loop-Spent :
    (calls : List IoCall) (room : ℕ) (line rest buffer : Bytes)
    → IsSteady calls
    → length line < rounds calls
    → length line < room
    → All (λ ch. ch ≢ b'\n') line
    → Spent (length line + 1) calls (read_line_loop calls room (line ++ (b'\n' ∷ rest)) buffer).1.1
unfolding IsSteady rounds read_line_loop
read_line_loop-Spent calls zero line rest buffer steady some_calls fits plain = absurd (omega arith)
read_line_loop-Spent [] (suc room) line rest buffer steady some_calls fits plain =
    absurd (omega arith)
read_line_loop-Spent (interrupted ∷ calls) (suc room) line rest buffer steady some_calls fits
      plain =
    let left =
      read_line_loop-Spent calls (suc room) line rest buffer steady some_calls fits plain in
    record { steady = left.steady; kept = omega (arith, left.kept) }
read_line_loop-Spent (failed ∷ calls) (suc room) line rest buffer steady some_calls fits plain =
    absurd steady
read_line_loop-Spent (moves available ∷ calls) (suc room) [] rest buffer (positive, steady)
      some_calls fits plain =
    rw (line_end calls available room rest buffer positive)
      (record { steady = steady; kept = omega arith })
read_line_loop-Spent (moves available ∷ calls) (suc room) (ch ∷ line) rest buffer (positive, steady)
      some_calls fits (other, plain) =
    let left =
      read_line_loop-Spent calls room line rest (buffer ++ (ch ∷ [])) steady (omega arith)
        (omega arith) plain in
    rw (line_more calls available room ch (line ++ (b'\n' ∷ rest)) buffer positive other)
      (record { steady = left.steady; kept = omega (arith, left.kept) })

read_exact_loop-Spent :
    (calls : List IoCall) (n : ℕ) (input buffer : Bytes)
    → IsSteady calls
    → n ≤ rounds calls
    → n ≤ length input
    → Spent n calls (read_exact_loop calls n input buffer).1.1
unfolding read_exact_loop IsSteady rounds
read_exact_loop-Spent calls zero input buffer steady some_calls enough = record {
  steady = steady;
  kept = omega arith;
}
read_exact_loop-Spent [] (suc n) input buffer steady some_calls enough = absurd (omega arith)
read_exact_loop-Spent (interrupted ∷ calls) (suc n) input buffer steady some_calls enough =
    let left = read_exact_loop-Spent calls (suc n) input buffer steady some_calls enough in
    record { steady = left.steady; kept = omega (arith, left.kept) }
read_exact_loop-Spent (failed ∷ calls) (suc n) input buffer steady some_calls enough = absurd steady
read_exact_loop-Spent (moves available ∷ calls) (suc n) input buffer (positive, steady) some_calls
      enough =
    let rc = rc_of available n in
    let small = rc_of-le available n in
    let left =
      read_exact_loop-Spent calls (n - rc) (drop (suc rc) input)
        (buffer ++ chunk available (suc n) input) steady (omega arith)
        (omega (arith, length-drop (suc rc) input, small, enough)) in
    rw
      (read_step calls available n rc input buffer (length-chunk available n input positive enough))
      (record { steady = left.steady; kept = omega (arith, left.kept, small) })

pub read_line-Spent :
    (fd : Descriptor) (buffer_size : ℕ) (line rest : Bytes)
    → IsSteady fd.reads
    → length line < rounds fd.reads
    → length line + 1 < buffer_size
    → All (λ ch. ch ≢ b'\n') line
    → fd.input ≡ line ++ (b'\n' ∷ rest)
    → Spent (length line + 1) fd.reads (read_line fd buffer_size).1.reads
unfolding read_line
read_line-Spent fd buffer_size line rest steady some_calls fits plain input =
    let sized : (buffer_size == 0) ≡ false = ground arith in
    simp (sized, input)
      (read_line_loop-Spent fd.reads (buffer_size - 1) line rest [] steady some_calls (omega arith)
        plain)

pub read_exact-Spent :
    (fd : Descriptor) (size : ℕ)
    → CanRead fd size
    → size ≤ length fd.input
    → Spent size fd.reads (read_exact fd size).1.reads
unfolding read_exact
read_exact-Spent fd size can enough =
    read_exact_loop-Spent fd.reads size fd.input [] can.steady can.enough enough

-- A write of a whole buffer leaves the calls for what is still to be written.
pub write_all-CanWrite :
    (fd : Descriptor) (buffer : Bytes) (more : ℕ)
    → CanWrite fd (length buffer + more)
    → ((write_all fd buffer).0 ≡ some (length buffer))
      × ((write_all fd buffer).1.output ≡ fd.output ++ buffer)
      × CanWrite (write_all fd buffer).1 more
write_all-CanWrite fd buffer more can =
    let (count, output, still, left) =
      write_all-rounds fd buffer can.steady (omega (arith, can.enough)) in
    (count, output, record { steady = still; enough = omega (arith, left, can.enough) })
