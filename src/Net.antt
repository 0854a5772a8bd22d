-- ===== src/Net.antt =====
-- src/server/net.c: the loops that read and write a descriptor to the end. What the descriptor does
-- is an argument: the bytes that the peer has sent, and the outcome of each call of `read` or
-- `write`, in order. With no outcome left a call fails, so a loop ends with its outcomes.
pub mod Reading
pub mod Writing
pub mod Left
mod Examples
use pcd.Prelude.{
  ℕ, zero, suc, ◌+◌, ◌-◌, Bool, Option, none, some, List, [], ◌∷◌, ◌++◌, Bytes, length, take, drop,
  ltb, ◌==◌, if◌then◌else◌,
}

-- One call: -1 with EINTR, -1 with another error, or at most so many bytes. A call that moves no
-- byte returns 0, the end of the input.
pub data IoCall : Type 0 where
  interrupted failed : IoCall
  moves : ℕ → IoCall

-- A descriptor: the input not yet read, the output written, and the calls to come.
pub record Descriptor : Type 0 where
  pub input : Bytes
  pub output : Bytes
  pub reads : List IoCall
  pub writes : List IoCall

-- What a call moves of the bytes at hand: as many as are asked for, at most `available`.
abbrev pub chunk : ℕ → ℕ → Bytes → Bytes
chunk available want input = take want (take available input)

-- `buffer`, the input left and the calls left; `none` for -1.
abbrev pub ReadResult : Type 0
ReadResult = Option Bytes × (Bytes × List IoCall)

unfoldable pub read_exact_loop : List IoCall → ℕ → Bytes → Bytes → ReadResult
read_exact_loop calls zero input buffer = (some buffer, (input, calls))
read_exact_loop [] (suc n) input buffer = (none, (input, []))
read_exact_loop (interrupted ∷ calls) (suc n) input buffer =
    read_exact_loop calls (suc n) input buffer
read_exact_loop (failed ∷ calls) (suc n) input buffer = (none, (input, calls))
read_exact_loop (moves available ∷ calls) (suc n) input buffer =
    let got = chunk available (suc n) input in
    elim (length got) [
      | zero ↦ (some buffer, (input, calls))
      | suc rc ↦ read_exact_loop calls (n - rc) (drop (suc rc) input) (buffer ++ got)
    ]

abbrev pub after_read : Descriptor → ReadResult → Option Bytes × Descriptor
after_read fd (result, (input, reads)) = (result, record fd { input = input; reads = reads })

-- The bytes read, fewer than `size` at the end of the input only.
unfoldable pub read_exact : Descriptor → ℕ → Option Bytes × Descriptor
unfolding read_exact_loop
read_exact fd size = after_read fd (read_exact_loop fd.reads size fd.input [])

abbrev pub chunk_size : ℕ
chunk_size = 65536

abbrev pub at_most : ℕ → ℕ → ℕ
at_most limit n = if ltb n limit then n else limit

-- `true` for 0 and `false` for -1.
unfoldable pub discard_loop : List IoCall → ℕ → Bytes → Bool × (Bytes × List IoCall)
discard_loop calls zero input = (Bool.true, (input, calls))
discard_loop [] (suc n) input = (Bool.false, (input, []))
discard_loop (interrupted ∷ calls) (suc n) input = discard_loop calls (suc n) input
discard_loop (failed ∷ calls) (suc n) input = (Bool.false, (input, calls))
discard_loop (moves available ∷ calls) (suc n) input =
    elim (length (chunk available (at_most chunk_size (suc n)) input)) [
      | zero ↦ (Bool.false, (input, calls))
      | suc rc ↦ discard_loop calls (n - rc) (drop (suc rc) input)
    ]

unfoldable pub discard_exact : Descriptor → ℕ → Bool × Descriptor
unfolding discard_loop
discard_exact fd size =
    let (done, (input, reads)) = discard_loop fd.reads size fd.input in
    (done, record fd { input = input; reads = reads })

-- The loop of `read_line`, byte by byte, with room for `room` bytes more.
unfoldable pub read_line_loop : List IoCall → ℕ → Bytes → Bytes → ReadResult
read_line_loop calls zero input buffer = (some buffer, (input, calls))
read_line_loop [] (suc room) input buffer = (none, (input, []))
read_line_loop (interrupted ∷ calls) (suc room) input buffer =
    read_line_loop calls (suc room) input buffer
read_line_loop (failed ∷ calls) (suc room) input buffer = (none, (input, calls))
read_line_loop (moves available ∷ calls) (suc room) input buffer = elim (chunk available 1 input) [
  | [] ↦ (some buffer, (input, calls))
  | ch ∷ none_more ↦ elim (ch == b'\n') [
    | Bool.true ↦ (some (buffer ++ (ch ∷ [])), (drop 1 input, calls))
    | Bool.false ↦ read_line_loop calls room (drop 1 input) (buffer ++ (ch ∷ []))
  ]
]

-- The text before the terminator; its length is the value returned.
unfoldable pub read_line : Descriptor → ℕ → Option Bytes × Descriptor
unfolding read_line_loop
read_line fd buffer_size =
    if buffer_size == 0
    then (none, fd)
    else after_read fd (read_line_loop fd.reads (buffer_size - 1) fd.input [])

-- The loop of `write_all`: the number of bytes written, the output, and the calls left.
unfoldable pub write_loop : List IoCall → Bytes → ℕ → Bytes → Option ℕ × (Bytes × List IoCall)
write_loop calls [] total output = (some total, (output, calls))
write_loop [] (b ∷ rest) total output = (none, (output, []))
write_loop (interrupted ∷ calls) (b ∷ rest) total output = write_loop calls (b ∷ rest) total output
write_loop (failed ∷ calls) (b ∷ rest) total output = (none, (output, calls))
write_loop (moves zero ∷ calls) (b ∷ rest) total output = (some total, (output, calls))
write_loop (moves (suc more) ∷ calls) (b ∷ rest) total output =
    let written = take (suc more) (b ∷ rest) in
    write_loop calls (drop (suc more) (b ∷ rest)) (total + length written) (output ++ written)

unfoldable pub write_all : Descriptor → Bytes → Option ℕ × Descriptor
unfolding write_loop
write_all fd buffer =
    let (total, (output, writes)) = write_loop fd.writes buffer 0 fd.output in
    (total, record fd { output = output; writes = writes })
