-- ===== src/Net/Reading.antt =====
-- What the reading loops of src/server/net.c return, however the calls of `read` cut the input.
use Prim.Native.Nat.{min}
use Prim.Native.Nat.add
use pcd.Prelude.{
  ℕ, zero, suc, ◌+◌, ◌-◌, ◌≤◌, ◌<◌, ◌≡◌, ◌≢◌, refl, sym, ap, ◌∙◌, arith, true, false, some, List,
  [], ◌∷◌, ◌++◌, append_assoc, append-nil, Bytes, All, length, length-take, length-drop, take, drop,
  ltb, ◌==◌, Bool-cases, inl, inr,
}
use pcd.Net.{
  IoCall, interrupted, failed, moves, Descriptor, chunk, chunk_size, at_most, read_exact_loop,
  read_exact, discard_loop, discard_exact, read_line_loop, read_line,
}

-- No call fails, and none ends the input early.
unfoldable pub IsSteady : List IoCall → Type 0
IsSteady [] = Unit
IsSteady (interrupted ∷ calls) = IsSteady calls
IsSteady (failed ∷ calls) = ⊥
IsSteady (moves available ∷ calls) = (0 < available) × IsSteady calls

-- The bytes that the calls move, if so many are asked for.
unfoldable pub supply : List IoCall → ℕ
supply [] = 0
supply (interrupted ∷ calls) = supply calls
supply (failed ∷ calls) = supply calls
supply (moves available ∷ calls) = available + supply calls

pub take-take : (n m : ℕ) (xs : Bytes) → take n (take m xs) ≡ take (min n m) xs
take-take zero m xs =
    let none_left : ◌≡◌ {A = ℕ} 0 (min 0 m) = omega arith in ap (λ (k : ℕ). take k xs) none_left
take-take (suc n) zero xs =
    let none_left : ◌≡◌ {A = ℕ} 0 (min (suc n) 0) = omega arith in
    ap (λ (k : ℕ). take k xs) none_left
take-take (suc n) (suc m) [] =
    let least : suc (min n m) ≡ min (suc n) (suc m) = omega arith in ap (λ (k : ℕ). take k []) least
take-take (suc n) (suc m) (x ∷ xs) =
    let least : suc (min n m) ≡ min (suc n) (suc m) = omega arith in
    ap (◌∷◌ x) (take-take n m xs) ∙ ap (λ (k : ℕ). take k (x ∷ xs)) least

pub take-split : (m k : ℕ) (xs : Bytes) → take (m + k) xs ≡ take m xs ++ take k (drop m xs)
take-split zero k xs = simp add.zero
take-split (suc m) zero [] = simp add.suc
take-split (suc m) (suc k) [] = simp add.suc
take-split (suc m) k (x ∷ xs) = simp (add.suc, take-split m k xs)

pub drop-split : (m k : ℕ) (xs : Bytes) → drop (m + k) xs ≡ drop k (drop m xs)
drop-split zero k xs = simp add.zero
drop-split (suc m) zero [] = simp add.suc
drop-split (suc m) (suc k) [] = simp add.suc
drop-split (suc m) k (x ∷ xs) = simp (add.suc, drop-split m k xs)

pub read_step :
    (calls : List IoCall) (available n rc : ℕ) (input buffer : Bytes)
    → length (chunk available (suc n) input) ≡ suc rc
    → read_exact_loop (moves available ∷ calls) (suc n) input buffer
      ≡ read_exact_loop calls
          (n - rc)
          (drop (suc rc) input)
          (buffer ++ chunk available (suc n) input)
unfolding read_exact_loop
read_step calls available n rc input buffer e = rw (read_exact_loop, e) refl

-- A call that moves bytes moves `suc rc` of them, no more than asked for.
abbrev pub rc_of : ℕ → ℕ → ℕ
rc_of available n = min n (available - 1)

pub rc_of-le : (available n : ℕ) → rc_of available n ≤ n
rc_of-le available n = omega arith

rc_of_lem : (available n : ℕ) → 0 < available → n - rc_of available n ≤ suc n - available
rc_of_lem available n h = omega arith

pub length-chunk :
    (available n : ℕ) (input : Bytes)
    → 0 < available
    → suc n ≤ length input
    → length (chunk available (suc n) input) ≡ suc (rc_of available n)
length-chunk available n input h enough =
    omega (arith, length-take (suc n) (take available input), length-take available input)

pub chunk-take :
    (available n : ℕ) (input : Bytes)
    → 0 < available
    → chunk available (suc n) input ≡ take (suc (rc_of available n)) input
chunk-take available n input h =
    let least : min (suc n) available ≡ suc (min n (available - 1)) = omega arith in
    take-take (suc n) available input ∙ ap (λ (m : ℕ). take m input) least

read_exact_loop-take :
    (calls : List IoCall) (n : ℕ) (input buffer : Bytes)
    → IsSteady calls
    → n ≤ supply calls
    → n ≤ length input
    → ((read_exact_loop calls n input buffer).0 ≡ some (buffer ++ take n input))
      × ((read_exact_loop calls n input buffer).1.0 ≡ drop n input)
unfolding read_exact_loop IsSteady supply
read_exact_loop-take calls zero input buffer steady some_calls enough =
    (ap some (sym (append-nil buffer)), refl)
read_exact_loop-take [] (suc n) input buffer steady some_calls enough = absurd (omega arith)
read_exact_loop-take (interrupted ∷ calls) (suc n) input buffer steady some_calls enough =
    read_exact_loop-take calls (suc n) input buffer steady some_calls enough
read_exact_loop-take (failed ∷ calls) (suc n) input buffer steady some_calls enough = absurd steady
read_exact_loop-take (moves available ∷ calls) (suc n) input buffer (positive, steady) some_calls
      enough =
    let rc = rc_of available n in
    let got = chunk-take available n input positive in
    let small = rc_of-le available n in
    let whole : suc rc + (n - rc) ≡ suc n = omega (arith, small) in
    let (data', rest) =
      read_exact_loop-take calls (n - rc) (drop (suc rc) input)
        (buffer ++ chunk available (suc n) input) steady
        (omega (arith, rc_of_lem available n positive))
        (omega (arith, length-drop (suc rc) input, small)) in
    rw
      (read_step calls available n rc input buffer (length-chunk available n input positive enough))
      (
        data'
            ∙ ap some (
                append_assoc buffer (chunk available (suc n) input)
                  (take (n - rc) (drop (suc rc) input))
                ∙ ap (λ (c : Bytes). buffer ++ (c ++ take (n - rc) (drop (suc rc) input))) got
                ∙ ap (◌++◌ buffer) (
                    sym (take-split (suc rc) (n - rc) input) ∙ ap (λ (k : ℕ). take k input) whole)),
        rest ∙ sym (drop-split (suc rc) (n - rc) input) ∙ ap (λ (k : ℕ). drop k input) whole,
      )

-- However the calls cut the input, `read_exact` reads the next `size` bytes and leaves the rest:
-- for calls that do not fail and move that many bytes, of an input that long.
pub read_exact-take :
    (fd : Descriptor) (size : ℕ)
    → IsSteady fd.reads
    → size ≤ supply fd.reads
    → size ≤ length fd.input
    → ((read_exact fd size).0 ≡ some (take size fd.input))
      × ((read_exact fd size).1.input ≡ drop size fd.input)
unfolding read_exact
read_exact-take fd size steady some_calls enough =
    read_exact_loop-take fd.reads size fd.input [] steady some_calls enough

-- The calls that move bytes.
unfoldable pub rounds : List IoCall → ℕ
rounds [] = 0
rounds (interrupted ∷ calls) = rounds calls
rounds (failed ∷ calls) = rounds calls
rounds (moves available ∷ calls) = suc (rounds calls)

pub at_most_cases : (n : ℕ) → (w : ℕ) × (at_most chunk_size (suc n) ≡ suc w) × (w ≤ n)
at_most_cases n = elim (Bool-cases (ltb (suc n) chunk_size)) [
  | inl small ↦ (n, ground arith, omega arith)
  | inr large ↦ (65535, ground arith, ground arith)
]

discard_step :
    (calls : List IoCall) (available n rc : ℕ) (input : Bytes)
    → length (chunk available (at_most chunk_size (suc n)) input) ≡ suc rc
    → discard_loop (moves available ∷ calls) (suc n) input
      ≡ discard_loop calls (n - rc) (drop (suc rc) input)
unfolding discard_loop
discard_step calls available n rc input e = rw (discard_loop, e) refl

discard_loop-drop :
    (calls : List IoCall) (n : ℕ) (input : Bytes)
    → IsSteady calls
    → n ≤ rounds calls
    → n ≤ length input
    → ((discard_loop calls n input).0 ≡ true) × ((discard_loop calls n input).1.0 ≡ drop n input)
unfolding discard_loop IsSteady rounds
discard_loop-drop calls zero input steady some_calls enough = (refl, refl)
discard_loop-drop [] (suc n) input steady some_calls enough = absurd (omega arith)
discard_loop-drop (interrupted ∷ calls) (suc n) input steady some_calls enough =
    discard_loop-drop calls (suc n) input steady some_calls enough
discard_loop-drop (failed ∷ calls) (suc n) input steady some_calls enough = absurd steady
discard_loop-drop (moves available ∷ calls) (suc n) input (positive, steady) some_calls enough =
    let (w, want, below) = at_most_cases n in
    let rc = rc_of available w in
    let small = rc_of-le available w in
    let whole : suc rc + (n - rc) ≡ suc n = omega (arith, small) in
    let (done, rest) =
      discard_loop-drop calls (n - rc) (drop (suc rc) input) steady (omega arith)
        (omega (arith, length-drop (suc rc) input, small)) in
    let moved : length (chunk available (at_most chunk_size (suc n)) input) ≡ suc rc =
      rw want (length-chunk available w input positive (omega arith)) in
    rw (discard_step calls available n rc input moved)
      (done, rest ∙ sym (drop-split (suc rc) (n - rc) input) ∙ ap (λ (k : ℕ). drop k input) whole)

-- `discard_exact` skips exactly `size` bytes, for steady calls, one for each byte at most, of an
-- input that long.
pub discard_exact-drop :
    (fd : Descriptor) (size : ℕ)
    → IsSteady fd.reads
    → size ≤ rounds fd.reads
    → size ≤ length fd.input
    → ((discard_exact fd size).0 ≡ true) × ((discard_exact fd size).1.input ≡ drop size fd.input)
unfolding discard_exact
discard_exact-drop fd size steady some_calls enough =
    discard_loop-drop fd.reads size fd.input steady some_calls enough

pub line_end :
    (calls : List IoCall) (available room : ℕ) (rest buffer : Bytes)
    → 0 < available
    → read_line_loop (moves available ∷ calls) (suc room) (b'\n' ∷ rest) buffer
      ≡ (some (buffer ++ (b'\n' ∷ [])), (rest, calls))
unfolding read_line_loop
line_end calls zero room rest buffer h = absurd (omega arith)
line_end calls (suc available) room rest buffer h = refl

pub line_more :
    (calls : List IoCall) (available room ch : ℕ) (rest buffer : Bytes)
    → 0 < available
    → ch ≢ b'\n'
    → read_line_loop (moves available ∷ calls) (suc room) (ch ∷ rest) buffer
      ≡ read_line_loop calls room rest (buffer ++ (ch ∷ []))
unfolding read_line_loop
line_more calls zero room ch rest buffer h other = absurd (omega arith)
line_more calls (suc available) room ch rest buffer h other =
    let differs : (ch == b'\n') ≡ false = ground arith in rw (read_line_loop, differs) refl

pub read_line_loop-line :
    (calls : List IoCall) (room : ℕ) (line rest buffer : Bytes)
    → IsSteady calls
    → length line < rounds calls
    → length line < room
    → All (λ ch. ch ≢ b'\n') line
    → ((read_line_loop calls room (line ++ (b'\n' ∷ rest)) buffer).0
        ≡ some (buffer ++ (line ++ (b'\n' ∷ []))))
      × ((read_line_loop calls room (line ++ (b'\n' ∷ rest)) buffer).1.0 ≡ rest)
unfolding IsSteady rounds read_line_loop
read_line_loop-line calls zero line rest buffer steady some_calls fits plain = absurd (omega arith)
read_line_loop-line [] (suc room) line rest buffer steady some_calls fits plain =
    absurd (omega arith)
read_line_loop-line (interrupted ∷ calls) (suc room) line rest buffer steady some_calls fits plain =
    read_line_loop-line calls (suc room) line rest buffer steady some_calls fits plain
read_line_loop-line (failed ∷ calls) (suc room) line rest buffer steady some_calls fits plain =
    absurd steady
read_line_loop-line (moves available ∷ calls) (suc room) [] rest buffer (positive, steady)
      some_calls fits plain =
    rw (line_end calls available room rest buffer positive) (refl, refl)
read_line_loop-line (moves available ∷ calls) (suc room) (ch ∷ line) rest buffer (positive, steady)
      some_calls fits (other, plain) =
    let (found, left) =
      read_line_loop-line calls room line rest (buffer ++ (ch ∷ [])) steady (omega arith)
        (omega arith) plain in
    rw (line_more calls available room ch (line ++ (b'\n' ∷ rest)) buffer positive other)
      (found ∙ ap some (append_assoc buffer (ch ∷ []) (line ++ (b'\n' ∷ []))), left)

-- `read_line` returns the next line with its newline and leaves what follows it, for a line that
-- fits the buffer and steady calls, one for each byte.
pub read_line_lem :
    (fd : Descriptor) (buffer_size : ℕ) (line rest : Bytes)
    → IsSteady fd.reads
    → length line < rounds fd.reads
    → length line + 1 < buffer_size
    → All (λ ch. ch ≢ b'\n') line
    → fd.input ≡ line ++ (b'\n' ∷ rest)
    → ((read_line fd buffer_size).0 ≡ some (line ++ (b'\n' ∷ [])))
      × ((read_line fd buffer_size).1.input ≡ rest)
unfolding read_line
read_line_lem fd buffer_size line rest steady some_calls fits plain input =
    let sized : (buffer_size == 0) ≡ false = ground arith in
    simp (sized, input)
      (read_line_loop-line fd.reads (buffer_size - 1) line rest [] steady some_calls (omega arith)
        plain)
