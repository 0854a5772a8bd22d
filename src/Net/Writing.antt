-- ===== src/Net/Writing.antt =====
-- What `write_all` of src/server/net.c writes, however its calls of `write` cut the buffer.
use pcd.Prelude.{
  ℕ, zero, suc, ◌+◌, ◌-◌, ◌≤◌, ◌≡◌, sym, ap, ◌∙◌, arith, some, List, [], ◌∷◌, ◌++◌, append_assoc,
  append-nil, Bytes, length-drop, length, length-append, take, drop, take-append-drop,
}
use pcd.Net.{IoCall, interrupted, failed, moves, Descriptor, write_loop, write_all}
use pcd.Net.Reading.{IsSteady, supply, rounds}

write_loop_lem :
    (calls : List IoCall) (buffer : Bytes) (total : ℕ) (output : Bytes)
    → IsSteady calls
    → length buffer ≤ supply calls
    → ((write_loop calls buffer total output).0 ≡ some (total + length buffer))
      × ((write_loop calls buffer total output).1.0 ≡ output ++ buffer)
unfolding write_loop IsSteady supply
write_loop_lem calls [] total output steady enough =
    (let same : total ≡ total + 0 = omega arith in ap some same, sym (append-nil output))
write_loop_lem [] (b ∷ rest) total output steady enough = absurd (omega arith)
write_loop_lem (interrupted ∷ calls) (b ∷ rest) total output steady enough =
    write_loop_lem calls (b ∷ rest) total output steady enough
write_loop_lem (failed ∷ calls) (b ∷ rest) total output steady enough = absurd steady
write_loop_lem (moves zero ∷ calls) (b ∷ rest) total output (positive, steady) enough =
    absurd (omega arith)
write_loop_lem (moves (suc more) ∷ calls) (b ∷ rest) total output (positive, steady) enough =
    let written = take (suc more) (b ∷ rest) in
    let left = drop (suc more) (b ∷ rest) in
    let cut = take-append-drop (suc more) (b ∷ rest) in
    let sizes : length written + length left ≡ suc (length rest) =
      omega (arith, length-append written left, ap (length {A = ℕ}) cut) in
    let (count, output') =
      write_loop_lem calls left (total + length written) (output ++ written) steady
        (omega (arith, sizes, length-rest more rest)) in
    (
      count
          ∙ (let same : total + length written + length left ≡ total + suc (length rest) =
                omega (arith, sizes) in
              ap some same),
      output' ∙ append_assoc output written left ∙ ap (◌++◌ output) cut,
    )
  where
    length-rest : (n : ℕ) (xs : Bytes) → length (drop n xs) ≤ length xs - n
    length-rest zero xs = omega arith
    length-rest (suc n) [] = omega arith
    length-rest (suc n) (x ∷ xs) = omega (arith, length-rest n xs)

-- However its calls cut the buffer, `write_all` writes the whole buffer, in order, behind what was
-- written before, for calls that do not fail and move that many bytes.
pub write_all_lem :
    (fd : Descriptor) (buffer : Bytes)
    → IsSteady fd.writes
    → length buffer ≤ supply fd.writes
    → ((write_all fd buffer).0 ≡ some (length buffer))
      × ((write_all fd buffer).1.output ≡ fd.output ++ buffer)
unfolding write_all
write_all_lem fd buffer steady enough =
    let (count, output) = write_loop_lem fd.writes buffer 0 fd.output steady enough in
    (count ∙ (let same : 0 + length buffer ≡ length buffer = omega arith in ap some same), output)

-- Steady calls move a byte in each round.
pub rounds-le-supply : (calls : List IoCall) → IsSteady calls → rounds calls ≤ supply calls
unfolding IsSteady rounds supply
rounds-le-supply [] steady = omega arith
rounds-le-supply (interrupted ∷ calls) steady = rounds-le-supply calls steady
rounds-le-supply (failed ∷ calls) steady = absurd steady
rounds-le-supply (moves available ∷ calls) (positive, steady) =
    omega (arith, rounds-le-supply calls steady)

-- What a write leaves of its calls is enough for what is still to be written.
write_loop_left :
    (calls : List IoCall) (buffer : Bytes) (total : ℕ) (output : Bytes)
    → IsSteady calls
    → IsSteady (write_loop calls buffer total output).1.1
      × (rounds calls ≤ rounds (write_loop calls buffer total output).1.1 + length buffer)
unfolding write_loop IsSteady rounds
write_loop_left calls [] total output steady = (steady, omega arith)
write_loop_left [] (b ∷ rest) total output steady = (steady, omega arith)
write_loop_left (interrupted ∷ calls) (b ∷ rest) total output steady =
    write_loop_left calls (b ∷ rest) total output steady
write_loop_left (failed ∷ calls) (b ∷ rest) total output steady = absurd steady
write_loop_left (moves zero ∷ calls) (b ∷ rest) total output (positive, steady) =
    absurd (omega arith)
write_loop_left (moves (suc more) ∷ calls) (b ∷ rest) total output (positive, steady) =
    let (still, left) =
      write_loop_left calls (drop (suc more) (b ∷ rest))
        (total + length (take (suc more) (b ∷ rest))) (output ++ take (suc more) (b ∷ rest))
        steady in
    (still, omega (arith, left, length-drop more rest))

-- A write of a whole buffer, and the calls that are left behind it.
pub write_all-rounds :
    (fd : Descriptor) (buffer : Bytes)
    → IsSteady fd.writes
    → length buffer ≤ rounds fd.writes
    → ((write_all fd buffer).0 ≡ some (length buffer))
      × ((write_all fd buffer).1.output ≡ fd.output ++ buffer)
      × IsSteady (write_all fd buffer).1.writes
      × (rounds fd.writes ≤ rounds (write_all fd buffer).1.writes + length buffer)
unfolding write_all
write_all-rounds fd buffer steady enough =
    let (count, output) =
      write_all_lem fd buffer steady (omega (arith, rounds-le-supply fd.writes steady)) in
    let (still, left) = write_loop_left fd.writes buffer 0 fd.output steady in
    (count, output, still, left)
