-- ===== src/Net/Examples.antt =====
-- Tests of the model of src/server/net.c, and its theorems at concrete inputs.
use pcd.Prelude.{◌≡◌, refl, arith, false, none, some, [], ◌∷◌, ◌++◌, codes, take, drop}
use pcd.Net.{Descriptor, interrupted, failed, moves, read_exact, discard_exact, read_line}
use pcd.Net.Reading.{IsSteady, supply, rounds, read_exact-take, read_line_lem}

abbrev peer : Descriptor
peer = record {
  input = codes "PING" ++ (b'\n' ∷ codes "abcdef");
  output = [];
  reads = moves 3 ∷ interrupted ∷ moves 1 ∷ moves 9 ∷ moves 2 ∷ moves 1 ∷ moves 70000 ∷ [];
  writes = moves 2 ∷ interrupted ∷ moves 4 ∷ [];
}

peer-IsSteady : IsSteady peer.reads
unfolding IsSteady
peer-IsSteady = omega arith

read_exact-take_example :
    ((read_exact peer 7).0 ≡ some (take 7 peer.input))
    × ((read_exact peer 7).1.input ≡ drop 7 peer.input)
unfolding supply
read_exact-take_example = read_exact-take peer 7 peer-IsSteady (omega arith) (omega arith)

read_line_lem_example :
    ((read_line peer 4096).0 ≡ some (codes "PING" ++ (b'\n' ∷ [])))
    × ((read_line peer 4096).1.input ≡ codes "abcdef")
unfolding rounds
read_line_lem_example =
    read_line_lem peer 4096 (codes "PING") (codes "abcdef") peer-IsSteady (omega arith)
      (omega arith) (omega arith) refl

-- A line longer than the buffer is cut, a failing call is an error, and the end of the input ends
-- the read early.
cuts_lines : (read_line peer 3).0 ≡ some (codes "PI")
unfolding read_line
cuts_lines = refl

fails : (read_exact (record peer { reads = failed ∷ [] }) 2).0 ≡ none
unfolding read_exact
fails = refl

ends_early : (read_exact (record peer { reads = moves 2 ∷ moves 0 ∷ [] }) 5).0 ≡ some (codes "PI")
unfolding read_exact
ends_early = refl

closed_early : (discard_exact (record peer { reads = moves 2 ∷ moves 0 ∷ [] }) 5).0 ≡ false
unfolding discard_exact
closed_early = refl
