-- ===== src/Stego/Embedding.antt =====
-- What `embed_bits` and `extract_bits` of src/server/stego.c do together.
use native.Mathlib.Nat.{le_trans}
use pcd.Prelude.{
  ℕ, zero, suc, ◌+◌, ◌*◌, ◌/◌, ◌%◌, ◌^◌, ◌≤◌, ◌<◌, ◌≡◌, refl, ap, sym, subst, ◌∙◌, arith, List, [],
  ◌∷◌, Bytes, All, All-append, length, length-take, get_or, take, replicate, lt→ltb, bit_and,
  bit_and-one, u8, u64, dec_lt,
}
use pcd.Stego.{
  Image, IsLoaded, image_data_bit_capacity, data_bit, put_bit, embed_rows, embed_bits, extract_bits,
  extract_rows,
}
use pcd.Stego.Pixels.{
  put_bit_lem, data_bit_lem, mask, mask-zero, mask_all, IsBytes, collect_bit-mask,
}
use pcd.Stego.Slots.{row_slots, slots, embed_flat, extract_flat, embed_rows-flat, extract_rows-flat}
use pcd.Stego.Shape.{data_bit-lt, embed_rows-shape, row_len-exact, capacity-lt, capacity-slots}

read-put_bit :
    (v : ℕ) (input : Bytes) (k : ℕ)
    → v < 256
    → u8 (bit_and (put_bit v (data_bit input k)) 1) ≡ data_bit input k
read-put_bit v input k h = omega (
  arith,
  bit_and-one (put_bit v (data_bit input k)),
  put_bit_lem v (data_bit input k) h (data_bit-lt input k),
  data_bit-lt input k,
)

extract_flat_done :
    (total : ℕ) (s output : Bytes) (k : ℕ)
    → total ≤ k
    → extract_flat total s (output, k) ≡ (output, k)
unfolding extract_flat
extract_flat_done total [] output k h = refl
extract_flat_done total (v ∷ s) output k h = ground (arith, extract_flat_done total s output k h)

-- From a list of pixel bytes into which `input` was put, the first bytes of `input` come back.
module _ (input ds : Bytes) (n total : ℕ) (within : total ≤ n) (exact : length ds * 8 ≡ total)
    (bytes : IsBytes ds) (agree : (i : ℕ) → i < total → data_bit ds i ≡ data_bit input i) where
  extract_flat-embed_flat :
      (s : Bytes) (k : ℕ)
      → IsBytes s
      → k ≤ total
      → total ≤ k + length s
      → (extract_flat total (embed_flat n input s k) (mask k ds, k)).0 ≡ ds
  unfolding extract_flat embed_flat
  extract_flat-embed_flat [] k b h h' = mask_all ds k (omega arith)
  extract_flat-embed_flat (v ∷ s) k (b, bs) h h' = elim (dec_lt k total) [
    | yes more ↦
        simp (lt→ltb k total more, lt→ltb k n (le_trans more within), read-put_bit v input k b)
          (rw (← agree k more, collect_bit-mask ds k bytes (omega arith))
            (extract_flat-embed_flat s (k + 1) bs (omega arith) (omega arith)))
    | no full ↦ done (omega arith)
  ]
    where
      done : total ≤ k → (extract_flat total (embed_flat n input (v ∷ s) k) (mask k ds, k)).0 ≡ ds
      done e =
          ap (λ (r : Bytes × ℕ). r.0)
            (extract_flat_done total (embed_flat n input (v ∷ s) k) (mask k ds) k e)
          ∙ mask_all ds k (omega arith)

get_or-take : (n i : ℕ) (xs : Bytes) → i < n → get_or (take n xs) i 0 ≡ get_or xs i 0
get_or-take zero i xs h = absurd (omega arith)
get_or-take (suc n) i [] h = refl
get_or-take (suc n) zero (x ∷ xs) h = refl
get_or-take (suc n) (suc i) (x ∷ xs) h = get_or-take n i xs (omega arith)

data_bit-take : (n k : ℕ) (xs : Bytes) → k < n * 8 → data_bit (take n xs) k ≡ data_bit xs k
data_bit-take n k xs h = omega (
  arith,
  data_bit_lem (take n xs) k,
  data_bit_lem xs k,
  ap (λ (t : ℕ). t / 2 ^ (k % 8) % 2) (get_or-take n (k / 8) xs (omega arith)),
)

pub IsBytes-take : (n : ℕ) (xs : Bytes) → IsBytes xs → IsBytes (take n xs)
IsBytes-take zero xs h = tt
IsBytes-take (suc n) [] h = tt
IsBytes-take (suc n) (x ∷ xs) (h, hs) = (h, IsBytes-take n xs hs)

IsBytes-row_slots :
    (channels x : ℕ) (row : Bytes) → IsBytes row → IsBytes (row_slots channels x row)
unfolding row_slots
IsBytes-row_slots channels x [] h = tt
IsBytes-row_slots channels x (v ∷ row) (h, hs) =
    ground (arith, IsBytes-row_slots channels (x + 1) row hs)

IsBytes-slots :
    (channels : ℕ) (rows : List Bytes) → All IsBytes rows → IsBytes (slots channels rows)
unfolding slots
IsBytes-slots channels [] h = tt
IsBytes-slots channels (row ∷ rows) (h, hs) =
    All-append (λ v. v < 256) (row_slots channels 0 row) (slots channels rows)
      (IsBytes-row_slots channels 0 row h) (IsBytes-slots channels rows hs)

module _ (img : Image) (input : Bytes) (m : ℕ) (loaded : IsLoaded img) (bytes : IsBytes input)
    (within : m ≤ length input)
    (fits : length input * 8 ≤ length (slots img.channels img.rows)) where
  take_exact : length (take m input) ≡ m
  take_exact = omega (arith, length-take m input)

  flat_round_trip :
      (extract_flat
        (m * 8)
        (embed_flat (length input * 8) input (slots img.channels img.rows) 0)
        (replicate m 0, 0)).0
      ≡ take m input
  flat_round_trip = rw (sym (mask-zero (take m input) ∙ ap (λ (k : ℕ). replicate k 0) take_exact)) (
      extract_flat-embed_flat input (take m input) (length input * 8) (m * 8) (omega arith)
        (ap (λ (k : ℕ). k * 8) take_exact) (IsBytes-take m input bytes)
        (λ i lt. data_bit-take m i input lt) (slots img.channels img.rows) 0
        (IsBytes-slots img.channels img.rows loaded.row_bytes) (omega arith) (omega arith))

  rows_round_trip :
      (n total row_len : ℕ)
      → n ≡ length input * 8
      → total ≡ m * 8
      → row_len ≡ img.width * img.channels
      → (extract_rows img.channels total row_len img.height
          (embed_rows img.channels input n row_len img.height img.rows 0).0
          (replicate m 0, 0)).0
        ≡ take m input
  rows_round_trip n total row_len en et el =
      let sizes =
        subst (λ (k : ℕ). All (λ row. length row ≡ k) img.rows) (sym el) loaded.row_sizes in
      let shape =
        embed_rows-shape img.channels input n row_len img.height img.rows 0 sizes
          loaded.row_bytes in
      ap (λ (r : Bytes × ℕ). r.0)
        (extract_rows-flat total img.channels row_len img.height
          (embed_rows img.channels input n row_len img.height img.rows 0).0 (replicate m 0, 0)
          (shape.0 ∙ loaded.row_count) shape.1)
      ∙ ap (λ (s : Bytes). (extract_flat total s (replicate m 0, 0)).0)
          (embed_rows-flat n img.channels row_len input img.height img.rows 0 loaded.row_count
            sizes)
      ∙ rw (en, et) flat_round_trip

-- What `embed_bits` puts, as bytes, into a loaded image with room for it, `extract_bits` takes out of it again: any
-- prefix of the input, to the byte.
pub extract_bits-embed_bits :
    (img : Image) (input : Bytes) (m : ℕ)
    → IsLoaded img
    → IsBytes input
    → m ≤ length input
    → length input * 8 ≤ image_data_bit_capacity img
    → extract_bits (embed_bits img input) m ≡ take m input
unfolding extract_bits embed_bits
extract_bits-embed_bits img input m h b le fits =
    rows_round_trip img input m h b le (omega (arith, capacity-slots img h))
      (u64 (length input * 8)) (u64 (m * 8)) (u64 (img.width * img.channels)) (omega (arith, small))
      (omega (arith, small)) (row_len-exact img h)
  where
    small : image_data_bit_capacity img < 2 ^ 64
    small = capacity-lt img
