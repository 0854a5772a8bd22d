-- ===== src/Stego/Slots.antt =====
-- The pixel loops of src/server/stego.c seen flat: the bytes of an image that carry data, in the
-- order in which `embed_bits` and `extract_bits` visit them, and the loops over that list.
use pcd.Prelude.{
  ℕ, zero, suc, ◌+◌, ◌*◌, ◌%◌, ◌≡◌, refl, sym, ap, ap₂, arith, ◌∙◌, List, [], ◌∷◌, ◌++◌, Bytes, All,
  length, ltb, if◌then◌else◌, u8, bit_and,
}
use pcd.Stego.{
  is_data_channel, data_bit, put_bit, embed_row, embed_rows, collect_bit, extract_row, extract_rows,
}

-- The bytes of a row, from index `x` on, that are data channels.
unfoldable pub row_slots : ℕ → ℕ → Bytes → Bytes
row_slots channels x [] = []
row_slots channels x (v ∷ row) =
    let rest = row_slots channels (x + 1) row in
    if is_data_channel channels x then v ∷ rest else rest

unfoldable pub slots : ℕ → List Bytes → Bytes
slots channels [] = []
slots channels (row ∷ rows) = row_slots channels 0 row ++ slots channels rows

module _ (total_bits : ℕ) where
  unfoldable pub flat_end : Bytes → ℕ → ℕ
  flat_end [] k = k
  flat_end (v ∷ s) k = flat_end s (if ltb k total_bits then k + 1 else k)

  unfoldable pub embed_flat : Bytes → Bytes → ℕ → Bytes
  embed_flat input [] k = []
  embed_flat input (v ∷ s) k =
      (if ltb k total_bits then put_bit v (data_bit input k) else v)
      ∷ embed_flat input s (if ltb k total_bits then k + 1 else k)

  unfoldable pub extract_flat : Bytes → Bytes × ℕ → Bytes × ℕ
  extract_flat [] (output, k) = (output, k)
  extract_flat (v ∷ s) (output, k) =
      extract_flat s
        (if ltb k total_bits then (collect_bit output k (u8 (bit_and v 1)), k + 1) else (output, k))

  embed_flat-append :
      (input s t : Bytes) (k : ℕ)
      → embed_flat input (s ++ t) k ≡ embed_flat input s k ++ embed_flat input t (flat_end s k)
  unfolding embed_flat flat_end
  embed_flat-append input [] t k = refl
  embed_flat-append input (v ∷ s) t k =
      rw (embed_flat-append input s t (if ltb k total_bits then k + 1 else k))

  flat_end-append : (s t : Bytes) (k : ℕ) → flat_end (s ++ t) k ≡ flat_end t (flat_end s k)
  unfolding flat_end
  flat_end-append [] t k = refl
  flat_end-append (v ∷ s) t k = flat_end-append s t _

  extract_flat-append :
      (s t : Bytes) (st : Bytes × ℕ) → extract_flat (s ++ t) st ≡ extract_flat t (extract_flat s st)
  unfolding extract_flat
  extract_flat-append [] t (o, k) = refl
  extract_flat-append (v ∷ s) t (o, k) = extract_flat-append s t _

  module _ (channels : ℕ) where
    embed_row-flat :
        (input : Bytes) (left x : ℕ) (row : Bytes) (k : ℕ)
        → length row ≡ left
        → (row_slots channels x (embed_row channels input total_bits left x row k).0
            ≡ embed_flat input (row_slots channels x row) k)
          × ((embed_row channels input total_bits left x row k).1
              ≡ flat_end (row_slots channels x row) k)
    unfolding embed_row row_slots embed_flat flat_end
    embed_row-flat input zero x [] k h = (refl, refl)
    embed_row-flat input zero x (v ∷ row) k h = absurd (omega arith)
    embed_row-flat input (suc left) x [] k h = absurd (omega arith)
    embed_row-flat input (suc left) x (v ∷ row) k h =
        let e : length row ≡ left = omega arith in
        ground (
          arith,
          embed_row-flat input left (x + 1) row (k + 1) e,
          embed_row-flat input left (x + 1) row k e,
        )

    extract_row-flat :
        (left x : ℕ) (row : Bytes) (st : Bytes × ℕ)
        → length row ≡ left
        → extract_row channels total_bits left x row st ≡ extract_flat (row_slots channels x row) st
    unfolding extract_row row_slots extract_flat
    extract_row-flat zero x [] (o, k) h = refl
    extract_row-flat zero x (v ∷ row) (o, k) h = absurd (omega arith)
    extract_row-flat (suc left) x [] (o, k) h = absurd (omega arith)
    extract_row-flat (suc left) x (v ∷ row) (o, k) h =
        let e : length row ≡ left = omega arith in
        ground (
          arith,
          extract_row-flat left (x + 1) row (collect_bit o k (u8 (bit_and v 1)), k + 1) e,
          extract_row-flat left (x + 1) row (o, k) e,
        )

    module _ (row_len : ℕ) where
      pub embed_rows-flat :
          (input : Bytes) (left : ℕ) (rows : List Bytes) (k : ℕ)
          → length rows ≡ left
          → All (λ row. length row ≡ row_len) rows
          → slots channels (embed_rows channels input total_bits row_len left rows k).0
            ≡ embed_flat input (slots channels rows) k
      unfolding embed_rows slots embed_flat
      embed_rows-flat input zero [] k h a = refl
      embed_rows-flat input zero (row ∷ rows) k h a = absurd (omega arith)
      embed_rows-flat input (suc left) [] k h a = absurd (omega arith)
      embed_rows-flat input (suc left) (row ∷ rows) k h (a, rest_sizes) =
          let first = embed_row-flat input row_len 0 row k a in
          let next = (embed_row channels input total_bits row_len 0 row k).1 in
          let rest = embed_rows-flat input left rows next (omega arith) rest_sizes in
          ap₂ ◌++◌ first.0 (rest ∙ ap (embed_flat input (slots channels rows)) first.1)
          ∙ sym (embed_flat-append input (row_slots channels 0 row) (slots channels rows) k)

      pub extract_rows-flat :
          (left : ℕ) (rows : List Bytes) (st : Bytes × ℕ)
          → length rows ≡ left
          → All (λ row. length row ≡ row_len) rows
          → extract_rows channels total_bits row_len left rows st
            ≡ extract_flat (slots channels rows) st
      unfolding extract_rows slots extract_flat
      extract_rows-flat zero [] (o, k) h a = refl
      extract_rows-flat zero (row ∷ rows) st h a = absurd (omega arith)
      extract_rows-flat (suc left) [] st h a = absurd (omega arith)
      extract_rows-flat (suc left) (row ∷ rows) st h (a, rest_sizes) =
          extract_rows-flat left rows _ (omega arith) rest_sizes
          ∙ ap (extract_flat (slots channels rows)) (extract_row-flat row_len 0 row st a)
          ∙ sym (extract_flat-append (row_slots channels 0 row) (slots channels rows) st)

-- The number of data bytes: three of four under RGBA, all under RGB.
pub length-row_slots-rgb : (x : ℕ) (row : Bytes) → length (row_slots 3 x row) ≡ length row
unfolding row_slots is_data_channel
length-row_slots-rgb x [] = refl
length-row_slots-rgb x (v ∷ row) = omega (arith, length-row_slots-rgb (x + 1) row)

pub length-row_slots-rgba :
    (w x : ℕ) (row : Bytes) → length row ≡ w * 4 → x % 4 ≡ 0 → length (row_slots 4 x row) ≡ w * 3
unfolding row_slots is_data_channel
length-row_slots-rgba zero x [] h e = refl
length-row_slots-rgba zero x (v ∷ row) h e = absurd (omega arith)
length-row_slots-rgba (suc w) x (a ∷ b ∷ c ∷ d ∷ row) h e =
    ground (arith, length-row_slots-rgba w (x + 1 + 1 + 1 + 1) row)
length-row_slots-rgba (suc w) x _ h e = absurd (omega arith)
