-- ===== src/Stego/Invisible.antt =====
-- What `embed_bits` of src/server/stego.c leaves as it was.
use pcd.Prelude.{
  true, Bool, ℕ, zero, suc, ◌+◌, ◌*◌, ◌/◌, ◌<◌, ◌≡◌, refl, arith, ◌&&◌, ◌||◌, ◌==◌, List, [], ◌∷◌,
  Bytes, All, length, ltb, u64, Bool-cases, inl, inr,
}
use pcd.Stego.{
  Image, IsLoaded, is_data_channel, data_bit, put_bit, embed_row, embed_rows, embed_bits,
}
use pcd.Stego.Pixels.{IsBytes, put_bit_lem}
use pcd.Stego.Shape.{data_bit-lt}

-- From index `x` of a row on: every byte but for its lowest bit, and every byte of an alpha channel,
-- is the same.
unfoldable pub RowUnchanged : ℕ → ℕ → Bytes → Bytes → Type 0
RowUnchanged channels x [] [] = Unit
RowUnchanged channels x [] (w ∷ after) = ⊥
RowUnchanged channels x (v ∷ before) [] = ⊥
RowUnchanged channels x (v ∷ before) (w ∷ after) =
    (w / 2 ≡ v / 2)
    × ((is_data_channel channels x || (w == v)) ≡ true)
    × RowUnchanged channels (x + 1) before after

unfoldable pub RowsUnchanged : ℕ → List Bytes → List Bytes → Type 0
RowsUnchanged channels [] [] = Unit
RowsUnchanged channels [] (row ∷ after) = ⊥
RowsUnchanged channels (row ∷ before) [] = ⊥
RowsUnchanged channels (row ∷ before) (row' ∷ after) =
    RowUnchanged channels 0 row row' × RowsUnchanged channels before after

half-put_bit : (v k : ℕ) (input : Bytes) → v < 256 → put_bit v (data_bit input k) / 2 ≡ v / 2
half-put_bit v k input h = omega (arith, put_bit_lem v (data_bit input k) h bit, bit)
  where
    bit : data_bit input k < 2
    bit = data_bit-lt input k

same_byte : (b : Bool) (v : ℕ) → (b || (v == v)) ≡ true
same_byte b v = ground arith

RowUnchanged-same : (channels x : ℕ) (row : Bytes) → RowUnchanged channels x row row
unfolding RowUnchanged
RowUnchanged-same channels x [] = tt
RowUnchanged-same channels x (v ∷ row) =
    (refl, same_byte (is_data_channel channels x) v, RowUnchanged-same channels (x + 1) row)

RowsUnchanged-same : (channels : ℕ) (rows : List Bytes) → RowsUnchanged channels rows rows
unfolding RowsUnchanged
RowsUnchanged-same channels [] = tt
RowsUnchanged-same channels (row ∷ rows) =
    (RowUnchanged-same channels 0 row, RowsUnchanged-same channels rows)

module _ (channels : ℕ) (input : Bytes) (total : ℕ) where
  RowUnchanged-embed_row :
      (left x : ℕ) (row : Bytes) (k : ℕ)
      → IsBytes row
      → RowUnchanged channels x row (embed_row channels input total left x row k).0
  unfolding RowUnchanged embed_row
  RowUnchanged-embed_row zero x row k h = RowUnchanged-same channels x row
  RowUnchanged-embed_row (suc left) x [] k h = tt
  RowUnchanged-embed_row (suc left) x (v ∷ row) k (h, hs) =
      elim (Bool-cases (ltb k total && is_data_channel channels x)) [
        | inl used ↦ rw used (
          half-put_bit v k input h,
          ground arith,
          RowUnchanged-embed_row left (x + 1) row (k + 1) hs,
        )
        | inr unused ↦ rw unused (
          refl,
          same_byte (is_data_channel channels x) v,
          RowUnchanged-embed_row left (x + 1) row k hs,
        )
      ]

  RowsUnchanged-embed_rows :
      (row_len left : ℕ) (rows : List Bytes) (k : ℕ)
      → All IsBytes rows
      → RowsUnchanged channels rows (embed_rows channels input total row_len left rows k).0
  unfolding RowsUnchanged embed_rows
  RowsUnchanged-embed_rows row_len zero rows k h = RowsUnchanged-same channels rows
  RowsUnchanged-embed_rows row_len (suc left) [] k h = tt
  RowsUnchanged-embed_rows row_len (suc left) (row ∷ rows) k (h, hs) = (
    RowUnchanged-embed_row row_len 0 row k h,
    RowsUnchanged-embed_rows row_len left rows (embed_row channels input total row_len 0 row k).1
        hs,
  )

-- Hiding data changes nothing but the lowest bit of a byte of a data channel: the number and the
-- sizes of the rows, the seven upper bits of every byte, and the whole alpha channel stay.
pub embed_bits-RowsUnchanged :
    (img : Image) (input : Bytes)
    → IsLoaded img
    → RowsUnchanged img.channels img.rows (embed_bits img input).rows
unfolding embed_bits
embed_bits-RowsUnchanged img input loaded =
    RowsUnchanged-embed_rows img.channels input (u64 (length input * 8))
      (u64 (img.width * img.channels)) img.height img.rows 0 loaded.row_bytes
