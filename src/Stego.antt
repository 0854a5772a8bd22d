-- ===== src/Stego.antt =====
-- src/server/stego.c: least-significant-bit steganography on a loaded image. This file has the
-- data (`png_image_buf_t`, the status codes) and the loops over pixels; the children have the
-- checksum, the container, the encoder and decoder, and the proofs.
pub mod Pixels
pub mod Slots
pub mod Shape
pub mod Embedding
pub mod Invisible
pub mod Crc
pub mod Container
pub mod Png
pub mod Codec
pub mod Toy
mod Examples
use pcd.Prelude.{
  ℕ, zero, suc, ◌+◌, ◌*◌, ◌/◌, ◌%◌, ◌^◌, ◌<◌, ◌≡◌, ◌⊎◌, Bool, true, false, not, ◌&&◌, List, [], ◌∷◌,
  Bytes, All, length, get_or, set, replicate, ltb, ◌==◌, if◌then◌else◌, bit_and, bit_or, ◌<<<◌,
  ◌>>>◌, u8, u64,
}

-- `stego_status_t` but for STEGO_OK, which is the `ok` of a result.
pub data Status : Type 0 where
  err_open err_not_png err_unsupported err_memory err_capacity err_libpng : Status
  err_magic err_crc err_io err_arg : Status

pub data Result {ℓ} (A : Type ℓ) : Type ℓ where
  ok : A → Result A
  err : Status → Result A

infixl 5 ◌>>=◌
abbrev pub ◌>>=◌ {ℓ κ} : {X : Type ℓ} {Y : Type κ} → Result X → (X → Result Y) → Result Y
err status >>= next = err status
ok x >>= next = next x

infixl 5 ◌>>◌
abbrev pub ◌>>◌ {κ} : {Y : Type κ} → Result (Unit {0}) → Result Y → Result Y
checked >> result = checked >>= λ done. result

-- `if (!test) return status;`
abbrev pub require : Bool → Status → Result (Unit {0})
require true status = ok tt
require false status = err status

-- The colour types of libpng.
pub data ColorType : Type 0 where
  gray palette rgb rgb_alpha gray_alpha : ColorType
  other_type : ℕ → ColorType

-- `png_image_buf_t`: `rows` holds `height` arrays of `width * channels` bytes.
pub record Image : Type 0 where
  pub width : ℕ
  pub height : ℕ
  pub bit_depth : ℕ
  pub color_type : ColorType
  pub channels : ℕ
  pub rows : List Bytes

-- What `png_load_rgb_or_rgba` returns: RGB or RGBA at 8 bits, rows of the stated size. libpng
-- refuses a side above 1,000,000, so a row index fits `int` and all the sizes fit `size_t`.
pub record IsLoaded (img : Image) : Type 0 where
  pub rgb_or_rgba : (img.channels ≡ 3) ⊎ (img.channels ≡ 4)
  pub row_count : length img.rows ≡ img.height
  pub row_sizes : All (λ row. length row ≡ img.width * img.channels) img.rows
  pub row_bytes : All (All (λ v. v < 256)) img.rows
  pub width_fits : img.width < 2 ^ 29
  pub height_fits : img.height < 2 ^ 32

unfoldable pub data_channels : Image → ℕ
data_channels img = if img.channels == 4 then 3 else img.channels

unfoldable pub image_data_bit_capacity : Image → ℕ
unfolding data_channels
image_data_bit_capacity img =
    let pixels = u64 (img.width * img.height) in u64 (pixels * data_channels img)

-- `ch_index` is an index into a row, not negative.
pub is_data_channel : ℕ → ℕ → Bool
is_data_channel channels ch_index = not ((channels == 4) && (ch_index % 4 == 3))

-- Bit `bit_index` of the data, the lowest bit of a byte first.
pub data_bit : Bytes → ℕ → ℕ
data_bit input bit_index = u8 (bit_and (get_or input (bit_index / 8) 0 >>> (bit_index % 8)) 1)

pub put_bit : ℕ → ℕ → ℕ
put_bit v bit = u8 (bit_or (bit_and v 0xFE) bit)

-- The inner loop of `embed_bits` with `left` indices to go; a row too short is not written beyond
-- its end. The result is the row and `bit_index`.
pub embed_row : ℕ → Bytes → ℕ → ℕ → ℕ → Bytes → ℕ → Bytes × ℕ
embed_row channels input total_bits zero x row bit_index = (row, bit_index)
embed_row channels input total_bits (suc left) x [] bit_index = ([], bit_index)
embed_row channels input total_bits (suc left) x (v ∷ row) bit_index =
    let used = ltb bit_index total_bits && is_data_channel channels x in
    let v' = if used then put_bit v (data_bit input bit_index) else v in
    let (row', bit_index') =
      embed_row channels input total_bits left (x + 1) row
        (if used then bit_index + 1 else bit_index) in
    (v' ∷ row', bit_index')

-- The outer loop of `embed_bits`, with `left` rows to go.
pub embed_rows : ℕ → Bytes → ℕ → ℕ → ℕ → List Bytes → ℕ → List Bytes × ℕ
embed_rows channels input total_bits row_len zero rows bit_index = (rows, bit_index)
embed_rows channels input total_bits row_len (suc left) [] bit_index = ([], bit_index)
embed_rows channels input total_bits row_len (suc left) (row ∷ rows) bit_index =
    let (row', bit_index') = embed_row channels input total_bits row_len 0 row bit_index in
    let (rows', end) = embed_rows channels input total_bits row_len left rows bit_index' in
    (row' ∷ rows', end)

unfoldable pub embed_bits : Image → Bytes → Image
embed_bits img input = record img {
  rows =
      (embed_rows img.channels input (u64 (length input * 8)) (u64 (img.width * img.channels))
        img.height img.rows 0).0;
}

-- `data[bit_index / 8] |= bit << (bit_index % 8)`.
pub collect_bit : Bytes → ℕ → ℕ → Bytes
collect_bit output bit_index bit =
    set output (bit_index / 8)
      (u8 (bit_or (get_or output (bit_index / 8) 0) (u8 (bit <<< (bit_index % 8)))))

pub extract_row : ℕ → ℕ → ℕ → ℕ → Bytes → Bytes × ℕ → Bytes × ℕ
extract_row channels total_bits zero x row (output, bit_index) = (output, bit_index)
extract_row channels total_bits (suc left) x [] (output, bit_index) = (output, bit_index)
extract_row channels total_bits (suc left) x (v ∷ row) (output, bit_index) =
    extract_row channels total_bits left (x + 1) row (
      if ltb bit_index total_bits && is_data_channel channels x
      then (collect_bit output bit_index (u8 (bit_and v 1)), bit_index + 1)
      else (output, bit_index))

pub extract_rows : ℕ → ℕ → ℕ → ℕ → List Bytes → Bytes × ℕ → Bytes × ℕ
extract_rows channels total_bits row_len zero rows s = s
extract_rows channels total_bits row_len (suc left) [] s = s
extract_rows channels total_bits row_len (suc left) (row ∷ rows) s =
    extract_rows channels total_bits row_len left rows
      (extract_row channels total_bits row_len 0 row s)

pub extract_bits : Image → ℕ → Bytes
extract_bits img len_bytes =
    (extract_rows img.channels (u64 (len_bytes * 8)) (u64 (img.width * img.channels)) img.height
      img.rows (replicate len_bytes 0, 0)).0
