-- ===== src/Stego/Codec.antt =====
-- The public functions of src/server/stego.c: capacity, encoding of a text or a file, decoding.
-- Pointers that a caller might pass as null are not modelled, but for the file name.
pub mod Parts
pub mod RoundTrip
pub mod Loading
pub mod Transfer
pub mod Fits
use pcd.Prelude.{
  ℕ, ◌+◌, ◌-◌, ◌*◌, ◌/◌, ◌≤◌, ◌<◌, ◌≡◌, Bool, not, ◌||◌, ◌&&◌, Option, none, some, List, [], ◌∷◌,
  ◌++◌, Bytes, bytes_eq, codes, length, get_or, take, drop, ltb, leb, ◌==◌, if◌then◌else◌, u64,
}
use pcd.Stego.{
  Image, Result, ok, err, ◌>>=◌, ◌>>◌, require, Status, err_open, err_not_png, err_unsupported,
  err_memory, err_capacity, err_libpng, err_magic, err_crc, err_io, err_arg,
  image_data_bit_capacity, data_channels, embed_bits, extract_bits,
}
use pcd.Stego.Crc.{stego_crc32}
use pcd.Stego.Container.{
  PayloadType, text, file, stego_magic, stego_header_min_len, build_container, read_be16, read_be32,
}
use pcd.Stego.Png.{Platform, Files, or_fail, png_load_rgb_or_rgba, png_save_rgb_or_rgba}

pub stego_strerror : Status → Bytes
stego_strerror err_open = codes "cannot open file"
stego_strerror err_not_png = codes "not a valid PNG"
stego_strerror err_unsupported = codes "unsupported PNG format"
stego_strerror err_memory = codes "memory allocation failed"
stego_strerror err_capacity = codes "payload exceeds image capacity"
stego_strerror err_libpng = codes "libpng internal error"
stego_strerror err_magic = codes "no steganography payload found"
stego_strerror err_crc = codes "payload integrity check failed"
stego_strerror err_io = codes "I/O error"
stego_strerror err_arg = codes "invalid argument"

-- `stego_capacity_t`.
pub record Capacity : Type 0 where
  pub payload_max_bytes : ℕ
  pub width : ℕ
  pub height : ℕ
  pub channels : ℕ
  pub data_channels : ℕ

-- `stego_extracted_t`: the file name is what is copied before the terminator is written.
pub record Extracted : Type 0 where
  pub kind : PayloadType
  pub filename : Bytes
  pub payload : Bytes

-- `strrchr(path, '/')`: the part behind the last slash, or the whole path.
unfoldable pub basename_from : Bytes → Bytes → Bytes
basename_from base [] = base
basename_from base (ch ∷ rest) = basename_from (if ch == b'/' then rest else base) rest

-- What `stego_get_capacity` computes of a loaded image.
unfoldable pub payload_max_bytes : Image → ℕ
payload_max_bytes img =
    let total_bytes = image_data_bit_capacity img / 8 in
    if ltb stego_header_min_len total_bytes then total_bytes - stego_header_min_len else 0

-- The part of `encode_common` between loading and saving.
unfoldable pub encode_image : (ℕ → Bool) → PayloadType → Option Bytes → Bytes → Image → Result Image
encode_image malloc_ok kind filename payload img = do
  container ← or_fail (build_container malloc_ok kind filename payload) err_memory
  require (not (ltb (image_data_bit_capacity img) (u64 (length container * 8)))) err_capacity
  ok (embed_bits img container)

unfoldable pub payload_type : ℕ → Result PayloadType
payload_type byte = if byte == 0 then ok text else if byte == 1 then ok file else err err_magic

abbrev pub avail_bytes : Image → ℕ
avail_bytes img = image_data_bit_capacity img / 8

module _ (malloc_ok : ℕ → Bool) (img : Image) where
  -- `stego_decode` once the payload's length is known: the whole container and its checksum.
  unfoldable pub decode_container : PayloadType → ℕ → ℕ → Result Extracted
  decode_container kind fn_len payload_len = do
    let container_len = 7 + fn_len + 4 + payload_len + 4
    require (not (ltb (avail_bytes img) container_len)) err_magic
    require (malloc_ok container_len) err_memory
    let buf = extract_bits img container_len
    let stored_crc = read_be32 (drop (container_len - 4) buf)
    let calc_crc = stego_crc32 (take (container_len - 4) buf)
    require (stored_crc == calc_crc) err_crc
    require (payload_len == 0 || malloc_ok payload_len) err_memory
    ok (record {
      kind = kind;
      filename = take (if ltb fn_len 255 then fn_len else 255) (drop 7 buf);
      payload = take payload_len (drop (7 + fn_len + 4) buf);
    })

  -- `stego_decode` once the name's length is known: the payload's length stands behind the name.
  unfoldable pub decode_sized : PayloadType → ℕ → Result Extracted
  decode_sized kind fn_len = do
    let total_needed = 7 + fn_len + 4
    require (not (ltb (avail_bytes img) total_needed)) err_magic
    require (malloc_ok total_needed) err_memory
    let probe = extract_bits img total_needed
    decode_container kind fn_len (read_be32 (drop (7 + fn_len) probe))

  -- `stego_decode` of a loaded image: the magic, the type, and the name's length.
  unfoldable pub decode_image : Result Extracted
  decode_image = do
    require (not (ltb (avail_bytes img) stego_header_min_len)) err_magic
    let header = extract_bits img 7
    require (bytes_eq (take 4 header) stego_magic) err_magic
    kind ← payload_type (get_or header 4 0)
    decode_sized kind (read_be16 (drop 5 header))

module _ (c : Platform) where
  unfoldable pub stego_get_capacity : Files → Bytes → Result Capacity
  unfolding payload_max_bytes
  stego_get_capacity files png_path = do
    img ← png_load_rgb_or_rgba c files png_path
    ok (record {
      payload_max_bytes = payload_max_bytes img;
      width = img.width;
      height = img.height;
      channels = img.channels;
      data_channels = data_channels img;
    })

  -- Files are written only by the last step.
  unfoldable pub encode_common :
      Files → Bytes → Bytes → PayloadType → Option Bytes → Bytes → Result (Unit {0}) × Files
  encode_common files input_path output_path kind filename payload =
      elim (png_load_rgb_or_rgba c files input_path
        >>= encode_image c.malloc_ok kind filename payload) [
          | err e ↦ (err e, files)
          | ok img ↦ png_save_rgb_or_rgba c files output_path img
        ]

  unfoldable pub stego_encode_text : Files → Bytes → Bytes → Bytes → Result (Unit {0}) × Files
  stego_encode_text files input_path output_path payload =
      encode_common files input_path output_path text none payload

  -- Reading the payload file: `fseek` and `ftell`, the allocation, and `fread`.
  unfoldable pub read_payload : Files → Bytes → Result Bytes
  read_payload files path = do
    contents ← or_fail (files path) err_open
    require (c.can_seek path) err_io
    require (length contents == 0 || c.malloc_ok (length contents)) err_memory
    require (length contents == 0 || c.can_read path) err_io
    ok contents

  unfoldable pub stego_encode_file :
      Files → Bytes → Bytes → Bytes → Option Bytes → Result (Unit {0}) × Files
  stego_encode_file files input_path output_path payload_path store_as =
      elim (read_payload files payload_path) [
        | err e ↦ (err e, files)
        | ok contents ↦
            let name : Bytes = elim store_as [
              | some name ↦ name
              | none ↦ basename_from payload_path payload_path
            ] in
            encode_common files input_path output_path file (some name) contents
      ]

  unfoldable pub stego_decode : Files → Bytes → Result Extracted
  stego_decode files png_path = do
    img ← png_load_rgb_or_rgba c files png_path
    decode_image c.malloc_ok img
