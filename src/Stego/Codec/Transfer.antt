-- ===== src/Stego/Codec/Transfer.antt =====
-- Encoding and decoding through files, for src/server/stego.c: the whole way from a text or a file
-- to what is decoded.
use pcd.Prelude.{
  bytes_eq_refl, ℕ, ◌*◌, ◌^◌, ◌<◌, ◌≡◌, refl, sym, ap, subst, ◌∙◌, arith, ◌⊎◌, inl, inr, Bool, true,
  ◌||◌, Option, none, some, [], Bytes, length, take, take_all, ltb, leb, ◌==◌, Bool-cases,
  Option-cases, u64,
}
use pcd.Stego.{
  Image, IsLoaded, Status, Result, ok, err, image_data_bit_capacity, data_channels, extract_bits,
  embed_bits,
}
use pcd.Stego.Pixels.{IsBytes}
use pcd.Stego.Shape.{embed_bits-IsLoaded}
use pcd.Stego.Embedding.{IsBytes-take}
use pcd.Stego.Container.{PayloadType, text, file, stored_name, build_container}
use pcd.Stego.Png.{
  Platform, Files, transforms, load_pixels, png_load_rgb_or_rgba, png_save_rgb_or_rgba, update_file,
}
use pcd.Stego.Codec.{
  encode_image, decode_image, decode_sized, decode_container, encode_common, stego_encode_text,
  stego_encode_file, read_payload, stego_decode,
}
use pcd.Stego.Codec.RoundTrip.{decode_image-encode_image}
use pcd.Stego.Codec.Loading.{
  saved_type, saved_info, ReadsBack, IsLibpng, HasMemory, png_load-IsLoaded,
}

save_cases :
    (c : Platform) (files files' : Files) (path : Bytes) (img : Image)
    → png_save_rgb_or_rgba c files path img ≡ (ok tt, files')
    → (png : Bytes) × (c.write_image img.width img.height (saved_type img) img.rows ≡ some png)
      × (update_file files path (some png) ≡ files')
unfolding png_save_rgb_or_rgba
save_cases c files files' path img e =
    elim (Option-cases (c.write_image img.width img.height (saved_type img) img.rows)) [
      | inl failed ↦ absurd (ground arith)
      | inr (png, written) ↦ (png, written, ground arith)
    ]

-- The image as it is read back.
abbrev as_saved : Image → Image
as_saved img = record img { bit_depth = 8; color_type = saved_type img }

transforms-saved_info : (img : Image) → transforms (saved_info img) ≡ []
unfolding transforms
transforms-saved_info img = elim (Bool-cases (img.channels == 4)) [
  | inl four ↦ rw four
  | inr three ↦ rw three
]

load_pixels_saved :
    (c : Platform) (img : Image) (png : Bytes)
    → HasMemory c
    → IsLoaded img
    → ReadsBack c img png
    → load_pixels c png (saved_info img) ≡ ok (as_saved img)
unfolding load_pixels
load_pixels_saved c img png memory loaded back = rw (
  transforms-saved_info img,
  back.format,
  back.rows,
  supported,
  memory.allocates (u64 (img.height * 8)),
  row_memory,
)
  where
    supported : ((img.channels == 3) || (img.channels == 4)) ≡ true
    supported = ground (arith, loaded.rgb_or_rgba)

    row_memory : ((img.height == 0) || c.malloc_ok (img.width * img.channels)) ≡ true
    row_memory = ground (arith, memory.allocates (img.width * img.channels))

load_saved :
    (c : Platform) (files : Files) (path : Bytes) (img : Image) (png : Bytes)
    → HasMemory c
    → IsLoaded img
    → ReadsBack c img png
    → png_load_rgb_or_rgba c (update_file files path (some png)) path ≡ ok (as_saved img)
unfolding png_load_rgb_or_rgba update_file
load_saved c files path img png memory loaded back =
    simp
      (
        bytes_eq_refl path,
        long,
        back.signed,
        memory.read_struct,
        memory.read_info_struct,
        back.info,
      )
      (load_pixels_saved c img png memory loaded back)
  where
    long : leb 8 (length png) ≡ true
    long = ground (arith, back.long)

decode_image-as_saved :
    (malloc_ok : ℕ → Bool) (img : Image)
    → decode_image malloc_ok (as_saved img) ≡ decode_image malloc_ok img
unfolding decode_image decode_sized decode_container image_data_bit_capacity extract_bits
    data_channels
decode_image-as_saved malloc_ok img = refl

pub Result-cases {ℓ} :
    {A : Type ℓ} (r : Result A) → ((a : A) × (r ≡ ok a)) ⊎ ((e : Status) × (r ≡ err e))
Result-cases (ok a) = inl (a, refl)
Result-cases (err e) = inr (e, refl)

encode_common_cases :
    (c : Platform) (files files' : Files) (input_path output_path : Bytes) (kind : PayloadType)
    (filename : Option Bytes) (payload : Bytes)
    → encode_common c files input_path output_path kind filename payload ≡ (ok tt, files')
    → (img img' : Image) × (png_load_rgb_or_rgba c files input_path ≡ ok img)
      × (encode_image c.malloc_ok kind filename payload img ≡ ok img')
      × (png_save_rgb_or_rgba c files output_path img' ≡ (ok tt, files'))
unfolding encode_common
encode_common_cases c files files' input_path output_path kind filename payload e =
    elim (Result-cases (png_load_rgb_or_rgba c files input_path)) [
      | inr (bad, unloaded) ↦ absurd (ground arith)
      | inl (img, loaded) ↦
          elim (Result-cases (encode_image c.malloc_ok kind filename payload img)) [
            | inr (bad, unencoded) ↦ absurd (ground arith)
            | inl (img', encoded) ↦ (img, img', loaded, encoded, ground arith)
          ]
    ]

encode_image-IsLoaded :
    (malloc_ok : ℕ → Bool) (kind : PayloadType) (filename : Option Bytes) (payload : Bytes)
    (img img' : Image)
    → IsLoaded img
    → encode_image malloc_ok kind filename payload img ≡ ok img'
    → IsLoaded img'
unfolding encode_image
encode_image-IsLoaded malloc_ok kind filename payload img img' loaded e =
    elim (Option-cases (build_container malloc_ok kind filename payload)) [
      | inl failed ↦ absurd (ground arith)
      | inr (container, built) ↦
          let same : embed_bits img container ≡ img' = ground arith in
          subst IsLoaded same (embed_bits-IsLoaded img container loaded)
    ]

-- One run of the encoder and of the decoder, through a file: what `encode_common` wrote to the
-- output path is decoded from there.
pub stego_decode-encode_common :
    (c : Platform) (files files' : Files) (input_path output_path : Bytes) (kind : PayloadType)
    (filename : Option Bytes) (payload : Bytes)
    → IsLibpng c
    → HasMemory c
    → IsBytes (stored_name kind filename)
    → IsBytes payload
    → length payload < 2 ^ 32
    → encode_common c files input_path output_path kind filename payload ≡ (ok tt, files')
    → stego_decode c files' output_path
      ≡ ok (record { kind = kind; filename = stored_name kind filename; payload = payload })
unfolding stego_decode
stego_decode-encode_common c files files' input_path output_path kind filename payload lib memory nb
      pb fits e =
    let (img, img', load, encode, save) =
      encode_common_cases c files files' input_path output_path kind filename payload e in
    let loaded = png_load-IsLoaded c files input_path img lib load in
    let loaded' = encode_image-IsLoaded c.malloc_ok kind filename payload img img' loaded encode in
    let (png, written, stored) = save_cases c files files' output_path img' save in
    let back = lib.lossless img' png loaded' written in
    rw (← stored, load_saved c files output_path img' png memory loaded' back)
      (decode_image-as_saved c.malloc_ok img'
        ∙ decode_image-encode_image c.malloc_ok kind filename payload img img' memory.allocates
            loaded nb pb fits encode)

-- A text hidden by `stego_encode_text` is what `stego_decode` finds in the written file, over any
-- libpng that is lossless and with memory at hand, when it is shorter than 2 ^ 32 bytes: the same
-- bytes, and no name.
pub stego_decode-encode_text :
    (c : Platform) (files files' : Files) (input_path output_path payload : Bytes)
    → IsLibpng c
    → HasMemory c
    → IsBytes payload
    → length payload < 2 ^ 32
    → stego_encode_text c files input_path output_path payload ≡ (ok tt, files')
    → stego_decode c files' output_path
      ≡ ok (record { kind = text; filename = []; payload = payload })
unfolding stego_encode_text stored_name
stego_decode-encode_text c files files' input_path output_path payload lib memory bytes fits e =
    stego_decode-encode_common c files files' input_path output_path text none payload lib memory tt
      bytes fits e

stored_name-file : (name : Bytes) → stored_name file (some name) ≡ take 255 name
unfolding stored_name
stored_name-file name = elim (Bool-cases (ltb 255 (length name))) [
  | inl long ↦ rw long
  | inr short ↦ rw short (sym (take_all 255 name (ground arith)))
]

read_payload_contents :
    (c : Platform) (files : Files) (path contents found : Bytes)
    → files path ≡ some contents
    → read_payload c files path ≡ ok found
    → contents ≡ found
unfolding read_payload
read_payload_contents c files path contents found e h = ground arith

encode_file_cases :
    (c : Platform) (files files' : Files)
    (input_path output_path payload_path name contents : Bytes)
    → files payload_path ≡ some contents
    → stego_encode_file c files input_path output_path payload_path (some name) ≡ (ok tt, files')
    → encode_common c files input_path output_path file (some name) contents ≡ (ok tt, files')
unfolding stego_encode_file
encode_file_cases c files files' input_path output_path payload_path name contents found e =
    elim (Result-cases (read_payload c files payload_path)) [
      | inr (bad, unread) ↦ absurd (ground arith)
      | inl (read, same) ↦
          rw (read_payload_contents c files payload_path contents read found same) (ground arith)
    ]

-- A file hidden by `stego_encode_file` under a given name comes back whole from the written file,
-- with its name cut at 255 bytes, over any libpng that is lossless and with memory at hand, when
-- it is shorter than 2 ^ 32 bytes.
pub stego_decode-encode_file :
    (c : Platform) (files files' : Files)
    (input_path output_path payload_path name contents : Bytes)
    → IsLibpng c
    → HasMemory c
    → IsBytes name
    → IsBytes contents
    → length contents < 2 ^ 32
    → files payload_path ≡ some contents
    → stego_encode_file c files input_path output_path payload_path (some name) ≡ (ok tt, files')
    → stego_decode c files' output_path
      ≡ ok (record { kind = file; filename = take 255 name; payload = contents })
stego_decode-encode_file c files files' input_path output_path payload_path name contents lib memory
      nb cb fits found e =
    stego_decode-encode_common c files files' input_path output_path file (some name) contents lib
      memory (subst IsBytes (sym (stored_name-file name)) (IsBytes-take 255 name nb)) cb fits
      (encode_file_cases c files files' input_path output_path payload_path name contents found e)
    ∙ ap (λ (n : Bytes). ok (record { kind = file; filename = n; payload = contents }))
        (stored_name-file name)
