-- ===== src/Stego/Codec/RoundTrip.antt =====
-- Decoding what was encoded, for src/server/stego.c.
use pcd.Prelude.{
  ℕ, ◌*◌, ◌%◌, ◌^◌, ◌≤◌, ◌<◌, ◌≡◌, sym, subst, arith, Bool, true, Option, none, some, ◌++◌, Bytes,
  All-append, length, length-take, ltb, Bool-cases, inl, inr,
}
use pcd.Stego.{Image, IsLoaded, ok, image_data_bit_capacity, embed_bits}
use pcd.Stego.Pixels.{IsBytes}
use pcd.Stego.Shape.{image_data_bit_capacity-embed_bits}
use pcd.Stego.Embedding.{extract_bits-embed_bits}
use pcd.Stego.Container.{
  PayloadType, text, file, stored_name, build_container, write_be16, write_be32,
}
use pcd.Stego.Codec.{encode_image, decode_image}
use pcd.Stego.Codec.Parts.{
  body, crc, container, header, size_word, body_parts, length-container, decode_image_lem,
}

length-stored_name :
    (kind : PayloadType) (filename : Option Bytes) → length (stored_name kind filename) ≤ 255
unfolding stored_name
length-stored_name text filename = omega arith
length-stored_name file none = omega arith
length-stored_name file (some name) = elim (Bool-cases (ltb 255 (length name))) [
  | inl long ↦ rw long (omega (arith, length-take 255 name))
  | inr short ↦ rw short (ground arith)
]

header-IsBytes : (kind : PayloadType) (name payload : Bytes) → IsBytes (header kind name payload)
unfolding header write_be16
header-IsBytes text name payload = omega arith
header-IsBytes file name payload = omega arith

module _ (kind : PayloadType) (name payload : Bytes) where
  size_word-IsBytes : IsBytes (size_word kind name payload)
  unfolding size_word write_be32
  size_word-IsBytes = omega arith

  crc-IsBytes : IsBytes (crc kind name payload)
  unfolding crc write_be32
  crc-IsBytes = omega arith

  body-IsBytes : IsBytes name → IsBytes payload → IsBytes (body kind name payload)
  body-IsBytes n p = subst IsBytes (sym (body_parts kind name payload)) (
      All-append (λ b. b < 256) (header kind name payload ++ name)
        (size_word kind name payload ++ payload)
        (All-append (λ b. b < 256) (header kind name payload) name header_bytes n)
        (All-append (λ b. b < 256) (size_word kind name payload) payload word_bytes p))
    where
      header_bytes : IsBytes (header kind name payload)
      header_bytes = header-IsBytes kind name payload

      word_bytes : IsBytes (size_word kind name payload)
      word_bytes = size_word-IsBytes

  container-IsBytes : IsBytes name → IsBytes payload → IsBytes (container kind name payload)
  unfolding container
  container-IsBytes n p =
      All-append (λ b. b < 256) (body kind name payload) (crc kind name payload) (body-IsBytes n p)
        crc-IsBytes

module _ (malloc_ok : ℕ → Bool) (allocates : (n : ℕ) → malloc_ok n ≡ true) (kind : PayloadType)
    (filename : Option Bytes) (payload : Bytes) where
  pub build_container_lem :
      build_container malloc_ok kind filename payload
      ≡ some (container kind (stored_name kind filename) payload)
  unfolding build_container container crc body
  build_container_lem = rw (allocates _)

  encode_image_cases :
      (img img' : Image)
      → encode_image malloc_ok kind filename payload img ≡ ok img'
      → (length (container kind (stored_name kind filename) payload) * 8 % 2 ^ 64
          ≤ image_data_bit_capacity img)
        × (embed_bits img (container kind (stored_name kind filename) payload) ≡ img')
  unfolding encode_image
  encode_image_cases img img' e = ground (arith, build_container_lem)

-- A loaded image that went through `encode_image` decodes to the payload, when every allocation
-- succeeds and the payload has less than 2 ^ 32 bytes: the type and the bytes come back, and the
-- name cut at 255 bytes.
pub decode_image-encode_image :
    (malloc_ok : ℕ → Bool) (kind : PayloadType) (filename : Option Bytes) (payload : Bytes)
    (img img' : Image)
    → ((n : ℕ) → malloc_ok n ≡ true)
    → IsLoaded img
    → IsBytes (stored_name kind filename)
    → IsBytes payload
    → length payload < 2 ^ 32
    → encode_image malloc_ok kind filename payload img ≡ ok img'
    → decode_image malloc_ok img'
      ≡ ok (record { kind = kind; filename = stored_name kind filename; payload = payload })
decode_image-encode_image malloc_ok kind filename payload img img' allocates loaded nb pb fits e =
    let name = stored_name kind filename in
    let short = length-stored_name kind filename in
    let (room, embedded) =
      encode_image_cases malloc_ok allocates kind filename payload img img' e in
    let len = length-container kind name payload in
    let enough : length (container kind name payload) * 8 ≤ image_data_bit_capacity img =
      omega arith in
    let all_bytes = body-IsBytes kind name payload nb pb in
    subst
      (λ (i : Image).
        decode_image malloc_ok i ≡ ok (record { kind = kind; filename = name; payload = payload }))
      embedded
      (decode_image_lem kind name payload malloc_ok allocates
        (embed_bits img (container kind name payload)) short fits all_bytes
        (omega (arith, image_data_bit_capacity-embed_bits img (container kind name payload)))
        (λ m le.
          extract_bits-embed_bits img (container kind name payload) m loaded
            (container-IsBytes kind name payload nb pb) le enough))
