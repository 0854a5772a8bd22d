-- ===== src/Stego/Codec/Parts.antt =====
-- The parts of a container of src/server/stego.c, and how each step of the decoder reads them.
use pcd.Prelude.{
  ℕ, ◌+◌, ◌-◌, ◌^◌, ◌≤◌, ◌<◌, ◌≡◌, refl, ap, ap₂, sym, ◌∙◌, arith, Bool, true, false, ◌||◌, [], ◌∷◌,
  ◌++◌, append_assoc, Bytes, bytes_eq, length, length-append, get_or, take, drop, take_all,
  take-append, drop-append, append-take, append-drop, ltb, ◌==◌, if◌then◌else◌, u16, u32,
}
use pcd.Stego.{Image, ok, extract_bits}
use pcd.Stego.Crc.{stego_crc32, stego_crc32-lt}
use pcd.Stego.Pixels.{IsBytes}
use pcd.Stego.Container.{
  PayloadType, text, file, type_byte, stego_magic, container_body, write_be16, write_be32,
  read_be16, read_be32, read_be32-write_be32, read_be16-write_be16,
}
use pcd.Stego.Codec.{payload_type, decode_container, decode_sized, decode_image, avail_bytes}

==_refl : (n : ℕ) → (n == n) ≡ true
==_refl n = ground arith

-- The word between a prefix and a rest.
take_word : (p w rest : Bytes) → take (length p + length w) (p ++ (w ++ rest)) ≡ p ++ w
take_word p w rest = append-take p (w ++ rest) (length w) ∙ ap (◌++◌ p) (take-append w rest)

drop_word : (p w rest : Bytes) → drop (length p + length w) (p ++ (w ++ rest)) ≡ rest
drop_word p w rest = append-drop p (w ++ rest) (length w) ∙ drop-append w rest

type_read : (kind : PayloadType) → payload_type (type_byte kind) ≡ ok kind
unfolding payload_type
type_read text = refl
type_read file = refl

-- The parts of the container of a name (not yet cut) and a payload.
module _ (kind : PayloadType) (name payload : Bytes) where
  unfoldable pub body : Bytes
  body = container_body kind name payload

  unfoldable pub crc : Bytes
  crc = write_be32 (stego_crc32 body)

  unfoldable pub container : Bytes
  container = body ++ crc

  unfoldable pub header : Bytes
  header = stego_magic ++ (type_byte kind ∷ write_be16 (u16 (length name)))

  unfoldable pub size_word : Bytes
  size_word = write_be32 (u32 (length payload))

  pub body_parts : body ≡ (header ++ name) ++ (size_word ++ payload)
  unfolding body container_body header size_word write_be16 write_be32
  body_parts = ap (λ (xs : Bytes). header ++ xs) (append_assoc name size_word payload)

  container_parts : container ≡ (header ++ name) ++ (size_word ++ (payload ++ crc))
  unfolding container
  container_parts =
      ap (λ (xs : Bytes). xs ++ crc) body_parts
      ∙ append_assoc (header ++ name) (size_word ++ payload) crc
      ∙ ap (◌++◌ (header ++ name)) (append_assoc size_word payload crc)

  length-prefix : length (header ++ name) ≡ 7 + length name
  unfolding header write_be16
  length-prefix = omega arith

  length-size_word : length size_word ≡ 4
  unfolding size_word write_be32
  length-size_word = refl

  length-crc : length crc ≡ 4
  unfolding crc write_be32
  length-crc = refl

  length-body : length body ≡ 7 + length name + 4 + length payload
  length-body = omega (
    arith,
    ap length body_parts,
    length-append (header ++ name) (size_word ++ payload),
    length-append size_word payload,
    length-size_word,
    length-prefix,
  )

  pub length-container : length container ≡ 7 + length name + 4 + length payload + 4
  unfolding container
  length-container = omega (arith, length-append body crc, length-crc, length-body)

  length-header : length header ≡ 7
  unfolding header write_be16
  length-header = refl

  behind_header : drop 7 container ≡ name ++ (size_word ++ (payload ++ crc))
  behind_header =
      ap₂ drop (sym length-header)
        (container_parts ∙ append_assoc header name (size_word ++ (payload ++ crc)))
      ∙ drop-append header (name ++ (size_word ++ (payload ++ crc)))

  prefix_word : 7 + length name + 4 ≡ length (header ++ name) + length size_word
  prefix_word = omega (arith, length-prefix, length-size_word)

  behind_size : drop (7 + length name + 4) container ≡ payload ++ crc
  behind_size =
      ap₂ drop prefix_word container_parts ∙ drop_word (header ++ name) size_word (payload ++ crc)

  up_to_size : take (7 + length name + 4) container ≡ (header ++ name) ++ size_word
  up_to_size =
      ap₂ take prefix_word container_parts ∙ take_word (header ++ name) size_word (payload ++ crc)

  magic_read : bytes_eq (take 4 header) stego_magic ≡ true
  unfolding header bytes_eq
  magic_read = refl

  kind_read : payload_type (get_or header 4 0) ≡ ok kind
  unfolding header payload_type
  kind_read = type_read kind

  name_read : length name ≤ 255 → read_be16 (drop 5 header) ≡ length name
  unfolding header write_be16
  name_read short = read_be16-write_be16 (u16 (length name)) [] (omega arith) ∙ omega arith

  read_size_word : length payload < 2 ^ 32 → read_be32 size_word ≡ length payload
  unfolding size_word write_be32
  read_size_word fits = read_be32-write_be32 (u32 (length payload)) [] (omega arith) ∙ omega arith

  crc_word : IsBytes body → read_be32 crc ≡ stego_crc32 body
  unfolding crc write_be32
  crc_word bytes = read_be32-write_be32 (stego_crc32 body) [] (stego_crc32-lt body bytes)

  -- An image from which this container, or any prefix of it, is extracted.
  module _ (malloc_ok : ℕ → Bool) (allocates : (n : ℕ) → malloc_ok n ≡ true) (img : Image)
      (short_name : length name ≤ 255) (fits : length payload < 2 ^ 32) (bytes : IsBytes body)
      (room : length container ≤ avail_bytes img)
      (reads : (m : ℕ) → m ≤ length container → extract_bits img m ≡ take m container) where
    decode_container_lem :
        decode_container malloc_ok img kind (length name) (length payload)
        ≡ ok (record { kind = kind; filename = name; payload = payload })
    unfolding decode_container container
    decode_container_lem = rw (
      enough,
      allocates total,
      whole,
      stored,
      calc,
      crc_word bytes,
      ==_refl (stego_crc32 body),
      allocated,
      stored_name_lem,
      stored_payload,
    )
      where
        total : ℕ
        total = 7 + length name + 4 + length payload + 4

        enough : ltb (avail_bytes img) total ≡ false
        enough = ground (arith, length-container)

        whole : extract_bits img total ≡ container
        whole =
            reads total (omega (arith, length-container))
            ∙ take_all total container (omega (arith, length-container))

        position : total - 4 ≡ length body
        position = omega (arith, length-body)

        calc : take (total - 4) container ≡ body
        calc = ap (λ (k : ℕ). take k container) position ∙ take-append body crc

        allocated : (length payload == 0 || malloc_ok (length payload)) ≡ true
        allocated = ground (arith, allocates (length payload))

        stored_name_lem :
            take (if ltb (length name) 255 then length name else 255) (drop 7 container) ≡ name
        stored_name_lem =
            ap₂ take (ground arith) behind_header ∙ take-append name (size_word ++ (payload ++ crc))

        stored_payload : take (length payload) (drop (7 + length name + 4) container) ≡ payload
        stored_payload =
            ap (λ (xs : Bytes). take (length payload) xs) behind_size ∙ take-append payload crc

        stored : drop (total - 4) container ≡ crc
        stored = ap (λ (k : ℕ). drop k container) position ∙ drop-append body crc

    decode_sized_lem :
        decode_sized malloc_ok img kind (length name)
        ≡ ok (record { kind = kind; filename = name; payload = payload })
    unfolding decode_sized
    decode_sized_lem = rw (enough, allocates needed, probe, size_read) decode_container_lem
      where
        needed : ℕ
        needed = 7 + length name + 4

        enough : ltb (avail_bytes img) needed ≡ false
        enough = ground (arith, length-container)

        probe : extract_bits img needed ≡ (header ++ name) ++ size_word
        probe = reads needed (omega (arith, length-container)) ∙ up_to_size

        size_read :
            read_be32 (drop (7 + length name) ((header ++ name) ++ size_word)) ≡ length payload
        size_read =
            ap read_be32 (
              ap (λ (k : ℕ). drop k ((header ++ name) ++ size_word)) (sym length-prefix)
              ∙ drop-append (header ++ name) size_word)
            ∙ read_size_word fits

    pub decode_image_lem :
        decode_image malloc_ok img ≡ ok (record { kind = kind; filename = name; payload = payload })
    unfolding decode_image
    decode_image_lem =
        rw (enough, header_read, magic_read, kind_read, name_read short_name) decode_sized_lem
      where
        enough : ltb (avail_bytes img) 15 ≡ false
        enough = ground (arith, length-container)

        header_read : extract_bits img 7 ≡ header
        header_read =
            reads 7 (omega (arith, length-container))
            ∙ ap₂ take (sym length-header)
                (container_parts ∙ append_assoc header name (size_word ++ (payload ++ crc)))
            ∙ take-append header (name ++ (size_word ++ (payload ++ crc)))
