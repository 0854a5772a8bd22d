-- ===== src/Stego/Container.antt =====
-- The container of src/server/stego.c: big-endian words and `build_container`. A C string is the
-- list of its bytes before the terminator.
use pcd.Prelude.{
  ℕ, ◌+◌, ◌*◌, ◌/◌, ◌^◌, ◌<◌, ◌≡◌, ap, subst, ◌∙◌, arith, Bool, Option, none, some, [], ◌∷◌, ◌++◌,
  Bytes, length, get_or, take, ltb, if◌then◌else◌, bit_or, bit_or_fields, ◌<<<◌, ◌>>>◌, u8, u16,
  u32, u64, codes,
}
use pcd.Stego.Crc.{stego_crc32}

unfoldable pub write_be32 : ℕ → Bytes
write_be32 v = u8 (v >>> 24) ∷ u8 (v >>> 16) ∷ u8 (v >>> 8) ∷ u8 v ∷ []

unfoldable pub read_be32 : Bytes → ℕ
read_be32 src =
    bit_or
      (bit_or (bit_or (u32 (get_or src 0 0 <<< 24)) (u32 (get_or src 1 0 <<< 16)))
        (u32 (get_or src 2 0 <<< 8)))
      (get_or src 3 0)

unfoldable pub write_be16 : ℕ → Bytes
write_be16 v = u8 (v >>> 8) ∷ u8 v ∷ []

unfoldable pub read_be16 : Bytes → ℕ
read_be16 src = u16 (bit_or (get_or src 0 0 <<< 8) (get_or src 1 0))

-- Disjoint fields add up.
bit_or-disjoint : (k x r : ℕ) → x / 2 ^ k * 2 ^ k ≡ x → r < 2 ^ k → bit_or x r ≡ x + r
bit_or-disjoint k x r e h =
    subst (λ (y : ℕ). bit_or y r ≡ y + r) e (bit_or_fields k (x / 2 ^ k) r h)

read_be32_lem :
    (a b c d : ℕ) (rest : Bytes)
    → a < 256
    → b < 256
    → c < 256
    → d < 256
    → read_be32 (a ∷ b ∷ c ∷ d ∷ rest) ≡ a * 2 ^ 24 + b * 2 ^ 16 + c * 2 ^ 8 + d
unfolding read_be32
read_be32_lem a b c d rest ha hb hc hd = omega (
  arith,
  ap (λ (x : ℕ). bit_or (bit_or x (u32 (c <<< 8))) d) top,
  ap (λ (x : ℕ). bit_or x d) middle,
  bottom,
)
  where
    top : bit_or (u32 (a <<< 24)) (u32 (b <<< 16)) ≡ a * 2 ^ 24 + b * 2 ^ 16
    top =
        omega
          (arith, bit_or-disjoint 24 (u32 (a <<< 24)) (u32 (b <<< 16)) (omega arith) (omega arith))

    middle : bit_or (a * 2 ^ 24 + b * 2 ^ 16) (u32 (c <<< 8)) ≡ a * 2 ^ 24 + b * 2 ^ 16 + c * 2 ^ 8
    middle = omega (
      arith,
      bit_or-disjoint 16 (a * 2 ^ 24 + b * 2 ^ 16) (u32 (c <<< 8)) (omega arith) (omega arith),
    )

    bottom :
        bit_or (a * 2 ^ 24 + b * 2 ^ 16 + c * 2 ^ 8) d ≡ a * 2 ^ 24 + b * 2 ^ 16 + c * 2 ^ 8 + d
    bottom = bit_or-disjoint 8 (a * 2 ^ 24 + b * 2 ^ 16 + c * 2 ^ 8) d (omega arith) hd

-- A word below 2 ^ 32 is read back from its four bytes, whatever follows them.
pub read_be32-write_be32 :
    (v : ℕ) (rest : Bytes) → v < 2 ^ 32 → read_be32 (write_be32 v ++ rest) ≡ v
unfolding write_be32
read_be32-write_be32 v rest h =
    read_be32_lem (u8 (v >>> 24)) (u8 (v >>> 16)) (u8 (v >>> 8)) (u8 v) rest (omega arith)
      (omega arith) (omega arith) (omega arith)
    ∙ omega arith

pub read_be16-write_be16 :
    (v : ℕ) (rest : Bytes) → v < 2 ^ 16 → read_be16 (write_be16 v ++ rest) ≡ v
unfolding read_be16 write_be16
read_be16-write_be16 v rest h = omega (arith, bit_or_fields 8 (u8 (v >>> 8)) (u8 v) (omega arith))

-- `stego_payload_type_t`.
pub data PayloadType : Type 0 where
  text file : PayloadType

abbrev pub type_byte : PayloadType → ℕ
type_byte text = 0
type_byte file = 1

abbrev pub stego_magic : Bytes
stego_magic = codes "STG1"

abbrev pub stego_header_min_len : ℕ
stego_header_min_len = 15

-- The file name of the container; `none` is the null pointer, and a name is cut at 255 bytes.
unfoldable pub stored_name : PayloadType → Option Bytes → Bytes
stored_name file (some name) = if ltb 255 (length name) then take 255 name else name
stored_name _ _ = []

-- The container before its checksum.
unfoldable pub container_body : PayloadType → Bytes → Bytes → Bytes
container_body type name payload =
    stego_magic
    ++ (type_byte type ∷ write_be16 (u16 (length name))
        ++ name
        ++ write_be32 (u32 (length payload))
        ++ payload)

-- `malloc_ok n`: an allocation of `n` bytes succeeds.
unfoldable pub build_container : (ℕ → Bool) → PayloadType → Option Bytes → Bytes → Option Bytes
build_container malloc_ok type filename payload =
    let name = stored_name type filename in
    let body = container_body type name payload in
    if malloc_ok (u64 (4 + 1 + 2 + length name + 4 + length payload + 4))
    then some (body ++ write_be32 (stego_crc32 body))
    else none
