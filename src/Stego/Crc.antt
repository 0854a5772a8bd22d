-- ===== src/Stego/Crc.antt =====
-- The checksum of src/server/stego.c: `crc32_build_table` and `stego_crc32`. The table is filled
-- once, under a mutex, before the first use; here it is a constant.
use pcd.Prelude.{
  ℕ, zero, suc, ◌+◌, ◌*◌, ◌/◌, ◌%◌, ◌^◌, ◌<◌, ◌≡◌, refl, sym, ap, ap₂, ◌∙◌, arith, doubled_shift,
  List, [], ◌∷◌, Bytes, All, length, get_or, ◌==◌, if◌then◌else◌, bit_and, bit_xor, ◌>>>◌,
  bit_and-one, bit_and_byte, codes, bit_xor_assoc, bit_xor_comm, bit_xor_self, zero-bit_xor,
  half-bit_xor, odd-bit_xor, bit_xor_fields, shr_byte-bit_xor, bit_xor-lt, dec_lt, inl, inr, ◌⊎◌,
}

-- One bit of a byte: `(c & 1U) ? (0xEDB88320U ^ (c >> 1)) : (c >> 1)`.
unfoldable pub crc32_round : ℕ → ℕ
crc32_round c = if bit_and c 1 == 0 then c >>> 1 else bit_xor 0xEDB88320 (c >>> 1)

unfoldable pub crc32_rounds : ℕ → ℕ → ℕ
crc32_rounds zero c = c
crc32_rounds (suc k) c = crc32_rounds k (crc32_round c)

-- The entries for `i`, `i + 1`, …, `left` of them.
unfoldable pub crc32_table_from : ℕ → ℕ → List ℕ
unfolding crc32_rounds crc32_round
crc32_table_from zero i = []
crc32_table_from (suc left) i = crc32_rounds 8 i ∷ crc32_table_from left (i + 1)

unfoldable pub crc32_build_table : List ℕ
unfolding crc32_table_from
crc32_build_table = crc32_table_from 256 0

unfoldable pub crc32_loop : ℕ → Bytes → ℕ
unfolding crc32_build_table
crc32_loop c [] = c
crc32_loop c (b ∷ input) =
    crc32_loop (bit_xor (get_or crc32_build_table (bit_and (bit_xor c b) 0xFF) 0) (c >>> 8)) input

unfoldable pub stego_crc32 : Bytes → ℕ
unfolding crc32_loop
stego_crc32 input = bit_xor (crc32_loop 0xFFFFFFFF input) 0xFFFFFFFF

-- The checksum by its definition: every bit of the message goes through the shift register.
unfoldable pub crc32_bitwise_loop : ℕ → Bytes → ℕ
unfolding crc32_rounds crc32_round
crc32_bitwise_loop c [] = c
crc32_bitwise_loop c (b ∷ input) = crc32_bitwise_loop (crc32_rounds 8 (bit_xor c b)) input

unfoldable pub crc32_bitwise : Bytes → ℕ
unfolding crc32_bitwise_loop
crc32_bitwise input = bit_xor (crc32_bitwise_loop 0xFFFFFFFF input) 0xFFFFFFFF

-- The check value of the IEEE polynomial.
check_value : stego_crc32 (codes "123456789") ≡ 0xCBF43926
unfolding stego_crc32
check_value = refl

crc32_round-even : (c : ℕ) → c % 2 ≡ 0 → crc32_round c ≡ c / 2
unfolding crc32_round
crc32_round-even c h = ground (arith, bit_and-one c)

crc32_round-odd : (c : ℕ) → c % 2 ≡ 1 → crc32_round c ≡ bit_xor 0xEDB88320 (c / 2)
unfolding crc32_round
crc32_round-odd c h = ground (arith, bit_and-one c)

module _ (p a b : ℕ) where
  left_comm : bit_xor p (bit_xor a b) ≡ bit_xor a (bit_xor p b)
  left_comm =
      sym (bit_xor_assoc p a b)
      ∙ ap (λ (x : ℕ). bit_xor x b) (bit_xor_comm p a)
      ∙ bit_xor_assoc a p b

cancel : (p a b : ℕ) → bit_xor (bit_xor p a) (bit_xor p b) ≡ bit_xor a b
cancel p a b =
    bit_xor_assoc p a (bit_xor p b)
    ∙ ap (bit_xor p) (left_comm a p b)
    ∙ sym (bit_xor_assoc p p (bit_xor a b))
    ∙ ap (λ (x : ℕ). bit_xor x (bit_xor a b)) (bit_xor_self p)
    ∙ zero-bit_xor (bit_xor a b)

parity : (n : ℕ) → (n % 2 ≡ 0) ⊎ (n % 2 ≡ 1)
parity n = elim (dec_lt (n % 2) 1) [ yes h ↦ inl (omega arith) | no h ↦ inr (omega arith) ]

-- A round is linear.
crc32_round-bit_xor :
    (a b : ℕ) → crc32_round (bit_xor a b) ≡ bit_xor (crc32_round a) (crc32_round b)
crc32_round-bit_xor a b = elim (parity a) [
  | inl ea ↦ elim (parity b) [
    | inl eb ↦
        rw (crc32_round-even a ea, crc32_round-even b eb)
          (crc32_round-even _ (omega (arith, odd-bit_xor a b)) ∙ half-bit_xor a b)
    | inr ob ↦
        rw (crc32_round-even a ea, crc32_round-odd b ob)
          (crc32_round-odd _ (omega (arith, odd-bit_xor a b))
            ∙ ap (bit_xor p) (half-bit_xor a b)
            ∙ left_comm p (a / 2) (b / 2))
  ]
  | inr oa ↦ elim (parity b) [
    | inl eb ↦
        rw (crc32_round-odd a oa, crc32_round-even b eb)
          (crc32_round-odd _ (omega (arith, odd-bit_xor a b))
            ∙ ap (bit_xor p) (half-bit_xor a b)
            ∙ sym (bit_xor_assoc p (a / 2) (b / 2)))
    | inr ob ↦
        rw (crc32_round-odd a oa, crc32_round-odd b ob)
          (crc32_round-even _ (omega (arith, odd-bit_xor a b))
            ∙ half-bit_xor a b
            ∙ sym (cancel p (a / 2) (b / 2)))
  ]
]
  where
    p : ℕ
    p = 0xEDB88320

crc32_rounds-bit_xor :
    (k a b : ℕ) → crc32_rounds k (bit_xor a b) ≡ bit_xor (crc32_rounds k a) (crc32_rounds k b)
unfolding crc32_rounds
crc32_rounds-bit_xor zero a b = refl
crc32_rounds-bit_xor (suc k) a b =
    ap (crc32_rounds k) (crc32_round-bit_xor a b)
    ∙ crc32_rounds-bit_xor k (crc32_round a) (crc32_round b)

-- `k` rounds shift `k` zeros out.
crc32_rounds-shift : (k q : ℕ) → crc32_rounds k (q * 2 ^ k) ≡ q
unfolding crc32_rounds
crc32_rounds-shift zero q = omega arith
crc32_rounds-shift (suc k) q =
    ap (crc32_rounds k) (
      crc32_round-even (q * 2 ^ suc k) (omega (arith, doubled_shift q k))
      ∙ omega (arith, doubled_shift q k))
    ∙ crc32_rounds-shift k q

length-crc32_table_from : (left i : ℕ) → length (crc32_table_from left i) ≡ left
unfolding crc32_table_from
length-crc32_table_from zero i = refl
length-crc32_table_from (suc left) i = ap suc (length-crc32_table_from left (i + 1))

get_or-crc32_table_from :
    (left i j : ℕ) → j < left → get_or (crc32_table_from left i) j 0 ≡ crc32_rounds 8 (i + j)
unfolding crc32_table_from
get_or-crc32_table_from zero i j h = absurd (omega arith)
get_or-crc32_table_from (suc left) i zero h = ap (crc32_rounds 8) (omega arith)
get_or-crc32_table_from (suc left) i (suc j) h =
    get_or-crc32_table_from left (i + 1) j (omega arith) ∙ ap (crc32_rounds 8) (omega arith)

table_lem : crc32_build_table ≡ crc32_table_from 256 0
unfolding crc32_build_table
table_lem = refl

table_entry : (j : ℕ) → j < 256 → get_or crc32_build_table j 0 ≡ crc32_rounds 8 (0 + j)
table_entry j h = ap (λ (t : List ℕ). get_or t j 0) table_lem ∙ get_or-crc32_table_from 256 0 j h

-- A step of the table-driven loop is eight rounds of the register.
table_step :
    (c b : ℕ)
    → b < 256
    → bit_xor (get_or crc32_build_table (bit_and (bit_xor c b) 0xFF) 0) (c >>> 8)
      ≡ crc32_rounds 8 (bit_xor c b)
table_step c b h =
    let x = bit_xor c b in
    let low : get_or crc32_build_table (x % 256) 0 ≡ crc32_rounds 8 (0 + x % 256) =
      table_entry (x % 256) (omega arith) in
    ap₂ bit_xor
      (ap (λ (i : ℕ). get_or crc32_build_table i 0) (bit_and_byte x)
        ∙ low
        ∙ ap (crc32_rounds 8) (omega arith))
      (sym (shr_byte-bit_xor c b h) ∙ sym (crc32_rounds-shift 8 (x / 256)))
    ∙ sym (crc32_rounds-bit_xor 8 (x % 256) (x / 256 * 2 ^ 8))
    ∙ ap (crc32_rounds 8) (
        bit_xor_comm (x % 256) (x / 256 * 2 ^ 8)
        ∙ bit_xor_fields 8 (x / 256) (x % 256) (omega arith)
        ∙ omega arith)

crc32_loop-bitwise :
    (input : Bytes) (c : ℕ)
    → All (λ b. b < 256) input
    → crc32_loop c input ≡ crc32_bitwise_loop c input
unfolding crc32_loop crc32_bitwise_loop
crc32_loop-bitwise [] c h = refl
crc32_loop-bitwise (b ∷ input) c (h, hs) =
    ap (λ (x : ℕ). crc32_loop x input) (table_step c b h)
    ∙ crc32_loop-bitwise input (crc32_rounds 8 (bit_xor c b)) hs

-- The table-driven checksum is the bit-by-bit one, on every text of bytes.
pub stego_crc32-bitwise :
    (input : Bytes) → All (λ b. b < 256) input → stego_crc32 input ≡ crc32_bitwise input
unfolding stego_crc32 crc32_bitwise
stego_crc32-bitwise input h =
    ap (λ (c : ℕ). bit_xor c 0xFFFFFFFF) (crc32_loop-bitwise input 0xFFFFFFFF h)

crc32_round-lt : (c : ℕ) → c < 2 ^ 32 → crc32_round c < 2 ^ 32
crc32_round-lt c h = elim (parity c) [
  | inl e ↦ rw (crc32_round-even c e) (omega arith)
  | inr o ↦ rw (crc32_round-odd c o) (bit_xor-lt 32 0xEDB88320 (c / 2) (omega arith) (omega arith))
]

crc32_rounds-lt : (k c : ℕ) → c < 2 ^ 32 → crc32_rounds k c < 2 ^ 32
unfolding crc32_rounds
crc32_rounds-lt zero c h = h
crc32_rounds-lt (suc k) c h = crc32_rounds-lt k (crc32_round c) (crc32_round-lt c h)

crc32_bitwise_loop-lt :
    (input : Bytes) (c : ℕ)
    → All (λ b. b < 256) input
    → c < 2 ^ 32
    → crc32_bitwise_loop c input < 2 ^ 32
unfolding crc32_bitwise_loop
crc32_bitwise_loop-lt [] c hs h = h
crc32_bitwise_loop-lt (b ∷ input) c (hb, hs) h =
    crc32_bitwise_loop-lt input _ hs
      (crc32_rounds-lt 8 (bit_xor c b) (bit_xor-lt 32 c b h (omega arith)))

-- The checksum is a 32-bit word.
pub stego_crc32-lt : (input : Bytes) → All (λ b. b < 256) input → stego_crc32 input < 2 ^ 32
stego_crc32-lt input h = rw (stego_crc32-bitwise input h) (
    unfold crc32_bitwise in
    bit_xor-lt 32 _ 0xFFFFFFFF (crc32_bitwise_loop-lt input 0xFFFFFFFF h (omega arith))
      (omega arith))
