-- ===== src/Stego/Pixels.antt =====
-- One pixel byte and one payload byte: what `put_bit` writes, and how the bits that
-- `collect_bit` gathers build up the bytes they were taken from.
use pcd.Prelude.{
  ℕ, suc, ◌+◌, ◌-◌, ◌*◌, ◌/◌, ◌%◌, ◌^◌, ◌≤◌, ◌<◌, ◌≡◌, refl, ap, ◌∙◌, arith, true, [], ◌∷◌, Bytes,
  All, length, get_or, ◌==◌, ==_iff, ltb, all_below, all_below_sound, bit_or, bit_and-one,
  if◌then◌else◌, replicate, ap₂, dec_lt, lt→ltb, ◌>>>◌, ◌<<<◌, u8,
}
use pcd.Stego.{data_bit, put_bit, collect_bit}

put_bit_table : all_below 512 (λ n. put_bit (n / 2) (n % 2) == (n / 2 / 2 * 2 + n % 2)) ≡ true
unfolding all_below put_bit
put_bit_table = refl

-- The byte but for its lowest bit stays; the lowest bit is the given one.
pub put_bit_lem : (v b : ℕ) → v < 256 → b < 2 → put_bit v b ≡ v / 2 * 2 + b
put_bit_lem v b hv hb =
    rw (half, low) at
      ((==_iff _ _).0 (all_below_sound 512 _ (v * 2 + b) put_bit_table (omega arith)))
  where
    half : (v * 2 + b) / 2 ≡ v
    half = omega arith

    low : (v * 2 + b) % 2 ≡ b
    low = omega arith

pub data_bit_lem :
    (input : Bytes) (k : ℕ) → data_bit input k ≡ get_or input (k / 8) 0 / 2 ^ (k % 8) % 2
unfolding data_bit
data_bit_lem input k = omega (arith, bit_and-one (get_or input (k / 8) 0 >>> (k % 8)))

-- One byte with the bits from `j` on cleared, and bit `j` put in.
add_bit_table :
    all_below 2048 (λ n.
      u8 (bit_or (n / 8 % 2 ^ (n % 8)) (u8 ((n / 8 / 2 ^ (n % 8) % 2) <<< (n % 8))))
      == (n / 8 % 2 ^ (n % 8 + 1)))
    ≡ true
unfolding all_below
add_bit_table = refl

add_bit :
    (d j : ℕ)
    → d < 256
    → j < 8
    → u8 (bit_or (d % 2 ^ j) (u8 ((d / 2 ^ j % 2) <<< j))) ≡ d % 2 ^ (j + 1)
add_bit d j hd hj =
    rw (byte, bit) at
      ((==_iff _ _).0 (all_below_sound 2048 _ (d * 8 + j) add_bit_table (omega arith)))
  where
    byte : (d * 8 + j) / 8 ≡ d
    byte = omega arith

    bit : (d * 8 + j) % 8 ≡ j
    bit = omega arith

-- The first `k` bits of the bytes, and zeros behind them.
abbrev pub mask : ℕ → Bytes → Bytes
mask k [] = []
mask k (d ∷ ds) = (if ltb k 8 then d % 2 ^ k else d) ∷ mask (k - 8) ds

abbrev pub IsBytes : Bytes → Type 0
IsBytes = All (λ d. d < 256)

pub mask-zero : (ds : Bytes) → mask 0 ds ≡ replicate (length ds) 0
mask-zero [] = refl
mask-zero (d ∷ ds) = ap₂ ◌∷◌ (omega arith) (mask-zero ds)

pub mask_all : (ds : Bytes) (k : ℕ) → length ds * 8 ≤ k → mask k ds ≡ ds
mask_all [] k h = refl
mask_all (d ∷ ds) k h = ground (arith, mask_all ds (k - 8))

-- The byte at the head holds the first eight bits; the others are the tail's, eight earlier.
collect_bit-low :
    (x : ℕ) (xs : Bytes) (k bit : ℕ)
    → k < 8
    → collect_bit (x ∷ xs) k bit ≡ u8 (bit_or x (u8 (bit <<< k))) ∷ xs
unfolding collect_bit
collect_bit-low x xs k bit h = rw (byte, index)
  where
    byte : k / 8 ≡ 0
    byte = omega arith

    index : k % 8 ≡ k
    index = omega arith

collect_bit-high :
    (x : ℕ) (xs : Bytes) (k bit : ℕ)
    → 8 ≤ k
    → collect_bit (x ∷ xs) k bit ≡ x ∷ collect_bit xs (k - 8) bit
unfolding collect_bit
collect_bit-high x xs k bit h = rw (byte, index)
  where
    byte : k / 8 ≡ suc ((k - 8) / 8)
    byte = omega arith

    index : k % 8 ≡ (k - 8) % 8
    index = omega arith

pub data_bit-low : (d : ℕ) (ds : Bytes) (k : ℕ) → k < 8 → data_bit (d ∷ ds) k ≡ d / 2 ^ k % 2
data_bit-low d ds k h = data_bit_lem (d ∷ ds) k ∙ rw (byte, index)
  where
    byte : k / 8 ≡ 0
    byte = omega arith

    index : k % 8 ≡ k
    index = omega arith

pub data_bit-high : (d : ℕ) (ds : Bytes) (k : ℕ) → 8 ≤ k → data_bit (d ∷ ds) k ≡ data_bit ds (k - 8)
data_bit-high d ds k h = data_bit_lem (d ∷ ds) k ∙ rw (byte, index, data_bit_lem ds (k - 8))
  where
    byte : k / 8 ≡ suc ((k - 8) / 8)
    byte = omega arith

    index : k % 8 ≡ (k - 8) % 8
    index = omega arith

last_bit :
    (d k : ℕ) → d < 256 → k < 8 → d % 2 ^ (k + 1) ≡ (if ltb (k + 1) 8 then d % 2 ^ (k + 1) else d)
last_bit d k b low = elim (dec_lt k 7) [
  | yes before ↦ rw (lt→ltb (k + 1) 8 (omega arith))
  | no at ↦ let e : k ≡ 7 = omega arith in rw e (omega arith)
]

-- Gathering bit `k` of the bytes into their first `k` bits gives their first `k + 1` bits.
pub collect_bit-mask :
    (ds : Bytes) (k : ℕ)
    → IsBytes ds
    → k < length ds * 8
    → collect_bit (mask k ds) k (data_bit ds k) ≡ mask (k + 1) ds
collect_bit-mask [] k b h = absurd (omega arith)
collect_bit-mask (d ∷ ds) k (b, bs) h = elim (dec_lt k 8) [
  | yes low ↦
      rw (collect_bit-low _ (mask (k - 8) ds) k (data_bit (d ∷ ds) k) low, data_bit-low d ds k low)
        (ap₂ ◌∷◌ (head_low low) (ap (λ n. mask n ds) (omega arith)))
  | no high ↦
      let up : 8 ≤ k = omega arith in
      rw (collect_bit-high _ (mask (k - 8) ds) k (data_bit (d ∷ ds) k) up, data_bit-high d ds k up)
        (ap₂ ◌∷◌ (ground arith)
          (collect_bit-mask ds (k - 8) bs (omega arith) ∙ ap (λ n. mask n ds) (omega arith)))
]
  where
    head_low :
        k < 8
        → u8 (bit_or (if ltb k 8 then d % 2 ^ k else d) (u8 ((d / 2 ^ k % 2) <<< k)))
          ≡ (if ltb (k + 1) 8 then d % 2 ^ (k + 1) else d)
    head_low low = rw (lt→ltb k 8 low) (add_bit d k b low ∙ last_bit d k b low)
