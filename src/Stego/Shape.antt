-- ===== src/Stego/Shape.antt =====
-- The shape of an image under `embed_bits` of src/server/stego.c, and its capacity.
use native.Mathlib.Nat.{le_refl, mul-le-mul}
use pcd.Prelude.{
  ℕ, zero, suc, ◌+◌, ◌*◌, ◌^◌, ◌≤◌, ◌<◌, ◌≡◌, refl, ap, subst, ◌∙◌, arith, inl, inr, List, [], ◌∷◌,
  Bytes, All, length, length-append, u64,
}
use pcd.Stego.{
  Image, IsLoaded, image_data_bit_capacity, data_channels, data_bit, put_bit, embed_row, embed_rows,
  embed_bits,
}
use pcd.Stego.Pixels.{put_bit_lem, data_bit_lem, IsBytes}
use pcd.Stego.Slots.{row_slots, slots, length-row_slots-rgb, length-row_slots-rgba}

pub data_bit-lt : (input : Bytes) (k : ℕ) → data_bit input k < 2
data_bit-lt input k = omega (arith, data_bit_lem input k)

-- A byte with a bit put into it is still a byte.
pub put_bit-byte : (v : ℕ) (input : Bytes) (k : ℕ) → v < 256 → put_bit v (data_bit input k) < 256
put_bit-byte v input k h =
    omega (arith, put_bit_lem v (data_bit input k) h (data_bit-lt input k), data_bit-lt input k)

-- `embed_bits` keeps the shape of an image.
pub embed_row-shape :
    (channels : ℕ) (input : Bytes) (total left x : ℕ) (row : Bytes) (k : ℕ)
    → IsBytes row
    → (length (embed_row channels input total left x row k).0 ≡ length row)
      × IsBytes (embed_row channels input total left x row k).0
unfolding embed_row
embed_row-shape channels input total zero x row k h = (refl, h)
embed_row-shape channels input total (suc left) x [] k h = (refl, h)
embed_row-shape channels input total (suc left) x (v ∷ row) k (h, hs) = ground (
  arith,
  put_bit-byte v input k h,
  embed_row-shape channels input total left (x + 1) row (k + 1) hs,
  embed_row-shape channels input total left (x + 1) row k hs,
)

module _ (channels : ℕ) (input : Bytes) (total row_len : ℕ) where
  pub embed_rows-shape :
      (left : ℕ) (rows : List Bytes) (k : ℕ)
      → All (λ row. length row ≡ row_len) rows
      → All IsBytes rows
      → (length (embed_rows channels input total row_len left rows k).0 ≡ length rows)
        × All (λ row. length row ≡ row_len) (embed_rows channels input total row_len left rows k).0
        × All IsBytes (embed_rows channels input total row_len left rows k).0
  unfolding embed_rows
  embed_rows-shape zero rows k h b = (refl, h, b)
  embed_rows-shape (suc left) [] k h b = (refl, h, b)
  embed_rows-shape (suc left) (row ∷ rows) k (h, hs) (b, bs) =
      let first = embed_row-shape channels input total row_len 0 row k b in
      let next = (embed_row channels input total row_len 0 row k).1 in
      let (l, r, q) = embed_rows-shape left rows next hs bs in
      (ap suc l, (first.0 ∙ h, r), (first.1, q))

pub row_len-exact :
    (img : Image) → IsLoaded img → u64 (img.width * img.channels) ≡ img.width * img.channels
row_len-exact img h = ground (arith, h.rgb_or_rgba, h.width_fits)

-- Embedding keeps a loaded image loaded: its channels, the number and the size of its rows, and
-- bytes in every pixel.
pub embed_bits-IsLoaded :
    (img : Image) (input : Bytes) → IsLoaded img → IsLoaded (embed_bits img input)
unfolding embed_bits
embed_bits-IsLoaded img input h =
    let (l, r, q) =
      embed_rows-shape img.channels input (u64 (length input * 8)) (u64 (img.width * img.channels))
        img.height img.rows 0 (rw (row_len-exact img h) h.row_sizes) h.row_bytes in
    record {
      rgb_or_rgba = h.rgb_or_rgba;
      row_count = l ∙ h.row_count;
      row_sizes =
          subst
            (λ (n : ℕ).
              All (λ row. length row ≡ n)
                (embed_rows img.channels input (u64 (length input * 8))
                  (u64 (img.width * img.channels)) img.height img.rows 0).0)
            (row_len-exact img h) r;
      row_bytes = q;
      width_fits = h.width_fits;
      height_fits = h.height_fits;
    }

length-row_slots :
    (img : Image) (row : Bytes)
    → IsLoaded img
    → length row ≡ img.width * img.channels
    → length (row_slots img.channels 0 row) ≡ img.width * data_channels img
unfolding data_channels
length-row_slots img row h e = elim h.rgb_or_rgba [
  | inl three ↦ rw three (length-row_slots-rgb 0 row ∙ e ∙ ap (λ (c : ℕ). img.width * c) three)
  | inr four ↦
      rw four (
        length-row_slots-rgba img.width 0 row (e ∙ ap (λ (c : ℕ). img.width * c) four)
          (omega arith))
]

length-slots :
    (img : Image) (rows : List Bytes)
    → IsLoaded img
    → All (λ row. length row ≡ img.width * img.channels) rows
    → length (slots img.channels rows) ≡ length rows * (img.width * data_channels img)
unfolding slots
length-slots img [] h a = omega arith
length-slots img (row ∷ rows) h (a, rest) = omega (
  arith,
  length-append (row_slots img.channels 0 row) (slots img.channels rows),
  length-row_slots img row h a,
  length-slots img rows h rest,
)

-- Embedding does not change the capacity.
pub image_data_bit_capacity-embed_bits :
    (img : Image) (input : Bytes)
    → image_data_bit_capacity (embed_bits img input) ≡ image_data_bit_capacity img
unfolding image_data_bit_capacity embed_bits
image_data_bit_capacity-embed_bits img input = refl

pub capacity-lt : (img : Image) → image_data_bit_capacity img < 2 ^ 64
unfolding image_data_bit_capacity
capacity-lt img = omega arith

area-lt : (w h : ℕ) → w < 2 ^ 29 → h < 2 ^ 32 → w * h < 2 ^ 61
area-lt w h p q =
    let bound : w * h ≤ 536870911 * h = mul-le-mul (omega arith) (le_refl h) in omega arith

data_channels-three : (img : Image) → IsLoaded img → data_channels img ≡ 3
unfolding data_channels
data_channels-three img h = ground (arith, h.rgb_or_rgba)

-- The capacity that the source computes in `size_t`, with its wrap-around, is the number of bytes of
-- data channels that a loaded image has: nothing overflows, and the alpha channel does not count.
pub capacity-slots :
    (img : Image)
    → IsLoaded img
    → image_data_bit_capacity img ≡ length (slots img.channels img.rows)
unfolding image_data_bit_capacity
capacity-slots img h =
    rw (length-slots img img.rows h h.row_sizes, data_channels-three img h, h.row_count)
      (omega (arith, area-lt img.width img.height h.width_fits h.height_fits))
