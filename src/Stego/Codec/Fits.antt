-- ===== src/Stego/Codec/Fits.antt =====
-- The capacity that src/server/stego.c reports is the one its encoder accepts.
use pcd.Prelude.{
  ℕ, ◌*◌, ◌^◌, ◌≤◌, ◌<◌, ◌≡◌, arith, Bool, true, not, none, Bytes, length, ltb, leb, if◌then◌else◌,
  Bool-cases, inl, inr, [], u64,
}
use pcd.Stego.{Image, ok, err, err_capacity, image_data_bit_capacity, embed_bits}
use pcd.Stego.Container.{text, stored_name}
use pcd.Stego.Codec.{encode_image, payload_max_bytes}
use pcd.Stego.Codec.Parts.{container, length-container}
use pcd.Stego.Codec.RoundTrip.{build_container_lem}

text_fits :
    (payload : Bytes) (img : Image)
    → length payload < 2 ^ 32
    → 120 ≤ image_data_bit_capacity img
    → ltb (image_data_bit_capacity img) (u64 (length (container text [] payload) * 8))
      ≡ not (leb (length payload) (payload_max_bytes img))
unfolding payload_max_bytes
text_fits payload img short room = ground (arith, length-container text [] payload)

-- In an image with room for an empty text, and with memory at hand, a text of less than 2 ^ 32 bytes
-- is encoded exactly when its length is at most the capacity reported for the image; a longer text
-- is the capacity error.
pub encode_image-payload_max_bytes :
    (malloc_ok : ℕ → Bool) (payload : Bytes) (img : Image)
    → ((n : ℕ) → malloc_ok n ≡ true)
    → length payload < 2 ^ 32
    → 120 ≤ image_data_bit_capacity img
    → encode_image malloc_ok text none payload img ≡ (
        if leb (length payload) (payload_max_bytes img)
        then ok (embed_bits img (container text [] payload))
        else err err_capacity)
unfolding encode_image stored_name
encode_image-payload_max_bytes malloc_ok payload img allocates short room =
    elim (Bool-cases (leb (length payload) (payload_max_bytes img))) [
      | inl fits ↦ simp (
        build_container_lem malloc_ok allocates text none payload,
        text_fits payload img short room,
        fits,
      )
      | inr long ↦ simp (
        build_container_lem malloc_ok allocates text none payload,
        text_fits payload img short room,
        long,
      )
    ]
