-- ===== src/Stego/Examples.antt =====
-- Tests of the model of src/server/stego.c, and its theorems at concrete inputs.
use pcd.Prelude.{
  leb, length, ◌≡◌, refl, arith, true, none, some, [], bytes_eq, codes, replicate, if◌then◌else◌,
  inl,
}
use pcd.Stego.{
  err_capacity, Image, IsLoaded, rgb, ok, err, image_data_bit_capacity, data_channels, embed_bits,
  extract_bits,
}
use pcd.Stego.Png.{
  Files, png_load_rgb_or_rgba, load_pixels, transforms, png_save_rgb_or_rgba, update_file,
}
use pcd.Stego.Crc.{stego_crc32, crc32_bitwise, stego_crc32-bitwise}
use pcd.Stego.Container.{
  text, file, stored_name, container_body, build_container, write_be16, write_be32,
}
use pcd.Stego.Shape.{capacity-slots}
use pcd.Stego.Slots.{slots}
use pcd.Stego.Embedding.{extract_bits-embed_bits}
use pcd.Stego.Invisible.{RowsUnchanged, embed_bits-RowsUnchanged}
use pcd.Stego.Codec.{
  payload_max_bytes, stego_encode_text, stego_encode_file, stego_decode, encode_common,
  encode_image, read_payload, decode_image,
}
use pcd.Stego.Codec.Fits.{encode_image-payload_max_bytes}
use pcd.Stego.Codec.Parts.{container}
use pcd.Stego.Codec.RoundTrip.{decode_image-encode_image}
use pcd.Stego.Codec.Transfer.{stego_decode-encode_text, stego_decode-encode_file}
use pcd.Stego.Codec.Loading.{png_load-IsLoaded}
use pcd.Stego.Toy.{toy, toy_png, toy-IsLibpng, toy-HasMemory}

abbrev carrier : Image
carrier = record {
  width = 10;
  height = 7;
  bit_depth = 8;
  color_type = rgb;
  channels = 3;
  rows = replicate 7 (replicate 30 200);
}

abbrev disk : Files
disk path =
    if bytes_eq path (codes "in.png")
    then some (toy_png carrier)
    else if bytes_eq path (codes "note")
    then some (codes "hi!")
    else none

abbrev written : Files
written = (stego_encode_text toy disk (codes "in.png") (codes "out.png") (codes "secret")).1

encodes :
    stego_encode_text toy disk (codes "in.png") (codes "out.png") (codes "secret")
    ≡ (ok tt, written)
unfolding stego_encode_text encode_common png_load_rgb_or_rgba load_pixels transforms encode_image
    build_container stored_name container_body write_be16 write_be32 image_data_bit_capacity
    data_channels embed_bits png_save_rgb_or_rgba update_file bytes_eq toy
encodes = refl

stego_decode-encode_text_example :
    stego_decode toy written (codes "out.png")
    ≡ ok (record { kind = text; filename = []; payload = codes "secret" })
stego_decode-encode_text_example =
    stego_decode-encode_text toy disk written (codes "in.png") (codes "out.png") (codes "secret")
      toy-IsLibpng toy-HasMemory (omega arith) (omega arith) encodes

carrier-IsLoaded : IsLoaded carrier
carrier-IsLoaded = record {
  rgb_or_rgba = inl refl;
  row_count = refl;
  row_sizes = omega arith;
  row_bytes = omega arith;
  width_fits = omega arith;
  height_fits = omega arith;
}

abbrev file_written : Files
file_written =
    (stego_encode_file toy disk (codes "in.png") (codes "out.png") (codes "note")
      (some (codes "note.txt"))).1

encodes_file :
    stego_encode_file toy disk
      (codes "in.png")
      (codes "out.png")
      (codes "note")
      (some (codes "note.txt"))
    ≡ (ok tt, file_written)
unfolding stego_encode_file read_payload encode_common png_load_rgb_or_rgba load_pixels transforms
    encode_image build_container stored_name container_body write_be16 write_be32
    image_data_bit_capacity data_channels embed_bits png_save_rgb_or_rgba update_file bytes_eq toy
encodes_file = refl

on_disk : disk (codes "note") ≡ some (codes "hi!")
unfolding bytes_eq
on_disk = refl

stego_decode-encode_file_example :
    stego_decode toy file_written (codes "out.png")
    ≡ ok (record { kind = file; filename = codes "note.txt"; payload = codes "hi!" })
stego_decode-encode_file_example =
    stego_decode-encode_file toy disk file_written (codes "in.png") (codes "out.png") (codes "note")
      (codes "note.txt") (codes "hi!") toy-IsLibpng toy-HasMemory (omega arith) (omega arith)
      (omega arith) on_disk encodes_file

carrier-loads : png_load_rgb_or_rgba toy disk (codes "in.png") ≡ ok carrier
unfolding png_load_rgb_or_rgba load_pixels transforms bytes_eq toy
carrier-loads = refl

png_load-IsLoaded_example : IsLoaded carrier
png_load-IsLoaded_example =
    png_load-IsLoaded toy disk (codes "in.png") carrier toy-IsLibpng carrier-loads

abbrev encoded_image : Image
encoded_image = elim (encode_image (λ n. true) text none (codes "pcd") carrier) [
  | ok img ↦ img
  | err e ↦ carrier
]

encodes_image : encode_image (λ n. true) text none (codes "pcd") carrier ≡ ok encoded_image
unfolding encode_image build_container stored_name container_body write_be16 write_be32
    image_data_bit_capacity data_channels embed_bits
encodes_image = refl

stored_name-none : stored_name text none ≡ []
unfolding stored_name
stored_name-none = refl

decode_image-encode_image_example :
    decode_image (λ n. true) encoded_image
    ≡ ok (record { kind = text; filename = stored_name text none; payload = codes "pcd" })
unfolding stored_name
decode_image-encode_image_example =
    decode_image-encode_image (λ n. true) text none (codes "pcd") carrier encoded_image (λ n. refl)
      carrier-IsLoaded tt (omega arith) (omega arith) encodes_image

carrier_capacity : image_data_bit_capacity carrier ≡ 210
unfolding image_data_bit_capacity data_channels
carrier_capacity = refl

extract_bits-embed_bits_example : extract_bits (embed_bits carrier (codes "key")) 2 ≡ codes "ke"
extract_bits-embed_bits_example =
    extract_bits-embed_bits carrier (codes "key") 2 carrier-IsLoaded (omega arith) (omega arith)
      (omega (arith, carrier_capacity))

capacity-slots_example :
    image_data_bit_capacity carrier ≡ length (slots carrier.channels carrier.rows)
capacity-slots_example = capacity-slots carrier carrier-IsLoaded

stego_crc32-bitwise_example : stego_crc32 (codes "123456789") ≡ crc32_bitwise (codes "123456789")
stego_crc32-bitwise_example = stego_crc32-bitwise (codes "123456789") (omega arith)

embed_bits-RowsUnchanged_example :
    RowsUnchanged 3 (replicate 7 (replicate 30 200)) (embed_bits carrier (codes "key")).rows
embed_bits-RowsUnchanged_example = embed_bits-RowsUnchanged carrier (codes "key") carrier-IsLoaded

encode_image-payload_max_bytes_example :
    encode_image (λ n. true) text none (codes "pcd") carrier ≡ (
      if leb 3 (payload_max_bytes carrier)
      then ok (embed_bits carrier (container text [] (codes "pcd")))
      else err err_capacity)
encode_image-payload_max_bytes_example =
    encode_image-payload_max_bytes (λ n. true) (codes "pcd") carrier (λ n. refl) (omega arith)
      (omega (arith, carrier_capacity))
