-- ===== src/PngUtils.antt =====
-- src/server/png_utils.c: the metadata of a PNG file and an estimate of its capacity, over libpng
-- as a parameter. Null pointers are not modelled.
use pcd.Prelude.{
  ℕ, ◌*◌, ◌-◌, ◌/◌, Bool, false, not, ◌||◌, Option, none, some, Bytes, codes, length, take, ltb,
  ◌==◌, if◌then◌else◌, u64,
}
use pcd.Stego.{ColorType, gray, palette, rgb, rgb_alpha, gray_alpha, other_type}
use pcd.Stego.Png.{Platform, Files, Info}

-- `png_metadata_t`.
pub record PngMetadata : Type 0 where
  pub width : ℕ
  pub height : ℕ
  pub bit_depth : ℕ
  pub color_type : ColorType
  pub channels : ℕ

-- Whether a call of `fopen` finds a file; `none` for -1.
module _ (c : Platform) where
  unfoldable pub is_png_signature_valid : Files → Bytes → Option Bool
  is_png_signature_valid files path = elim (files path) [
    | none ↦ none
    | some contents ↦
        if ltb (length contents) 8 then some false else some (c.sig_cmp (take 8 contents))
  ]

  -- `get_channels` is `png_get_channels` behind `png_read_info`.
  unfoldable pub png_read_metadata : (Info → ℕ) → Files → Bytes → Option PngMetadata
  png_read_metadata get_channels files path = elim (files path) [
    | none ↦ none
    | some contents ↦
        if ltb (length contents) 8 || not (c.sig_cmp (take 8 contents))
        then none
        else if not c.create_read_struct || not c.create_read_info
        then none
        else elim (c.read_info contents) [
          | none ↦ none
          | some info ↦ some (record {
            width = info.width;
            height = info.height;
            bit_depth = info.bit_depth;
            color_type = info.color_type;
            channels = get_channels info;
          })
        ]
  ]

unfoldable pub png_calculate_lsb_capacity_bytes : PngMetadata → Option ℕ
png_calculate_lsb_capacity_bytes metadata =
    let total_bytes = u64 (u64 (metadata.width * metadata.height) * metadata.channels) / 8 in
    if (metadata.width == 0) || (metadata.height == 0) || (metadata.channels == 0)
    then none
    else if not (metadata.bit_depth == 8)
    then none
    else some (if ltb 16 total_bytes then total_bytes - 16 else 0)

unfoldable pub analyze_png_capacity_simple : Platform → (Info → ℕ) → Files → Bytes → Option ℕ
analyze_png_capacity_simple c get_channels files path =
    elim (png_read_metadata c get_channels files path) [
      | none ↦ none
      | some metadata ↦ png_calculate_lsb_capacity_bytes metadata
    ]

unfoldable pub png_color_type_to_string : ColorType → Bytes
png_color_type_to_string gray = codes "GRAY"
png_color_type_to_string gray_alpha = codes "GRAY_ALPHA"
png_color_type_to_string palette = codes "PALETTE"
png_color_type_to_string rgb = codes "RGB"
png_color_type_to_string rgb_alpha = codes "RGBA"
png_color_type_to_string (other_type n) = codes "UNKNOWN"
