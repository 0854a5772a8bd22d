-- ===== src/Stego/Png.antt =====
-- Loading and saving images, `png_load_rgb_or_rgba` and `png_save_rgb_or_rgba` of
-- src/server/stego.c, over libpng and the allocator as parameters. A call of libpng that leaves by
-- `longjmp` gives `none`. The file system is a function from paths to contents.
use pcd.Prelude.{
  ℕ, ◌*◌, Bool, true, false, not, ◌&&◌, ◌||◌, Option, none, some, List, [], ◌∷◌, ◌++◌, Bytes,
  bytes_eq, length, take, ltb, leb, ◌==◌, if◌then◌else◌, u64,
}
use pcd.Stego.{
  Image, ColorType, gray, palette, rgb, rgb_alpha, gray_alpha, Result, ok, err, ◌>>=◌, ◌>>◌,
  require, err_open, err_not_png, err_unsupported, err_memory, err_libpng, Status,
}

-- What `png_read_info` finds.
pub record Info : Type 0 where
  pub width : ℕ
  pub height : ℕ
  pub bit_depth : ℕ
  pub color_type : ColorType
  pub has_trns : Bool

pub data Transform : Type 0 where
  palette_to_rgb expand_gray trns_to_alpha strip_16 gray_to_rgb : Transform

-- The format after `png_read_update_info`.
pub record Format : Type 0 where
  pub bit_depth : ℕ
  pub color_type : ColorType
  pub channels : ℕ
  pub rowbytes : ℕ

-- The parts of libpng and of the C library that the source calls: whether an allocation succeeds,
-- and libpng's functions of a file's bytes.
pub record Platform : Type 0 where
  pub malloc_ok : ℕ → Bool
  pub can_write : Bytes → Bool
  pub can_seek : Bytes → Bool
  pub can_read : Bytes → Bool
  pub create_read_struct : Bool
  pub create_read_info : Bool
  pub create_write_struct : Bool
  pub create_write_info : Bool
  pub sig_cmp : Bytes → Bool
  pub read_info : Bytes → Option Info
  pub update_info : Info → List Transform → Format
  pub read_image : Bytes → List Transform → Option (List Bytes)
  pub write_image : ℕ → ℕ → ColorType → List Bytes → Option Bytes

abbrev pub Files : Type 0
Files = Bytes → Option Bytes

abbrev pub or_fail {ℓ} : {A : Type ℓ} → Option A → Status → Result A
or_fail none e = err e
or_fail (some a) e = ok a

unfoldable pub is_gray : ColorType → Bool
is_gray gray = true
is_gray _ = false

unfoldable pub is_palette : ColorType → Bool
is_palette palette = true
is_palette _ = false

unfoldable pub is_gray_alpha : ColorType → Bool
is_gray_alpha gray_alpha = true
is_gray_alpha _ = false

unfoldable pub when : Bool → Transform → List Transform
when true t = t ∷ []
when false t = []

-- The normalisation that the loader asks libpng for, in its order.
unfoldable pub transforms : Info → List Transform
unfolding is_gray is_palette is_gray_alpha when
transforms info =
    when (is_palette info.color_type) palette_to_rgb
    ++ (when (is_gray info.color_type && ltb info.bit_depth 8) expand_gray
        ++ (when info.has_trns trns_to_alpha
            ++ (when (info.bit_depth == 16) strip_16
                ++ when (is_gray info.color_type || is_gray_alpha info.color_type) gray_to_rgb)))

unfoldable pub update_file : Files → Bytes → Option Bytes → Files
update_file files path contents other = if bytes_eq path other then contents else files other

module _ (c : Platform) where
  -- `png_load_rgb_or_rgba` once the header is read: normalisation, row buffers, pixels.
  unfoldable pub load_pixels : Bytes → Info → Result Image
  load_pixels contents info = do
    let format = c.update_info info (transforms info)
    require (format.bit_depth == 8 && (format.channels == 3 || format.channels == 4))
        err_unsupported
    require (c.malloc_ok (u64 (info.height * 8))) err_memory
    require (info.height == 0 || c.malloc_ok format.rowbytes) err_memory
    rows ← or_fail (c.read_image contents (transforms info)) err_libpng
    ok (record {
      width = info.width;
      height = info.height;
      bit_depth = format.bit_depth;
      color_type = format.color_type;
      channels = format.channels;
      rows = rows;
    })

  -- `sig_cmp` is true when `png_sig_cmp` returns 0.
  unfoldable pub png_load_rgb_or_rgba : Files → Bytes → Result Image
  png_load_rgb_or_rgba files path = do
    contents ← or_fail (files path) err_open
    require (leb 8 (length contents)) err_not_png
    require (c.sig_cmp (take 8 contents)) err_not_png
    require c.create_read_struct err_memory
    require c.create_read_info err_memory
    info ← or_fail (c.read_info contents) err_libpng
    load_pixels contents info

  -- The result with the files after the call; a failure behind `fopen` unlinks the file.
  unfoldable pub png_save_rgb_or_rgba : Files → Bytes → Image → Result (Unit {0}) × Files
  unfolding update_file
  png_save_rgb_or_rgba files path img =
      let out_color_type = if img.channels == 4 then rgb_alpha else rgb in
      let dropped = update_file files path none in
      if not (c.can_write path)
      then (err err_open, files)
      else if not (c.create_write_struct && c.create_write_info)
      then (err err_memory, dropped)
      else elim (c.write_image img.width img.height out_color_type img.rows) [
        | none ↦ (err err_libpng, dropped)
        | some contents ↦ (ok tt, update_file files path (some contents))
      ]
