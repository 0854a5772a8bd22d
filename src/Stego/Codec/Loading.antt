-- ===== src/Stego/Codec/Loading.antt =====
-- Loading an image, for src/server/stego.c: what the source relies on in libpng (documented: PNG is
-- lossless at 8 bits, rows have `rowbytes` bytes, a side is at most 1,000,000), and what the loader
-- then guarantees.
use pcd.Prelude.{
  ℕ, ◌*◌, ◌^◌, ◌≤◌, ◌<◌, ◌≡◌, subst, arith, ◌⊎◌, inl, inr, true, false, some, List, [], Bytes, All,
  length, take, ◌==◌, if◌then◌else◌, Option-cases,
}
use pcd.Stego.{Image, IsLoaded, ColorType, rgb, rgb_alpha, ok}
use pcd.Stego.Pixels.{IsBytes}
use pcd.Stego.Png.{Platform, Files, Info, Transform, transforms, load_pixels, png_load_rgb_or_rgba}

abbrev pub saved_type : Image → ColorType
saved_type img = if img.channels == 4 then rgb_alpha else rgb

abbrev pub saved_info : Image → Info
saved_info img = record {
  width = img.width;
  height = img.height;
  bit_depth = 8;
  color_type = saved_type img;
  has_trns = false;
}

-- What is read of the bytes that `png_write_image` made of an image.
pub record ReadsBack (c : Platform) (img : Image) (png : Bytes) : Type 0 where
  pub long : 8 ≤ length png
  pub signed : c.sig_cmp (take 8 png) ≡ true
  pub info : c.read_info png ≡ some (saved_info img)
  pub format : c.update_info (saved_info img) [] ≡ record {
    bit_depth = 8;
    color_type = saved_type img;
    channels = img.channels;
    rowbytes = img.width * img.channels;
  }
  pub rows : c.read_image png [] ≡ some img.rows

-- Documented behaviour of libpng.
pub record IsLibpng (c : Platform) : Type 0 where
  pub lossless :
      (img : Image) (png : Bytes)
      → IsLoaded img
      → c.write_image img.width img.height (saved_type img) img.rows ≡ some png
      → ReadsBack c img png
  pub limits :
      (png : Bytes) (info : Info)
      → c.read_info png ≡ some info
      → (info.width < 2 ^ 29) × (info.height < 2 ^ 32)
  pub rowbytes :
      (info : Info) (ts : List Transform)
      → (c.update_info info ts).bit_depth ≡ 8
      → (c.update_info info ts).rowbytes ≡ info.width * (c.update_info info ts).channels
  pub shape :
      (png : Bytes) (info : Info) (ts : List Transform) (rows : List Bytes)
      → c.read_info png ≡ some info
      → c.read_image png ts ≡ some rows
      → (length rows ≡ info.height)
        × All (λ row. length row ≡ (c.update_info info ts).rowbytes) rows
        × All IsBytes rows

-- Every allocation succeeds.
pub record HasMemory (c : Platform) : Type 0 where
  pub allocates : (n : ℕ) → c.malloc_ok n ≡ true
  pub read_struct : c.create_read_struct ≡ true
  pub read_info_struct : c.create_read_info ≡ true

abbrev loaded_image : (c : Platform) → Info → List Bytes → Image
loaded_image c info rows = record {
  width = info.width;
  height = info.height;
  bit_depth = (c.update_info info (transforms info)).bit_depth;
  color_type = (c.update_info info (transforms info)).color_type;
  channels = (c.update_info info (transforms info)).channels;
  rows = rows;
}

load_pixels_cases :
    (c : Platform) (contents : Bytes) (info : Info) (rows : List Bytes) (img : Image)
    → c.read_image contents (transforms info) ≡ some rows
    → load_pixels c contents info ≡ ok img
    → ((c.update_info info (transforms info)).bit_depth ≡ 8)
      × (((c.update_info info (transforms info)).channels ≡ 3)
          ⊎ ((c.update_info info (transforms info)).channels ≡ 4))
      × (loaded_image c info rows ≡ img)
unfolding load_pixels
load_pixels_cases c contents info rows img read e = ground arith

load_pixels-IsLoaded :
    (c : Platform) (contents : Bytes) (info : Info) (img : Image)
    → IsLibpng c
    → c.read_info contents ≡ some info
    → load_pixels c contents info ≡ ok img
    → IsLoaded img
unfolding load_pixels
load_pixels-IsLoaded c contents info img lib found e =
    elim (Option-cases (c.read_image contents (transforms info))) [
      | inl failed ↦ absurd (ground arith)
      | inr (rows, read) ↦
          let (deep, rgb_or_rgba, same) = load_pixels_cases c contents info rows img read e in
          let (count, sizes, bytes) = lib.shape contents info (transforms info) rows found read in
          let (w, h) = lib.limits contents info found in
          subst IsLoaded same (record {
            rgb_or_rgba = rgb_or_rgba;
            row_count = count;
            row_sizes =
                subst (λ (n : ℕ). All (λ row. length row ≡ n) rows)
                  (lib.rowbytes info (transforms info) deep) sizes;
            row_bytes = bytes;
            width_fits = w;
            height_fits = h;
          })
    ]

png_load_cases :
    (c : Platform) (files : Files) (path : Bytes) (img : Image)
    → png_load_rgb_or_rgba c files path ≡ ok img
    → (contents : Bytes) × (info : Info) × (c.read_info contents ≡ some info)
      × (load_pixels c contents info ≡ ok img)
unfolding png_load_rgb_or_rgba
png_load_cases c files path img e = elim (Option-cases (files path)) [
  | inl none_open ↦ absurd (ground arith)
  | inr (contents, opened) ↦ elim (Option-cases (c.read_info contents)) [
    | inl none_read ↦ absurd (ground arith)
    | inr (info, found) ↦ (contents, info, found, ground arith)
  ]
]

-- What the loader returns, over a libpng that keeps its promises, is a loaded image: RGB or RGBA,
-- rows of the stated number and size, bytes in every pixel.
pub png_load-IsLoaded :
    (c : Platform) (files : Files) (path : Bytes) (img : Image)
    → IsLibpng c
    → png_load_rgb_or_rgba c files path ≡ ok img
    → IsLoaded img
png_load-IsLoaded c files path img lib e =
    let (contents, info, found, loaded) = png_load_cases c files path img e in
    load_pixels-IsLoaded c contents info img lib found loaded
