-- ===== src/Stego/Toy.antt =====
-- A toy image format in libpng's place, for the tests of the model of src/server/stego.c: a
-- signature, the sizes, and the rows one behind the other. It meets the stated laws.
use pcd.Prelude.{
  ℕ, zero, suc, ◌*◌, ◌^◌, ◌<◌, ◌≡◌, refl, sym, ap, subst, ◌∙◌, arith, inl, inr, Bool, true, false,
  ◌&&◌, Option, none, some, List, [], ◌∷◌, ◌++◌, Bytes, All, bytes_eq, length, take, drop,
  take-append, drop-append, ltb, ◌==◌, if◌then◌else◌, Bool-cases, Option-cases,
}
use pcd.Stego.{Image, IsLoaded, ColorType, rgb, rgb_alpha}
use pcd.Stego.Png.{Platform, Info}
use pcd.Stego.Codec.Loading.{IsLibpng, HasMemory, ReadsBack, saved_info, saved_type}
use pcd.Stego.Pixels.{IsBytes}

abbrev pub signature : Bytes
signature = 137 ∷ 80 ∷ 78 ∷ 71 ∷ 13 ∷ 10 ∷ 26 ∷ 10 ∷ []

abbrev pub concat_rows : List Bytes → Bytes
concat_rows [] = []
concat_rows (row ∷ rows) = row ++ concat_rows rows

abbrev pub chunk : ℕ → ℕ → Bytes → List Bytes
chunk zero n xs = []
chunk (suc h) n xs = take n xs ∷ chunk h n (drop n xs)

abbrev pub bytes_ok : Bytes → Bool
bytes_ok [] = true
bytes_ok (b ∷ bs) = ltb b 256 && bytes_ok bs

abbrev pub rows_ok : ℕ → List Bytes → Bool
rows_ok n [] = true
rows_ok n (row ∷ rows) = (length row == n) && (bytes_ok row && rows_ok n rows)

abbrev pub type_channels : ColorType → ℕ
type_channels rgb_alpha = 4
type_channels _ = 3

abbrev pub toy_info : ℕ → ℕ → ℕ → Info
toy_info w h channels = record {
  width = w;
  height = h;
  bit_depth = 8;
  color_type = if channels == 4 then rgb_alpha else rgb;
  has_trns = false;
}

abbrev pub toy_checked : ℕ → ℕ → ℕ → List Bytes → Option (Info × List Bytes)
toy_checked w h channels rows =
    if (ltb w (2 ^ 29) && ltb h (2 ^ 32))
      && ((length rows == h) && rows_ok (w * type_channels (toy_info w h channels).color_type) rows)
    then some (toy_info w h channels, rows)
    else none

abbrev pub toy_parse : Bytes → Option (Info × List Bytes)
toy_parse (a ∷ b ∷ c ∷ d ∷ e ∷ f ∷ g ∷ i ∷ w ∷ h ∷ channels ∷ rest) =
    toy_checked w h channels (chunk h (w * type_channels (toy_info w h channels).color_type) rest)
toy_parse _ = none

abbrev pub fst_of : Option (Info × List Bytes) → Option Info
fst_of none = none
fst_of (some (info, rows)) = some info

abbrev pub snd_of : Option (Info × List Bytes) → Option (List Bytes)
snd_of none = none
snd_of (some (info, rows)) = some rows

unfoldable pub toy : Platform
toy = record {
  malloc_ok = λ n. true;
  can_write = λ path. true;
  can_seek = λ path. true;
  can_read = λ path. true;
  create_read_struct = true;
  create_read_info = true;
  create_write_struct = true;
  create_write_info = true;
  sig_cmp = λ sig. bytes_eq sig signature;
  read_info = λ png. fst_of (toy_parse png);
  update_info = λ info ts. record {
    bit_depth = info.bit_depth;
    color_type = info.color_type;
    channels = type_channels info.color_type;
    rowbytes = info.width * type_channels info.color_type;
  };
  read_image = λ png ts. snd_of (toy_parse png);
  write_image = λ w h ct rows. some (signature ++ (w ∷ h ∷ type_channels ct ∷ concat_rows rows));
}

pub toy-HasMemory : HasMemory toy
unfolding toy
toy-HasMemory = record { allocates = λ n. refl; read_struct = refl; read_info_struct = refl }

chunk-concat :
    (rows : List Bytes) (h n : ℕ)
    → length rows ≡ h
    → All (λ row. length row ≡ n) rows
    → chunk h n (concat_rows rows) ≡ rows
chunk-concat [] zero n e a = refl
chunk-concat [] (suc h) n e a = absurd (omega arith)
chunk-concat (row ∷ rows) zero n e a = absurd (omega arith)
chunk-concat (row ∷ rows) (suc h) n e (a, rest) =
    rw (sym a, take-append row (concat_rows rows), drop-append row (concat_rows rows))
      (ap (◌∷◌ row)
        (ap (λ (k : ℕ). chunk h k (concat_rows rows)) a ∙ chunk-concat rows h n (omega arith) rest))

bytes_ok_iff : (bs : Bytes) → (IsBytes bs → bytes_ok bs ≡ true) × (bytes_ok bs ≡ true → IsBytes bs)
bytes_ok_iff [] = (λ _. refl, λ _. tt)
bytes_ok_iff (b ∷ bs) =
    (λ h. ground (arith, (bytes_ok_iff bs).0 h.1), λ h. ground (arith, (bytes_ok_iff bs).1))

rows_ok_complete :
    (n : ℕ) (rows : List Bytes)
    → All (λ row. length row ≡ n) rows
    → All IsBytes rows
    → rows_ok n rows ≡ true
rows_ok_complete n [] a b = refl
rows_ok_complete n (row ∷ rows) (a, rest) (b, bytes) =
    ground (arith, rows_ok_complete n rows rest bytes, (bytes_ok_iff row).0 b)

rows_ok_sound :
    (n : ℕ) (rows : List Bytes)
    → rows_ok n rows ≡ true
    → All (λ row. length row ≡ n) rows × All IsBytes rows
rows_ok_sound n [] h = (tt, tt)
rows_ok_sound n (row ∷ rows) h = elim (Bool-cases (bytes_ok row)) [
  | inl fine ↦ (
    (ground arith, (rows_ok_sound n rows (ground arith)).0),
    ((bytes_ok_iff row).1 fine, (rows_ok_sound n rows (ground arith)).1),
  )
  | inr bad ↦ absurd (ground arith)
]

if-eq-some {ℓ} :
    {A : Type ℓ} (c : Bool) (x y : A) → (if c then some x else none) ≡ some y → (c ≡ true) × (x ≡ y)
if-eq-some true x y h = (refl, cc)
if-eq-some false x y h = absurd (ground arith)

toy_checked_sound :
    (w h channels : ℕ) (found : List Bytes) (info : Info) (rows : List Bytes)
    → toy_checked w h channels found ≡ some (info, rows)
    → (info.width < 2 ^ 29)
      × (info.height < 2 ^ 32)
      × (length rows ≡ info.height)
      × (rows_ok (info.width * type_channels info.color_type) rows ≡ true)
toy_checked_sound w h channels found info rows e =
    let (checks, same) = if-eq-some _ _ _ e in
    subst
      (λ (r : Info × List Bytes).
        (r.0.width < 2 ^ 29)
        × (r.0.height < 2 ^ 32)
        × (length r.1 ≡ r.0.height)
        × (rows_ok (r.0.width * type_channels r.0.color_type) r.1 ≡ true))
      same (sizes_of _ _ _ _ checks)
  where
    sizes_of :
        (a b : ℕ) (c : Bool) (n : ℕ)
        → ((ltb a (2 ^ 29) && ltb b (2 ^ 32)) && ((n == b) && c)) ≡ true
        → (a < 2 ^ 29) × (b < 2 ^ 32) × (n ≡ b) × (c ≡ true)
    sizes_of a b c n h = ground arith

toy_parse-write :
    (img : Image)
    → IsLoaded img
    → toy_parse (
        signature
        ++ (img.width ∷ img.height ∷ type_channels (saved_type img) ∷ concat_rows img.rows))
      ≡ some (saved_info img, img.rows)
toy_parse-write img h = elim h.rgb_or_rgba [
  | inl three ↦
      let sizes =
        subst (λ (k : ℕ). All (λ row. length row ≡ img.width * k) img.rows) three h.row_sizes in
      simp
        (
          three,
          chunk-concat img.rows img.height (img.width * 3) h.row_count sizes,
          rows_ok_complete (img.width * 3) img.rows sizes h.row_bytes,
          h.row_count,
        )
        (ground arith)
  | inr four ↦
      let sizes =
        subst (λ (k : ℕ). All (λ row. length row ≡ img.width * k) img.rows) four h.row_sizes in
      simp
        (
          four,
          chunk-concat img.rows img.height (img.width * 4) h.row_count sizes,
          rows_ok_complete (img.width * 4) img.rows sizes h.row_bytes,
          h.row_count,
        )
        (ground arith)
]

toy_parse_sound :
    (png : Bytes) (info : Info) (rows : List Bytes)
    → toy_parse png ≡ some (info, rows)
    → (info.width < 2 ^ 29)
      × (info.height < 2 ^ 32)
      × (length rows ≡ info.height)
      × (rows_ok (info.width * type_channels info.color_type) rows ≡ true)
toy_parse_sound (a ∷ b ∷ c ∷ d ∷ e ∷ f ∷ g ∷ i ∷ w ∷ h ∷ channels ∷ rest) info rows eq =
    toy_checked_sound w h channels _ info rows eq
toy_parse_sound _ info rows eq = absurd (ground arith)

abbrev pub toy_png : Image → Bytes
toy_png img =
    signature ++ (img.width ∷ img.height ∷ type_channels (saved_type img) ∷ concat_rows img.rows)

type_channels-saved : (img : Image) → IsLoaded img → type_channels (saved_type img) ≡ img.channels
type_channels-saved img h = elim h.rgb_or_rgba [ inl three ↦ rw three | inr four ↦ rw four ]

toy-ReadsBack : (img : Image) → IsLoaded img → ReadsBack toy img (toy_png img)
unfolding toy bytes_eq
toy-ReadsBack img h = record {
  long = omega arith;
  signed = refl;
  info = ap fst_of (toy_parse-write img h);
  format = rw (type_channels-saved img h);
  rows = ap snd_of (toy_parse-write img h);
}

toy-found :
    (png : Bytes) (info : Info)
    → fst_of (toy_parse png) ≡ some info
    → (rows : List Bytes) × (toy_parse png ≡ some (info, rows))
toy-found png info e = elim (Option-cases (toy_parse png)) [
  | inl lost ↦ absurd (ground arith)
  | inr ((i, rows), found) ↦ (rows, ground arith)
]

same_rows :
    (png : Bytes) (info : Info) (rows others : List Bytes)
    → toy_parse png ≡ some (info, rows)
    → snd_of (toy_parse png) ≡ some others
    → rows ≡ others
same_rows png info rows others e h = some-eq (sym (ap snd_of e) ∙ h)
  where
    some-eq : some rows ≡ some others → rows ≡ others
    some-eq p = cc

pub toy-IsLibpng : IsLibpng toy
unfolding toy
toy-IsLibpng = record {
  lossless = λ img png h written. subst (ReadsBack toy img) (cc) (toy-ReadsBack img h);
  limits = λ png info found.
      let (rows, whole) = toy-found png info found in
      let (w, h, _, _) = toy_parse_sound png info rows whole in (w, h);
  rowbytes = λ info ts deep. refl;
  shape = λ png info ts rows found read.
      let (others, whole) = toy-found png info found in
      let same : others ≡ rows = same_rows png info others rows whole read in
      let (_, _, count, fine) = toy_parse_sound png info others whole in
      let sound = rows_ok_sound (info.width * type_channels info.color_type) others fine in
      subst
        (λ (r : List Bytes).
          (length r ≡ info.height)
          × All (λ row. length row ≡ info.width * type_channels info.color_type) r
          × All IsBytes r)
        same (count, sound.0, sound.1);
}
