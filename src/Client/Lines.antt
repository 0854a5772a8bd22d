-- ===== src/Client/Lines.antt =====
-- The lines of src/client/main.c end with their newline, and hold no other and no terminator.
use pcd.Prelude.{
  ℕ, ◌≡◌, ◌≢◌, refl, ap, arith, Bool, true, false, not, ◌&&◌, [], ◌∷◌, ◌++◌, Bytes, All, All-append,
  IsDigit, codes, decimal, digits-decimal, c_string, ◌==◌,
}
use pcd.Client.{
  ClientLine, ping_line, quit_line, status_line, result_line, meta_line, download_line,
  encode_text_line, encode_file_line, decode_line, capacity_line, validate_line, line_text,
}

-- Neither a newline nor the terminator of a C string.
pub record Plain (ch : ℕ) : Type 0 where
  pub no_newline : ch ≢ b'\n'
  pub no_terminator : ch ≢ 0

unfoldable pub is_plain : Bytes → Bool
is_plain [] = true
is_plain (ch ∷ text) = (not (ch == b'\n') && not (ch == 0)) && is_plain text

pub is_plain-Plain : (text : Bytes) → is_plain text ≡ true → All Plain text
unfolding is_plain
is_plain-Plain [] e = tt
is_plain-Plain (ch ∷ text) e = (
  record {
    no_newline = λ same. ground (arith, same, e);
    no_terminator = λ same. ground (arith, same, e);
  },
  is_plain-Plain text (ground (arith, e)),
)

digits-Plain : (text : Bytes) → All IsDigit text → All Plain text
digits-Plain [] digits = tt
digits-Plain (ch ∷ text) ((low, high), digits) = (
  record {
    no_newline = λ same. ground (arith, same, low);
    no_terminator = λ same. ground (arith, same, low);
  },
  digits-Plain text digits,
)

pub number-Plain : (n : ℕ) → All Plain (decimal n)
number-Plain n = digits-Plain (decimal n) (digits-decimal n)

named-Plain : (name : Bytes) (n : ℕ) → is_plain name ≡ true → All Plain (name ++ decimal n)
named-Plain name n e = All-append Plain name (decimal n) (is_plain-Plain name e) (number-Plain n)

sizes-Plain : (a : ℕ) (text : Bytes) → All Plain text → All Plain (decimal a ++ (b' ' ∷ text))
unfolding is_plain
sizes-Plain a text plain =
    All-append Plain (decimal a) (b' ' ∷ text) (number-Plain a)
      ((is_plain-Plain (b' ' ∷ []) refl).0, plain)

pub line_text-Plain : (line : ClientLine) → All Plain (line_text line)
unfolding line_text is_plain
line_text-Plain ping_line = is_plain-Plain (codes "PING") refl
line_text-Plain quit_line = is_plain-Plain (codes "QUIT") refl
line_text-Plain (status_line a) = named-Plain (codes "STATUS ") a refl
line_text-Plain (result_line a) = named-Plain (codes "RESULT ") a refl
line_text-Plain (meta_line a) = named-Plain (codes "META ") a refl
line_text-Plain (download_line a) = named-Plain (codes "DOWNLOAD ") a refl
line_text-Plain (encode_text_line a b) =
    All-append Plain (codes "ENCODE_TEXT ") (decimal a ++ (b' ' ∷ decimal b))
      (is_plain-Plain (codes "ENCODE_TEXT ") refl) (sizes-Plain a (decimal b) (number-Plain b))
line_text-Plain (encode_file_line a b c) =
    All-append Plain (codes "ENCODE_FILE ")
      (decimal a ++ (b' ' ∷ (decimal b ++ (b' ' ∷ decimal c))))
      (is_plain-Plain (codes "ENCODE_FILE ") refl)
      (sizes-Plain a (decimal b ++ (b' ' ∷ decimal c)) (sizes-Plain b (decimal c) (number-Plain c)))
line_text-Plain (decode_line a) = named-Plain (codes "DECODE ") a refl
line_text-Plain (capacity_line a) = named-Plain (codes "CAPACITY ") a refl
line_text-Plain (validate_line a) = named-Plain (codes "VALIDATE ") a refl

pub Plain-newline : (text : Bytes) → All Plain text → All (λ ch. ch ≢ b'\n') text
Plain-newline [] plain = tt
Plain-newline (ch ∷ text) (one, plain) = (one.no_newline, Plain-newline text plain)

pub c_string-line :
    (text : Bytes) → All Plain text → c_string (text ++ (b'\n' ∷ [])) ≡ text ++ (b'\n' ∷ [])
unfolding c_string
c_string-line [] plain = refl
c_string-line (ch ∷ text) (one, plain) =
    let other : (ch == 0) ≡ false = ground (arith, one.no_terminator) in
    rw (c_string, other) (ap (◌∷◌ ch) (c_string-line text plain))
