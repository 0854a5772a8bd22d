-- ===== src/Protocol/Number.antt =====
-- The numbers of src/server/protocol.c: the C library's `strtoull` in base ten, and `parse_u64`.
use pcd.Prelude.{
  ℕ, ◌+◌, ◌-◌, ◌*◌, ◌^◌, ◌≤◌, ◌<◌, ◌≡◌, refl, sym, ap, ◌∙◌, arith, Bool, true, false, not, ◌&&◌,
  ◌||◌, Option, none, some, [], ◌∷◌, ◌++◌, Bytes, All, subst, decimal, decimal-cons, digits-decimal,
  spelled, spelled-decimal, IsDigit, ltb, leb, ◌==◌, if◌then◌else◌, u64,
}

unfoldable pub is_digit : ℕ → Bool
is_digit c = leb 48 c && ltb c 58

-- `isspace`.
unfoldable pub is_space : ℕ → Bool
is_space c = (c == 32) || (leb 9 c && leb c 13)

unfoldable pub skip_space : Bytes → Bytes
skip_space [] = []
skip_space (c ∷ s) = elim (is_space c) [ true ↦ skip_space s | false ↦ c ∷ s ]

-- `skip_ws` of the source: blanks and tabulators only.
unfoldable pub skip_ws : Bytes → Bytes
skip_ws [] = []
skip_ws (c ∷ s) = elim ((c == 32) || (c == 9)) [ true ↦ skip_ws s | false ↦ c ∷ s ]

unfoldable pub read_digits : ℕ → Bytes → ℕ × Bytes
read_digits n [] = (n, [])
read_digits n (c ∷ s) = elim (is_digit c) [
  | true ↦ read_digits (n * 10 + (c - 48)) s
  | false ↦ (n, c ∷ s)
]

-- The value, the text not consumed, whether there was a digit, and whether ERANGE was set.
pub record Converted : Type 0 where
  pub value : ℕ
  pub tail : Bytes
  pub converted : Bool
  pub range_error : Bool

unfoldable pub unsigned : Bytes → Bool → Bytes → Converted
unsigned whole negative [] = record {
  value = 0;
  tail = whole;
  converted = false;
  range_error = false;
}
unsigned whole negative (c ∷ s) =
    let (n, tail) = read_digits 0 (c ∷ s) in
    let large = leb (2 ^ 64) n in
    if is_digit c
    then record {
      value = if large then 2 ^ 64 - 1 else if negative then u64 (2 ^ 64 - n) else n;
      tail = tail;
      converted = true;
      range_error = large;
    }
    else record { value = 0; tail = whole; converted = false; range_error = false }

unfoldable pub signed : Bytes → Bytes → Converted
signed whole [] = unsigned whole false []
signed whole (c ∷ s) =
    if c == b'-'
    then unsigned whole true s
    else if c == b'+'
    then unsigned whole false s
    else unsigned whole false (c ∷ s)

unfoldable pub strtoull : Bytes → Converted
strtoull text = signed text (skip_space text)

-- The number and what stands behind it; `none` for -1.
unfoldable pub parse_u64 : Bytes → Option (ℕ × Bytes)
unfolding strtoull
parse_u64 s =
    let v = strtoull s in if v.range_error || not v.converted then none else some (v.value, v.tail)

-- A text that does not go on with a digit.
abbrev pub Stops : Bytes → Type 0
Stops [] = Unit
Stops (c ∷ s) = is_digit c ≡ false

is_digit-IsDigit : (c : ℕ) → 48 ≤ c → c < 58 → is_digit c ≡ true
unfolding is_digit
is_digit-IsDigit c lo hi = ground arith

digit_no_space : (c : ℕ) → 48 ≤ c → c < 58 → is_space c ≡ false
unfolding is_space
digit_no_space c lo hi = ground arith

pub read_digits-append :
    (n : ℕ) (digits rest : Bytes)
    → All IsDigit digits
    → Stops rest
    → read_digits n (digits ++ rest) ≡ (spelled n digits, rest)
unfolding read_digits
read_digits-append n [] [] h stops = refl
read_digits-append n [] (c ∷ rest) h stops = rw (read_digits, stops) refl
read_digits-append n (c ∷ digits) rest ((lo, hi), h) stops =
    rw (read_digits, is_digit-IsDigit c lo hi)
      (read_digits-append (n * 10 + (c - 48)) digits rest h stops)

strtoull_lem : (text : Bytes) → strtoull text ≡ signed text (skip_space text)
unfolding strtoull
strtoull_lem text = refl

unsigned-digits :
    (n c : ℕ) (whole digits rest : Bytes)
    → All IsDigit (c ∷ digits)
    → Stops rest
    → spelled 0 (c ∷ digits) ≡ n
    → n < 2 ^ 64
    → unsigned whole false (c ∷ (digits ++ rest))
      ≡ record { value = n; tail = rest; converted = true; range_error = false }
unfolding unsigned
unsigned-digits n c whole digits rest ((lo, hi), h) stops spells small =
    let large : leb (2 ^ 64) n ≡ false = ground arith in
    let scan : read_digits 0 (c ∷ (digits ++ rest)) ≡ (n, rest) =
      read_digits-append 0 (c ∷ digits) rest ((lo, hi), h) stops
      ∙ ap (λ (v : ℕ). (v, rest)) spells in
    rw (unsigned, scan, is_digit-IsDigit c lo hi, large) refl

signed-digit :
    (c : ℕ) (whole s : Bytes) → 48 ≤ c → signed whole (c ∷ s) ≡ unsigned whole false (c ∷ s)
unfolding signed
signed-digit c whole s lo =
    let minus : (c == b'-') ≡ false = ground arith in
    let plus : (c == b'+') ≡ false = ground arith in rw (signed, minus, plus) refl

pub skip_space-digit : (c : ℕ) (s : Bytes) → 48 ≤ c → c < 58 → skip_space (c ∷ s) ≡ c ∷ s
unfolding skip_space
skip_space-digit c s lo hi = rw (skip_space, digit_no_space c lo hi) refl

strtoull-digits :
    (n c : ℕ) (digits rest : Bytes)
    → All IsDigit (c ∷ digits)
    → Stops rest
    → spelled 0 (c ∷ digits) ≡ n
    → n < 2 ^ 64
    → strtoull (c ∷ (digits ++ rest))
      ≡ record { value = n; tail = rest; converted = true; range_error = false }
strtoull-digits n c digits rest ((lo, hi), h) stops spells small =
    let text = c ∷ (digits ++ rest) in
    strtoull_lem text
    ∙ ap (signed text) (skip_space-digit c (digits ++ rest) lo hi)
    ∙ signed-digit c text (digits ++ rest) lo
    ∙ unsigned-digits n c text digits rest ((lo, hi), h) stops spells small

-- `strtoull` reads back the decimal text of a 64-bit word, up to what follows it.
pub strtoull-decimal :
    (n : ℕ) (rest : Bytes)
    → n < 2 ^ 64
    → Stops rest
    → strtoull (decimal n ++ rest)
      ≡ record { value = n; tail = rest; converted = true; range_error = false }
strtoull-decimal n rest small stops =
    let (c, digits, text) = decimal-cons n in
    rw text (
      strtoull-digits n c digits rest (subst (All IsDigit) text (digits-decimal n)) stops
        (ap (spelled 0) (sym text) ∙ spelled-decimal n small) small)

pub parse_u64-decimal :
    (n : ℕ) (rest : Bytes)
    → n < 2 ^ 64
    → Stops rest
    → parse_u64 (decimal n ++ rest) ≡ some (n, rest)
unfolding parse_u64
parse_u64-decimal n rest small stops = rw (parse_u64, strtoull-decimal n rest small stops) refl

-- The blank between two sizes.
pub skip_ws-decimal :
    (n : ℕ) (rest : Bytes) → skip_ws (b' ' ∷ (decimal n ++ rest)) ≡ decimal n ++ rest
unfolding skip_ws
skip_ws-decimal n rest =
    let (c, digits, text) = decimal-cons n in
    let ((lo, hi), others) = subst (All IsDigit) text (digits-decimal n) in
    let blank : ((c == 32) || (c == 9)) ≡ false = ground arith in rw text (rw (skip_ws, blank) refl)
