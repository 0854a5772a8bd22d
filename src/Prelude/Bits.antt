-- ===== src/Prelude/Bits.antt =====
-- Facts about the bit operations at variables: the lowest digit, masks, and disjoint fields.
use Prim.Native.Nat.{
  ℕ, zero, suc, ◌+◌, ◌*◌, ◌/◌, ◌%◌, ◌^◌, ◌≤◌, ◌<◌, min, max, bit_and, bit_or, digits, bitwise,
  bit_and-bitwise, bit_or-bitwise,
}
use mathlib.Core.Path.{◌≡◌, refl, ap}
use mathlib.Core.Bool.{Bool, true, ◌&&◌}
use native.Mathlib.Nat.{pow-suc}
use native.Mathlib.Omega.{arith}

infixl 75 ◌<<<◌ ◌>>>◌
abbrev pub ◌<<<◌ : ℕ → ℕ → ℕ
x <<< k = x * 2 ^ k

abbrev pub ◌>>>◌ : ℕ → ℕ → ℕ
x >>> k = x / 2 ^ k

-- A Boolean statement holds at every number below a bound, by evaluation.
unfoldable pub all_below : ℕ → (ℕ → Bool) → Bool
all_below zero holds = true
all_below (suc bound) holds = all_below bound holds && holds bound

pub all_below_sound :
    (bound : ℕ) (holds : ℕ → Bool) (v : ℕ)
    → all_below bound holds ≡ true
    → v < bound
    → holds v ≡ true
unfolding all_below
all_below_sound zero holds v every small = absurd (omega arith)
all_below_sound (suc bound) holds v every small = ground (arith, all_below_sound bound holds v)

-- `bitwise` is a recursion on binary digits with fuel; fuel beyond the number changes nothing.
module _ (edge : ℕ → ℕ) (op : ℕ → ℕ → ℕ) where
  enough_fuel :
      (x y fuel more : ℕ) → x ≤ fuel → x ≤ more → digits edge op more x y ≡ digits edge op fuel x y
  enough_fuel x y zero zero h k = refl
  enough_fuel zero y zero (suc more) h k = refl
  enough_fuel zero y (suc fuel) zero h k = refl
  enough_fuel zero y (suc fuel) (suc more) h k = refl
  enough_fuel (suc x) y zero more h k = absurd (omega arith)
  enough_fuel (suc x) y (suc fuel) zero h k = absurd (omega arith)
  enough_fuel (suc x) y (suc fuel) (suc more) h k =
      ap (λ (d : ℕ). d * 2 + op (suc x % 2) (y % 2))
        (enough_fuel (suc x / 2) (y / 2) fuel more (omega arith) (omega arith))

  pub bitwise-suc :
      (x y : ℕ)
      → bitwise edge op (suc x) y ≡ bitwise edge op (suc x / 2) (y / 2) * 2 + op (suc x % 2) (y % 2)
  bitwise-suc x y =
      ap (λ (d : ℕ). d * 2 + op (suc x % 2) (y % 2))
        (enough_fuel (suc x / 2) (y / 2) (suc x / 2) x (omega arith) (omega arith))

-- The digits of `|` are the larger of two, those of `&` the smaller.
bit_or_digit : (x y : ℕ) → bit_or x y ≡ max (x % 2) (y % 2) + 2 * bit_or (x / 2) (y / 2)
bit_or_digit zero y = simp bit_or-bitwise (omega arith)
bit_or_digit (suc x) y = simp bit_or-bitwise (omega (arith, bitwise-suc (λ d. d) max x y))

bit_and_digit : (x y : ℕ) → bit_and x y ≡ min (x % 2) (y % 2) + 2 * bit_and (x / 2) (y / 2)
bit_and_digit zero y = simp bit_and-bitwise (omega arith)
bit_and_digit (suc x) y = simp bit_and-bitwise (omega (arith, bitwise-suc (λ d. 0) min x y))

bit_or-none : (bound x : ℕ) → x ≤ bound → bit_or x 0 ≡ x
bit_or-none bound zero h = refl
bit_or-none zero (suc x) h = absurd (omega arith)
bit_or-none (suc bound) (suc x) h =
    omega (arith, bit_or_digit (suc x) 0, bit_or-none bound (suc x / 2) (omega arith))

bit_and-none : (bound x : ℕ) → x ≤ bound → bit_and x 0 ≡ 0
bit_and-none bound zero h = refl
bit_and-none zero (suc x) h = absurd (omega arith)
bit_and-none (suc bound) (suc x) h =
    omega (arith, bit_and_digit (suc x) 0, bit_and-none bound (suc x / 2) (omega arith))

-- A field of `width` bits below a shifted one: `|` is their sum.
pub bit_or_fields :
    (width high low : ℕ) → low < 2 ^ width → bit_or (high <<< width) low ≡ high * 2 ^ width + low
bit_or_fields zero high zero h = ground (arith, bit_or-none high high (omega arith))
bit_or_fields zero high (suc low) h = absurd (omega arith)
bit_or_fields (suc width) high low h = ground (
  arith,
  doubled,
  bit_or_digit (high * 2 ^ suc width) low,
  bit_or_fields width high (low / 2) (omega (arith, pow-suc 2 width)),
)
  where
    doubled : high * 2 ^ suc width ≡ 2 * (high * 2 ^ width)
    doubled = omega (arith, ap (λ (t : ℕ). high * t) (pow-suc 2 width))

pub bit_and-one : (a : ℕ) → bit_and a 1 ≡ a % 2
bit_and-one a = omega (arith, bit_and_digit a 1, bit_and-none (a / 2) (a / 2) (omega arith))

-- The low `k` digits of a number, and `k` digits of one.
abbrev low_digits : ℕ → ℕ → ℕ
low_digits zero a = 0
low_digits (suc k) a = low_digits k (a / 2) * 2 + a % 2

abbrev ones : ℕ → ℕ
ones zero = 0
ones (suc k) = ones k * 2 + 1

bit_and-ones : (k a : ℕ) → bit_and a (ones k) ≡ low_digits k a
bit_and-ones zero a = bit_and-none a a (omega arith)
bit_and-ones (suc k) a = omega (
  arith,
  bit_and_digit a (ones k * 2 + 1),
  bit_and-ones k (a / 2),
  ap (λ (m : ℕ). bit_and (a / 2) m) half,
)
  where
    half : (ones k * 2 + 1) / 2 ≡ ones k
    half = omega arith

-- A mask of the low byte is the remainder by 256.
pub bit_and_byte : (a : ℕ) → bit_and a 0xFF ≡ a % 256
bit_and_byte a = omega (arith, bit_and-ones 8 a)
