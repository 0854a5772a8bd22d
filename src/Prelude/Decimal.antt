-- ===== src/Prelude/Decimal.antt =====
-- What `printf` writes for `%llu` and for `%s` into a buffer.
use Prim.Native.Nat.{ℕ, zero, suc, ◌+◌, ◌-◌, ◌*◌, ◌/◌, ◌%◌, ◌^◌, ◌≤◌, ◌<◌}
use mathlib.Core.List.{[], ◌∷◌}
use pcd.Prelude.Lists.{take, length}
use mathlib.Core.Path.{◌≡◌, refl, ap, ◌∙◌}
use mathlib.Core.Logic.{◌⊎◌, inl, inr}
use native.Mathlib.Nat.{pow-suc}
use native.Mathlib.Omega.{arith}
use pcd.Prelude.Words.{Bytes, All}

-- The digits of a number before those of `rest`, on fuel: one for each digit.
unfoldable pub decimal_before : ℕ → ℕ → Bytes → Bytes
decimal_before zero n rest = rest
decimal_before (suc fuel) n rest = elim (n / 10) [
  | zero ↦ (48 + n % 10) ∷ rest
  | suc more ↦ decimal_before fuel (suc more) ((48 + n % 10) ∷ rest)
]

-- A 64-bit word has at most twenty digits.
unfoldable pub decimal : ℕ → Bytes
unfolding decimal_before
decimal n = decimal_before 20 n []

-- `snprintf(buffer, size, "%s", text)`, without the terminator; `size` is not 0.
abbrev pub snprintf : ℕ → Bytes → Bytes
snprintf size text = take (size - 1) text

-- The number that digits spell behind `acc`.
abbrev pub spelled : ℕ → Bytes → ℕ
spelled acc [] = acc
spelled acc (c ∷ digits) = spelled (acc * 10 + (c - 48)) digits

abbrev pub IsDigit : ℕ → Type 0
IsDigit c = (48 ≤ c) × (c < 58)

decimal_last :
    (fuel n : ℕ) (rest : Bytes)
    → n / 10 ≡ 0
    → decimal_before (suc fuel) n rest ≡ (48 + n % 10) ∷ rest
unfolding decimal_before
decimal_last fuel n rest e = rw (decimal_before, e) refl

decimal_more :
    (fuel n more : ℕ) (rest : Bytes)
    → n / 10 ≡ suc more
    → decimal_before (suc fuel) n rest ≡ decimal_before fuel (n / 10) ((48 + n % 10) ∷ rest)
unfolding decimal_before
decimal_more fuel n more rest e = rw (decimal_before, e) refl

ℕ-cases : (n : ℕ) → (n ≡ 0) ⊎ ((m : ℕ) × (n ≡ suc m))
ℕ-cases zero = inl refl
ℕ-cases (suc m) = inr (m, refl)

tenth-lt : (fuel n : ℕ) → n < 10 ^ suc fuel → n / 10 < 10 ^ fuel
tenth-lt fuel n h = omega (arith, pow-suc 10 fuel)

spelled-decimal_before :
    (fuel n : ℕ) (rest : Bytes)
    → n < 10 ^ suc fuel
    → spelled 0 (decimal_before (suc fuel) n rest) ≡ spelled n rest
spelled-decimal_before zero n rest h =
    let small : n / 10 ≡ 0 = omega arith in
    let digit : 0 * 10 + (48 + n % 10 - 48) ≡ n = omega arith in
    rw (decimal_last 0 n rest small) (ap (λ (k : ℕ). spelled k rest) digit)
spelled-decimal_before (suc fuel) n rest h = elim (ℕ-cases (n / 10)) [
  | inl small ↦
      let digit : 0 * 10 + (48 + n % 10 - 48) ≡ n = omega arith in
      rw (decimal_last (suc fuel) n rest small) (ap (λ (k : ℕ). spelled k rest) digit)
  | inr (more, large) ↦
      let digit : n / 10 * 10 + (48 + n % 10 - 48) ≡ n = omega arith in
      rw (decimal_more (suc fuel) n more rest large) (
        spelled-decimal_before fuel (n / 10) ((48 + n % 10) ∷ rest) (tenth-lt (suc fuel) n h)
        ∙ ap (λ (k : ℕ). spelled k rest) digit)
]

-- The decimal text of a 64-bit word spells it.
pub spelled-decimal : (n : ℕ) → n < 2 ^ 64 → spelled 0 (decimal n) ≡ n
unfolding decimal
spelled-decimal n h = spelled-decimal_before 19 n [] (omega arith)

digits-decimal_before :
    (fuel n : ℕ) (rest : Bytes) → All IsDigit rest → All IsDigit (decimal_before fuel n rest)
unfolding decimal_before
digits-decimal_before zero n rest h = h
digits-decimal_before (suc fuel) n rest h = elim (ℕ-cases (n / 10)) [
  | inl small ↦ rw (decimal_last fuel n rest small) ((omega arith, omega arith), h)
  | inr (more, large) ↦
      rw (decimal_more fuel n more rest large)
        (digits-decimal_before fuel (n / 10) ((48 + n % 10) ∷ rest) ((omega arith, omega arith), h))
]

-- The text is made of digits, and is not empty.
pub digits-decimal : (n : ℕ) → All IsDigit (decimal n)
unfolding decimal
digits-decimal n = digits-decimal_before 20 n [] tt

decimal_before-cons :
    (fuel n ch : ℕ) (rest : Bytes)
    → (c : ℕ) × (cs : Bytes) × (decimal_before fuel n (ch ∷ rest) ≡ c ∷ cs)
unfolding decimal_before
decimal_before-cons zero n ch rest = (ch, rest, refl)
decimal_before-cons (suc fuel) n ch rest = elim (ℕ-cases (n / 10)) [
  | inl small ↦ (48 + n % 10, ch ∷ rest, decimal_last fuel n (ch ∷ rest) small)
  | inr (more, large) ↦
      let (c, cs, e) = decimal_before-cons fuel (n / 10) (48 + n % 10) (ch ∷ rest) in
      (c, cs, decimal_more fuel n more (ch ∷ rest) large ∙ e)
]

pub decimal-cons : (n : ℕ) → (c : ℕ) × (cs : Bytes) × (decimal n ≡ c ∷ cs)
unfolding decimal
decimal-cons n = elim (ℕ-cases (n / 10)) [
  | inl small ↦ (48 + n % 10, [], decimal_last 19 n [] small)
  | inr (more, large) ↦
      let (c, cs, e) = decimal_before-cons 19 (n / 10) (48 + n % 10) [] in
      (c, cs, decimal_more 19 n more [] large ∙ e)
]

length-decimal_before :
    (fuel n : ℕ) (rest : Bytes) → length (decimal_before fuel n rest) ≤ fuel + length rest
unfolding decimal_before
length-decimal_before zero n rest = omega arith
length-decimal_before (suc fuel) n rest = elim (ℕ-cases (n / 10)) [
  | inl small ↦ rw (decimal_last fuel n rest small) (omega arith)
  | inr (more, large) ↦
      rw (decimal_more fuel n more rest large)
        (omega (arith, length-decimal_before fuel (n / 10) ((48 + n % 10) ∷ rest)))
]

pub length-decimal : (n : ℕ) → length (decimal n) ≤ 20
unfolding decimal
length-decimal n = length-decimal_before 20 n []
