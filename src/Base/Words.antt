-- ===== src/Base/Words.antt =====
-- `bit_or` where the operands share no bit, as page table entries are put together.
use Prim.Native.Nat.{
  ℕ, zero, suc, ◌+◌, ◌*◌, ◌/◌, ◌%◌, ◌^◌, ◌≤◌, ◌<◌, max, bit_or, digits, bit_or-bitwise,
}
use mathlib.Core.Path.{◌≡◌, refl, ap}
use native.Mathlib.Nat.{pow-suc}
use native.Mathlib.Omega.{arith}

-- The law for the lowest digit, from the definition that the native operation stands for.
abbrev or_digits : ℕ → ℕ → ℕ → ℕ
or_digits n a b = digits (λ b. b) max n a b

or_digits_fuel : (n m a b : ℕ) → a ≤ n → a ≤ m → or_digits n a b ≡ or_digits m a b
or_digits_fuel zero zero a b p q = refl
or_digits_fuel zero (suc m) zero b p q = refl
or_digits_fuel zero (suc m) (suc a) b p q = absurd (omega arith)
or_digits_fuel (suc n) zero zero b p q = refl
or_digits_fuel (suc n) zero (suc a) b p q = absurd (omega arith)
or_digits_fuel (suc n) (suc m) zero b p q = refl
or_digits_fuel (suc n) (suc m) (suc a) b p q =
    omega (arith, or_digits_fuel n m (suc a / 2) (b / 2) (omega arith) (omega arith))

zero-bit_or : (b : ℕ) → bit_or 0 b ≡ b
zero-bit_or b = bit_or-bitwise 0 b

pub bit_or_step : (a b : ℕ) → bit_or a b ≡ bit_or (a / 2) (b / 2) * 2 + max (a % 2) (b % 2)
bit_or_step zero b = omega (arith, zero-bit_or b, zero-bit_or (b / 2))
bit_or_step (suc a) b = omega (
  arith,
  bit_or-bitwise (suc a) b,
  bit_or-bitwise (suc a / 2) (b / 2),
  or_digits_fuel a (suc a / 2) (suc a / 2) (b / 2) (omega arith) (omega arith),
)

bit_or-zero_fuel : (n a : ℕ) → a ≤ n → bit_or a 0 ≡ a
bit_or-zero_fuel n zero h = refl
bit_or-zero_fuel zero (suc a) h = absurd (omega arith)
bit_or-zero_fuel (suc n) (suc a) h =
    omega (arith, bit_or_step (suc a) 0, bit_or-zero_fuel n (suc a / 2) (omega arith))

bit_or-zero : (a : ℕ) → bit_or a 0 ≡ a
bit_or-zero a = bit_or-zero_fuel a a (omega arith)

-- `x | 1`
pub bit_or-one : (x : ℕ) → bit_or x 1 ≡ x / 2 * 2 + 1
bit_or-one x = omega (arith, bit_or_step x 1, bit_or-zero (x / 2))

-- `(h << n) | l` for an `l` of `n` bits
pub bit_or-shift : (n h l : ℕ) → l < 2 ^ n → bit_or (h * 2 ^ n) l ≡ h * 2 ^ n + l
bit_or-shift zero h l lt =
    let e : l ≡ 0 = omega arith in
    let f : h * 2 ^ 0 ≡ h = omega arith in rw (e, f) (omega (arith, bit_or-zero h))
bit_or-shift (suc n) h l lt =
    let p : 2 ^ suc n ≡ 2 * 2 ^ n = omega (arith, pow-suc 2 n) in
    let half : h * 2 ^ suc n ≡ 2 * (h * 2 ^ n) = rw p (grind arith) in
    omega (
      arith,
      bit_or_step (h * 2 ^ suc n) l,
      ap (λ x. bit_or x (l / 2)) {x = h * 2 ^ suc n / 2} {y = h * 2 ^ n} (omega arith),
      bit_or-shift n h (l / 2) (omega arith),
    )
