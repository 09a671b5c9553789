-- ===== src/Base/Bits.antt =====
-- `|` of words, one digit after the other.
use Prim.Native.Nat.{
  ℕ, zero, suc, ◌+◌, ◌*◌, ◌/◌, ◌%◌, ◌≤◌, ◌<◌, max, bit_or, digits, bit_or-bitwise,
}
use mathlib.Core.Path.{◌≡◌, refl, ap}
use native.Mathlib.Omega.{arith}

abbrev or_digits : ℕ → ℕ → ℕ → ℕ
or_digits n a b = digits (λ b. b) max n a b

-- More digits than the first number has make no difference.
or_digits-enough : (n m a b : ℕ) → a ≤ n → a ≤ m → or_digits n a b ≡ or_digits m a b
or_digits-enough zero zero a b p q = refl
or_digits-enough zero (suc m) zero b p q = refl
or_digits-enough zero (suc m) (suc a) b p q = absurd (omega arith)
or_digits-enough (suc n) zero zero b p q = refl
or_digits-enough (suc n) zero (suc a) b p q = absurd (omega arith)
or_digits-enough (suc n) (suc m) zero b p q = refl
or_digits-enough (suc n) (suc m) (suc a) b p q =
    omega (arith, or_digits-enough n m (suc a / 2) (b / 2) (omega arith) (omega arith))

zero-bit_or : (b : ℕ) → bit_or 0 b ≡ b
zero-bit_or b = bit_or-bitwise 0 b

pub bit_or-halves : (a b : ℕ) → bit_or a b ≡ bit_or (a / 2) (b / 2) * 2 + max (a % 2) (b % 2)
bit_or-halves zero b = omega (arith, zero-bit_or b, zero-bit_or (b / 2))
bit_or-halves (suc a) b = omega (
  arith,
  bit_or-bitwise (suc a) b,
  bit_or-bitwise (suc a / 2) (b / 2),
  or_digits-enough a (suc a / 2) (suc a / 2) (b / 2) (omega arith) (omega arith),
)

bit_or-zero_within : (n a : ℕ) → a ≤ n → bit_or a 0 ≡ a
bit_or-zero_within n zero h = zero-bit_or 0
bit_or-zero_within zero (suc a) h = absurd (omega arith)
bit_or-zero_within (suc n) (suc a) h =
    omega (arith, bit_or-halves (suc a) 0, bit_or-zero_within n (suc a / 2) (omega arith))

pub bit_or-zero : (a : ℕ) → bit_or a 0 ≡ a
bit_or-zero a = bit_or-zero_within a a (omega arith)

-- The lowest bit is set.
pub bit_or-one : (a : ℕ) → bit_or a 1 ≡ a / 2 * 2 + 1
bit_or-one a = omega (arith, bit_or-halves a 1, bit_or-zero (a / 2))

-- `2 ^ n * a`
abbrev pub doubled : (n a : ℕ) → ℕ
doubled zero a = a
doubled (suc n) a = 2 * doubled n a

-- In digits that are 0 `|` adds.
pub bit_or-doubled : (n a b : ℕ) → b < doubled n 1 → bit_or (doubled n a) b ≡ doubled n a + b
bit_or-doubled zero a b h = let b_0 : b ≡ 0 = omega arith in rw b_0 (omega (arith, bit_or-zero a))
bit_or-doubled (suc n) a b h =
    let d = doubled n a in
    let half : 2 * d / 2 ≡ d = omega arith in
    let same : bit_or (2 * d / 2) (b / 2) ≡ bit_or d (b / 2) = ap (λ k. bit_or k (b / 2)) half in
    let rest = bit_or-doubled n a (b / 2) (omega arith) in
    let whole : bit_or (2 * d) b ≡ 2 * d + b = omega (arith, bit_or-halves (2 * d) b, same, rest) in
    whole
