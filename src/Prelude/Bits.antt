-- ===== src/Prelude/Bits.antt =====
-- `|` of numbers that have no digit in common is a sum.
use Prim.Native.Nat.{
  ℕ, zero, suc, ◌+◌, ◌*◌, ◌/◌, ◌%◌, ◌^◌, ◌≤◌, ◌<◌, max, bit_or, bit_or-bitwise, digits,
}
use mathlib.Core.Path.{◌≡◌, refl, ap}
use native.Mathlib.Nat.{pow-suc}
use native.Mathlib.Omega.{arith}

-- The digits that `bit_or` stands for, and that more fuel than the first number does not matter.
abbrev or_digits : ℕ → ℕ → ℕ → ℕ
or_digits = digits (λ b. b) max

or_digits_fuel : (n m a b : ℕ) → a ≤ n → a ≤ m → or_digits n a b ≡ or_digits m a b
or_digits_fuel zero zero a b p q = refl
or_digits_fuel zero (suc m) zero b p q = refl
or_digits_fuel zero (suc m) (suc a) b p q = absurd (omega arith)
or_digits_fuel (suc n) m zero b p q = zero_digits m b
  where
    zero_digits : (m b : ℕ) → b ≡ or_digits m 0 b
    zero_digits zero b = refl
    zero_digits (suc m) b = refl
or_digits_fuel (suc n) zero (suc a) b p q = absurd (omega arith)
or_digits_fuel (suc n) (suc m) (suc a) b p q =
    ap (λ (t : ℕ). t * 2 + max (suc a % 2) (b % 2))
      (or_digits_fuel n m (suc a / 2) (b / 2) (omega arith) (omega arith))

zero-bit_or : (b : ℕ) → bit_or 0 b ≡ b
zero-bit_or b = simp bit_or-bitwise refl

pub bit_or_lowest : (a b : ℕ) → bit_or a b ≡ bit_or (a / 2) (b / 2) * 2 + max (a % 2) (b % 2)
bit_or_lowest zero b = omega (arith, zero-bit_or b, zero-bit_or (b / 2))
bit_or_lowest (suc a) b = omega (
  arith,
  bit_or-bitwise (suc a) b,
  bit_or-bitwise (suc a / 2) (b / 2),
  or_digits_fuel a (suc a / 2) (suc a / 2) (b / 2) (omega arith) (omega arith),
)

-- The low digits of `a` below those of `b`.
pub bit_or_disjoint : (k a b : ℕ) → a < 2 ^ k → bit_or a (b * 2 ^ k) ≡ a + b * 2 ^ k
bit_or_disjoint zero zero b h = omega (arith, zero-bit_or (b * 2 ^ 0))
bit_or_disjoint zero (suc a) b h = absurd (omega arith)
bit_or_disjoint (suc k) a b h = ground (
  arith,
  bit_or_lowest a (b * 2 ^ suc k),
  ap (λ (t : ℕ). b * t) (pow-suc 2 k),
  bit_or_disjoint k (a / 2) b (omega (arith, pow-suc 2 k)),
)

-- The digits of `b` above the highest of a number that has `k + 1` of them, where `b` has that one too.
pub bit_or_overlap :
    (k a b : ℕ) → a < 2 ^ k → bit_or (a + 2 ^ k) ((b * 2 + 1) * 2 ^ k) ≡ a + (b * 2 + 1) * 2 ^ k
bit_or_overlap zero zero b h =
    omega (arith, bit_or_lowest 1 ((b * 2 + 1) * 2 ^ 0), zero-bit_or ((b * 2 + 1) * 2 ^ 0 / 2))
bit_or_overlap zero (suc a) b h = absurd (omega arith)
bit_or_overlap (suc k) a b h = ground (
  arith,
  bit_or_lowest (a + 2 ^ suc k) ((b * 2 + 1) * 2 ^ suc k),
  pow-suc 2 k,
  ap (λ (t : ℕ). (b * 2 + 1) * t) (pow-suc 2 k),
  bit_or_overlap k (a / 2) b (omega (arith, pow-suc 2 k)),
)
