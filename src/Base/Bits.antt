-- ===== src/Base/Bits.antt =====
-- The lowest bits of `bit_and`.
use Prim.Native.Nat.{ℕ, zero, suc, ◌+◌, ◌*◌, ◌/◌, ◌%◌, ◌≤◌, min, bit_and, digits, bit_and-bitwise}
use mathlib.Core.Path.{◌≡◌, refl}
use native.Mathlib.Omega.{arith}

-- The recursion that `bit_and` stands for, with its fuel made explicit.
abbrev masked : ℕ → ℕ → ℕ → ℕ
masked fuel a b = digits (λ _. zero) min fuel a b

masked_enough : (k l a b : ℕ) → a ≤ k → a ≤ l → masked k a b ≡ masked l a b
masked_enough zero zero a b h i = refl
masked_enough zero (suc l) zero b h i = refl
masked_enough zero (suc l) (suc a) b h i = absurd (omega arith)
masked_enough (suc k) zero zero b h i = refl
masked_enough (suc k) zero (suc a) b h i = absurd (omega arith)
masked_enough (suc k) (suc l) zero b h i = refl
masked_enough (suc k) (suc l) (suc a) b h i =
    omega (arith, masked_enough k l (suc a / 2) (b / 2) (omega arith) (omega arith))

bit_and_halves : (a b : ℕ) → bit_and a b ≡ bit_and (a / 2) (b / 2) * 2 + min (a % 2) (b % 2)
bit_and_halves zero b = omega (arith, bit_and-bitwise 0 b, bit_and-bitwise 0 (b / 2))
bit_and_halves (suc a) b = omega (
  arith,
  bit_and-bitwise (suc a) b,
  bit_and-bitwise (suc a / 2) (b / 2),
  masked_enough a (suc a / 2) (suc a / 2) (b / 2) (omega arith) (omega arith),
)

-- A mask that has neither of its two lowest bits set covers no number that has one of them.
pub bit_and_low_two : (a b : ℕ) → a % 4 ≡ 0 → bit_and a b ≡ b → b % 4 ≡ 0
bit_and_low_two a b h e = omega (arith, bit_and_halves a b, bit_and_halves (a / 2) (b / 2))
