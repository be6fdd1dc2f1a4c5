-- ===== src/Prelude/Bits.antt =====
-- Bit fields: `1 << k`, `|`, and the test `mask & (1 << k)`.
use Prim.Native.Nat.{
  ℕ, zero, suc, ◌+◌, ◌*◌, ◌/◌, ◌%◌, ◌^◌, ◌≤◌, min, max, digits, bit_and, bit_or, bit_and-bitwise,
  bit_or-bitwise,
}
use mathlib.Core.Path.{◌≡◌, refl, ◌∙◌, sym}
use mathlib.Core.Bool.{Bool, false, not, ◌||◌}
use mathlib.Core.List.{List, [], ◌∷◌}
use native.Mathlib.Nat.{pow-suc}
use native.Mathlib.Omega.{arith}
use icap.Prelude.Tests.{◌==◌, ne→==}

-- C's `|`.
infixl 30 ◌|||◌
abbrev pub ◌|||◌ : ℕ → ℕ → ℕ
a ||| b = bit_or a b

-- More fuel than digits changes nothing.
module _ (z : ℕ → ℕ) (f : ℕ → ℕ → ℕ) where
  spare_fuel : (n m a b : ℕ) → a ≤ n → a ≤ m → digits z f n a b ≡ digits z f m a b
  spare_fuel zero zero a b h k = refl
  spare_fuel zero (suc m) zero b h k = refl
  spare_fuel (suc n) zero zero b h k = refl
  spare_fuel (suc n) (suc m) zero b h k = refl
  spare_fuel zero m (suc a) b h k = absurd (omega arith)
  spare_fuel (suc n) zero (suc a) b h k = absurd (omega arith)
  spare_fuel (suc n) (suc m) (suc a) b h k =
      rw (spare_fuel n m (suc a / 2) (b / 2) (omega arith) (omega arith)) refl

or_halves : (a b : ℕ) → bit_or a b ≡ bit_or (a / 2) (b / 2) * 2 + max (a % 2) (b % 2)
or_halves zero b = simp bit_or-bitwise (omega arith)
or_halves (suc a) b = simp bit_or-bitwise (
    omega (
      arith,
      spare_fuel (λ x. x) max a (suc a / 2) (suc a / 2) (b / 2) (omega arith) (omega arith),
    ))

and_halves : (a b : ℕ) → bit_and a b ≡ bit_and (a / 2) (b / 2) * 2 + min (a % 2) (b % 2)
and_halves zero b = simp bit_and-bitwise (omega arith)
and_halves (suc a) b = simp bit_and-bitwise (
    omega (
      arith,
      spare_fuel (λ x. 0) min a (suc a / 2) (suc a / 2) (b / 2) (omega arith) (omega arith),
    ))

-- `mask & (1 << k)` as a truth value.
unfoldable pub has_flag : ℕ → ℕ → Bool
has_flag mask k = not (bit_and mask (2 ^ k) == 0)

-- The flags of these numbers, joined by `|`.
unfoldable pub union : List ℕ → ℕ
union [] = 0
union (k ∷ ks) = bit_or (2 ^ k) (union ks)

unfoldable pub has : List ℕ → ℕ → Bool
has [] k = false
has (j ∷ js) k = j == k || has js k

and_zero : (n a : ℕ) → a ≤ n → bit_and a 0 ≡ 0
and_zero n zero h = refl
and_zero zero (suc a) h = absurd (omega arith)
and_zero (suc n) (suc a) h =
    omega (arith, and_halves (suc a) 0, and_zero n (suc a / 2) (omega arith))

has_flag-zero : (mask : ℕ) → has_flag mask 0 ≡ (mask % 2 == 1)
unfolding has_flag
has_flag-zero mask = ground (arith, and_halves mask 1, and_zero (mask / 2) (mask / 2) (omega arith))

has_flag-suc : (mask k : ℕ) → has_flag mask (suc k) ≡ has_flag (mask / 2) k
unfolding has_flag
has_flag-suc mask k = ground (arith, and_halves mask (2 ^ suc k), pow-suc 2 k)

pub has_flag-bit_or : (a b k : ℕ) → has_flag (bit_or a b) k ≡ (has_flag a k || has_flag b k)
has_flag-bit_or a b zero =
    rw (has_flag-zero (bit_or a b), has_flag-zero a, has_flag-zero b)
      (ground (arith, or_halves a b))
has_flag-bit_or a b (suc k) =
    let halves : bit_or a b / 2 ≡ bit_or (a / 2) (b / 2) = omega (arith, or_halves a b) in
    rw (has_flag-suc, halves, has_flag-bit_or (a / 2) (b / 2) k, has_flag-suc a k, has_flag-suc b k)
      refl

empty-has_flag : (k : ℕ) → has_flag 0 k ≡ false
unfolding has_flag
empty-has_flag k = rw bit_and-bitwise refl

flag-has_flag : (j k : ℕ) → has_flag (2 ^ j) k ≡ (j == k)
flag-has_flag zero zero = has_flag-zero 1
flag-has_flag zero (suc k) =
    has_flag-suc 1 k ∙ empty-has_flag k ∙ sym (ne→== 0 (suc k) (omega arith))
flag-has_flag (suc j) zero = rw (has_flag-zero (2 ^ suc j)) (ground (arith, pow-suc 2 j))
flag-has_flag (suc j) (suc k) =
    let half : 2 ^ suc j / 2 ≡ 2 ^ j = omega (arith, pow-suc 2 j) in
    rw (has_flag-suc (2 ^ suc j) k, half, flag-has_flag j k) (ground arith)

-- A union of flags is the set of their numbers.
pub has_flag-union : (ks : List ℕ) (k : ℕ) → has_flag (union ks) k ≡ has ks k
unfolding union has
has_flag-union [] k = empty-has_flag k
has_flag-union (j ∷ js) k =
    has_flag-bit_or (2 ^ j) (union js) k ∙ rw (flag-has_flag j k, has_flag-union js k) refl
