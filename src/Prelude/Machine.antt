-- ===== src/Prelude/Machine.antt =====
-- C's `int32_t` and `uint32_t`, and `memcpy`.
use Prim.Native.Nat.{ℕ, zero, suc, ◌-◌, ◌%◌, ◌^◌, ◌<◌, ◌≤◌}
use mathlib.Core.Path.{◌≡◌, refl}
use mathlib.Core.Bool.{Bool, true, false, ◌&&◌}
use mathlib.Core.List.{List, ◌++◌}
use native.Mathlib.Omega.{arith}
use icap.Prelude.Tests.{ltb, leb, le→leb, if◌then◌else◌}
use icap.Prelude.Lists.{length, take, drop, length-append, length-take, length-drop}

-- `negsuc n` is -(n + 1).
pub data ℤ : Type 0 where
  pos : ℕ → ℤ
  negsuc : ℕ → ℤ

-- `-n` for a number `n`, as in `-ICAP_ERROR_INVALID`.
abbrev pub neg : ℕ → ℤ
neg zero = pos 0
neg (suc n) = negsuc n

abbrev pub is_zero : ℤ → Bool
is_zero (pos zero) = true
is_zero (pos (suc n)) = false
is_zero (negsuc n) = false

-- `ret >= 0`
abbrev pub is_nonneg : ℤ → Bool
is_nonneg (pos n) = true
is_nonneg (negsuc n) = false

-- The values of `int32_t`.
abbrev pub IsInt32 : ℤ → Type 0
IsInt32 (pos n) = n < 2 ^ 31
IsInt32 (negsuc n) = n < 2 ^ 31

-- The conversions between `int32_t` and `uint32_t`, which keep the bits.
abbrev pub to_u32 : ℤ → ℕ
to_u32 (pos n) = n % 2 ^ 32
to_u32 (negsuc n) = 2 ^ 32 - 1 - n % 2 ^ 32

abbrev pub to_s32 : ℕ → ℤ
to_s32 w = if ltb w (2 ^ 31) then pos w else negsuc (2 ^ 32 - w - 1)

pub to_u32-lt : (z : ℤ) → to_u32 z < 2 ^ 32
to_u32-lt (pos n) = omega arith
to_u32-lt (negsuc n) = omega arith

pub to_s32-to_u32 : (z : ℤ) → IsInt32 z → to_s32 (to_u32 z) ≡ z
to_s32-to_u32 (pos n) h = ground arith
to_s32-to_u32 (negsuc n) h = ground arith

-- A computation in C: it returns, it has undefined behaviour (a write outside an object, a call
-- through a pointer of the wrong type), or it has used up the rounds that the model grants it.
pub data Run {ℓ} (A : Type ℓ) : Type ℓ where
  returns : A → Run A
  faults : Run A
  runs_on : Run A

infixl 5 ◌>>=◌
abbrev pub ◌>>=◌ {ℓ κ} : {A : Type ℓ} {B : Type κ} → Run A → (A → Run B) → Run B
returns a >>= f = f a
faults >>= f = faults
runs_on >>= f = runs_on

-- `memcpy(dst, src, n)` between objects of the given sizes.
abbrev pub memcpy {ℓ} : {A : Type ℓ} → List A → List A → ℕ → Run (List A)
memcpy dst src n =
    if leb n (length dst) && leb n (length src) then returns (take n src ++ drop n dst) else faults

-- A chain that returns has returned at its first step.
pub bind-returns {ℓ κ} :
    {A : Type ℓ} {B : Type κ} (r : Run A) (f : A → Run B) (b : B)
    → (r >>= f) ≡ returns b
    → (a : A) × (r ≡ returns a) × (f a ≡ returns b)
bind-returns (returns a) f b e = (a, refl, e)
bind-returns faults f b e = absurd (cc)
bind-returns runs_on f b e = absurd (cc)

pub returns-inj {ℓ} : {A : Type ℓ} {a b : A} → returns a ≡ returns b → a ≡ b
returns-inj e = cc

-- `memcpy` within both objects returns, and keeps the size of its destination.
pub memcpy_in_bounds {ℓ} :
    {A : Type ℓ} (dst src : List A) (n : ℕ)
    → n ≤ length dst
    → n ≤ length src
    → (out : List A) × (memcpy dst src n ≡ returns out) × (length out ≡ length dst)
memcpy_in_bounds dst src n h k = (
  take n src ++ drop n dst,
  ground (arith, le→leb n (length dst) h, le→leb n (length src) k),
  omega (arith, length-append (take n src) (drop n dst), length-take n src, length-drop n dst),
)
