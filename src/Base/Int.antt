-- ===== src/Base/Int.antt =====
-- Signed integers over the native numbers, and the casts between them and machine words.
use Prim.Native.Nat.{ℕ, ◌+◌, ◌-◌, ◌%◌, ◌^◌, ◌<◌}
use mathlib.Core.Path.{◌≡◌}
use mathlib.Core.Logic.{◌↔◌}
use mathlib.Core.Bool.{Bool, true, false}
use native.Mathlib.Omega.{arith}
use qq_copy.Base.Tests.{Eq, ltb, ◌==◌, if◌then◌else◌}

-- `negsuc n` is -(n + 1).
pub data ℤ : Type 0 where
  pos : ℕ → ℤ
  negsuc : ℕ → ℤ

unfoldable pub int_beq : ℤ → ℤ → Bool
int_beq (pos a) (pos b) = a == b
int_beq (negsuc a) (negsuc b) = a == b
int_beq (pos a) (negsuc b) = false
int_beq (negsuc a) (pos b) = false

pub int_beq_iff : (a b : ℤ) → (int_beq a b ≡ true) ↔ (a ≡ b)
unfolding int_beq
int_beq_iff (pos a) (pos b) = ground arith
int_beq_iff (negsuc a) (negsuc b) = ground arith
int_beq_iff (pos a) (negsuc b) = ground arith
int_beq_iff (negsuc a) (pos b) = ground arith

instance abbrev pub int_eq : Eq ℤ
int_eq = record { beq = int_beq; beq_iff = int_beq_iff }

-- `static_cast` of a signed integer to an unsigned word of the given modulus: two's complement.
unfoldable pub to_unsigned : ℕ → ℤ → ℕ
to_unsigned m (pos n) = n % m
to_unsigned m (negsuc n) = m - 1 - n % m

-- `static_cast` of an unsigned word below `2 * half` to the signed type of the same width.
unfoldable pub to_signed : ℕ → ℕ → ℤ
to_signed half w = if ltb w half then pos w else negsuc (half + half - 1 - w)

-- The values of the signed type with `half` non-negative values.
abbrev pub IsSigned : ℕ → ℤ → Type 0
IsSigned half (pos n) = n < half
IsSigned half (negsuc n) = n < half

pub to_signed-to_unsigned_32 :
    (a : ℤ) → IsSigned (2 ^ 31) a → to_signed (2 ^ 31) (to_unsigned (2 ^ 32) a) ≡ a
unfolding to_signed to_unsigned
to_signed-to_unsigned_32 (pos n) h = ground arith
to_signed-to_unsigned_32 (negsuc n) h = ground arith

pub to_signed-to_unsigned_64 :
    (a : ℤ) → IsSigned (2 ^ 63) a → to_signed (2 ^ 63) (to_unsigned (2 ^ 64) a) ≡ a
unfolding to_signed to_unsigned
to_signed-to_unsigned_64 (pos n) h = ground arith
to_signed-to_unsigned_64 (negsuc n) h = ground arith

pub to_unsigned-lt : (m : ℕ) (a : ℤ) → 0 < m → to_unsigned m a < m
unfolding to_unsigned
to_unsigned-lt m (pos n) h = omega arith
to_unsigned-lt m (negsuc n) h = omega arith

pub to_signed-IsSigned : (half w : ℕ) → w < half + half → IsSigned half (to_signed half w)
unfolding to_signed
to_signed-IsSigned half w h = ground arith
