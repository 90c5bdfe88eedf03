-- ===== src/Base/Int.antt =====
-- Signed integers over the native numbers, and Rust's `i64`: the values that fit in 64 bits, with
-- its wrapping, saturating and absolute-value operations.
use hackrf_proxy.Base.Tests.{◌==◌, ltb, leb, if◌then◌else◌}
use Prim.Native.Nat.{ℕ, suc, ◌+◌, ◌-◌, ◌*◌, ◌%◌, ◌≤◌, min}
use mathlib.Core.Path.{◌≡◌}
use mathlib.Core.Bool.{Bool, false}
use native.Mathlib.Omega.{arith}

-- `negsuc n` is -(n + 1).
pub data ℤ : Type 0 where
  pos : ℕ → ℤ
  negsuc : ℕ → ℤ

abbrev pub pos_part : ℤ → ℕ
pos_part (pos n) = n
pos_part (negsuc n) = 0

abbrev pub neg_part : ℤ → ℕ
neg_part (pos n) = 0
neg_part (negsuc n) = suc n

-- |a|, with no bound: `i64::unsigned_abs`.
abbrev pub unsigned_abs : ℤ → ℕ
unsigned_abs (pos n) = n
unsigned_abs (negsuc n) = suc n

-- a - b, as an integer.
abbrev pub sub_ℕ : ℕ → ℕ → ℤ
sub_ℕ a b = if leb b a then pos (a - b) else negsuc (b - a - 1)

infixl 65 ◌+ℤ◌
infix 50 ◌≤ℤ◌
abbrev pub ◌+ℤ◌ : ℤ → ℤ → ℤ
a +ℤ b = sub_ℕ (pos_part a + pos_part b) (neg_part a + neg_part b)

abbrev pub -ℤ◌ : ℤ → ℤ
-ℤ◌ a = sub_ℕ (neg_part a) (pos_part a)

abbrev pub eq_ℤ : ℤ → ℤ → Bool
eq_ℤ (pos a) (pos b) = a == b
eq_ℤ (negsuc a) (negsuc b) = a == b
eq_ℤ (pos a) (negsuc b) = false
eq_ℤ (negsuc a) (pos b) = false

infixl 70 ◌*ℤ◌
abbrev pub ◌*ℤ◌ : ℤ → ℤ → ℤ
pos a *ℤ pos b = pos (a * b)
pos a *ℤ negsuc b = sub_ℕ 0 (a * suc b)
negsuc a *ℤ pos b = sub_ℕ 0 (suc a * b)
negsuc a *ℤ negsuc b = pos (suc a * suc b)

abbrev pub ◌≤ℤ◌ : ℤ → ℤ → Type 0
a ≤ℤ b = pos_part a + neg_part b ≤ pos_part b + neg_part a

abbrev pub leb_ℤ : ℤ → ℤ → Bool
leb_ℤ a b = leb (pos_part a + neg_part b) (pos_part b + neg_part a)

abbrev pub ltb_ℤ : ℤ → ℤ → Bool
ltb_ℤ a b = ltb (pos_part a + neg_part b) (pos_part b + neg_part a)

-- i64::MAX, and 2^64.
abbrev pub i64_max : ℕ
i64_max = 9223372036854775807

abbrev pub two64 : ℕ
two64 = 18446744073709551616

-- The values of an `i64`.
abbrev pub InI64 : ℤ → Type 0
InI64 (pos n) = n ≤ i64_max
InI64 (negsuc n) = n ≤ i64_max

-- The value whose 64-bit two's complement pattern is `w`.
abbrev pub signed : ℕ → ℤ
signed w = if leb w i64_max then pos w else negsuc (two64 - 1 - w)

-- The low 64 bits of an integer, read as an `i64`: what an overflowing operation leaves in release
-- builds.
abbrev pub wrap_i64 : ℤ → ℤ
wrap_i64 (pos n) = signed (n % two64)
wrap_i64 (negsuc n) = signed (two64 - 1 - n % two64)

-- The nearest `i64`: what the saturating operations return.
abbrev pub saturate : ℤ → ℤ
saturate (pos n) = pos (min n i64_max)
saturate (negsuc n) = negsuc (min n i64_max)

pub wrap_i64-eq_of_InI64 : (a : ℤ) → InI64 a → wrap_i64 a ≡ a
wrap_i64-eq_of_InI64 (pos n) h = ground arith
wrap_i64-eq_of_InI64 (negsuc n) h = ground arith

pub wrap_i64-InI64 : (a : ℤ) → InI64 (wrap_i64 a)
wrap_i64-InI64 (pos n) = ground arith
wrap_i64-InI64 (negsuc n) = ground arith
