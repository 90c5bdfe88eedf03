-- ===== src/Base/Words.antt =====
-- Unsigned machine words, which wrap in release builds. `usize` has 64 bits.
use Prim.Native.Nat.{ℕ, ◌+◌, ◌-◌, ◌*◌, ◌%◌, ◌<◌, min}
use hackrf_proxy.Base.Int.{two64}
use mathlib.Core.Path.{◌≡◌}
use native.Mathlib.Omega.{arith}

abbrev pub u16_max : ℕ
u16_max = 65535

abbrev pub u32_max : ℕ
u32_max = 4294967295

-- `a += b` on a `u64` or a `usize`.
abbrev pub add_u64 : ℕ → ℕ → ℕ
add_u64 a b = (a + b) % two64

-- `u16::saturating_add` and `saturating_sub`.
abbrev pub saturating_add_u16 : ℕ → ℕ → ℕ
saturating_add_u16 a b = min (a + b) u16_max

abbrev pub saturating_sub : ℕ → ℕ → ℕ
saturating_sub a b = a - b

pub add_u64-eq : (a b : ℕ) → a + b < two64 → add_u64 a b ≡ a + b
add_u64-eq a b h = omega arith

-- `a * b` on a `u64` or a `usize`.
abbrev pub mul_u64 : ℕ → ℕ → ℕ
mul_u64 a b = (a * b) % two64
