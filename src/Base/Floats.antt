-- ===== src/Base/Floats.antt =====
-- `f64`, of which the model knows only the operations that the code applies. The type and its
-- operations are a parameter of every definition that computes with them.
use Prim.Native.Nat.{ℕ}
use hackrf_proxy.Base.Int.{ℤ}

pub record F64 : Type 1 where
  pub Float : Type 0
  -- `literal m k` is the decimal literal m / 10^k; `of_ℕ` and `of_ℤ` are `as f64` and `f64::from`.
  pub literal : ℕ → ℕ → Float
  pub of_ℕ : ℕ → Float
  pub of_ℤ : ℤ → Float
  pub mul : Float → Float → Float
  pub div : Float → Float → Float
  -- `f64::round`, `f64::ceil` and `f64::max`.
  pub round : Float → Float
  pub ceil : Float → Float
  pub max_float : Float → Float → Float
  -- The saturating casts `as u16`, `as u64` (and `as usize`) and `as i64`.
  pub to_u16 : Float → ℕ
  pub to_u64 : Float → ℕ
  pub to_i64 : Float → ℤ
