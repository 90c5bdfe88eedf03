-- ===== src/Tests/Rational.antt =====
-- Fractions of natural numbers as an instance of `F64`: exact, and with no negative values.
use hackrf_proxy.Base.{ℕ, ◌+◌, ◌-◌, ◌*◌, ◌/◌, ◌^◌, min, leb, if◌then◌else◌}
use hackrf_proxy.Base.Int.{pos, pos_part}
use hackrf_proxy.Base.Floats.{F64}

pub record Fraction : Type 0 where
  pub top : ℕ
  pub bottom : ℕ

abbrev whole : ℕ → Fraction
whole n = record { top = n; bottom = 1 }

abbrev pub rational : F64
rational = record {
  Float = Fraction;
  literal = λ m k. record { top = m; bottom = 10 ^ k };
  of_ℕ = whole;
  of_ℤ = λ z. whole (pos_part z);
  mul = λ a b. record { top = a.top * b.top; bottom = a.bottom * b.bottom };
  div = λ a b. record { top = a.top * b.bottom; bottom = a.bottom * b.top };
  round = λ a. whole ((2 * a.top + a.bottom) / (2 * a.bottom));
  ceil = λ a. whole ((a.top + (a.bottom - 1)) / a.bottom);
  max_float = λ a b. if leb (a.top * b.bottom) (b.top * a.bottom) then b else a;
  to_u16 = λ a. min (a.top / a.bottom) 65_535;
  to_u64 = λ a. min (a.top / a.bottom) 18_446_744_073_709_551_615;
  to_i64 = λ a. pos (min (a.top / a.bottom) 9_223_372_036_854_775_807);
}
