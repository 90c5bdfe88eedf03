-- ===== src/Wire/AirTime.antt =====
-- The air time that a transmission takes, against its exact value, over `air_time_us` of
-- proxyd/src/wire.rs.
use hackrf_proxy.Base.{ℕ, ◌+◌, ◌*◌, ◌≤◌, ◌<◌, ◌≡◌, ◌∙◌, ap, List, [], ◌∷◌, arith, min, ◌-◌}
use hackrf_proxy.Base.Int.{ℤ, pos, negsuc, ◌≤ℤ◌, i64_max, two64, saturate, unsigned_abs, wrap_i64}
use hackrf_proxy.Base.Words.{u32_max}
use native.Mathlib.Nat.{mul-le-mul}
use hackrf_proxy.Wire.{max_air_time_us, Transmit, IsTyped, frame_time, air_time_us, saturating_add}

-- The sum of the durations, with no bound.
abbrev pub total : List ℤ → ℕ
total [] = 0
total (t ∷ ts) = unsigned_abs t + total ts

-- The air time with no bound: each repetition, and the gaps between them.
abbrev pub exact_air_time : Transmit → ℕ
exact_air_time r = total r.timings * (r.repeat + 1) + r.repeat * r.gap_us

add_step :
    (a n : ℕ) → saturating_add (pos a) (pos (min n i64_max)) ≡ pos (min (a + min n i64_max) i64_max)
add_step a n = ground arith

pub frame_time-eq :
    (acc : ℕ) (ts : List ℤ)
    → acc ≤ i64_max
    → frame_time (pos acc) ts ≡ pos (min (acc + total ts) i64_max)
unfolding frame_time
frame_time-eq acc [] h = ap pos (omega arith)
frame_time-eq acc (t ∷ ts) h = rw (add_step acc (unsigned_abs t)) (
    frame_time-eq (min (acc + min (unsigned_abs t) i64_max) i64_max) ts (omega arith)
    ∙ ap pos (omega arith))

mul_step : (a n : ℕ) → 0 < n → min (min a i64_max * n) i64_max ≡ min (a * n) i64_max
mul_step a n h = grind arith

gaps_fit : (n : ℕ) → n ≤ i64_max → wrap_i64 (pos n) ≡ pos n
gaps_fit n h = ground arith

last_step :
    (a b : ℕ) → saturating_add (saturate (pos a)) (pos b) ≡ pos (min (min a i64_max + b) i64_max)
last_step a b = ground arith

-- When the product of the repetitions and the gap fits in an `i64`, the reported air time is the
-- exact one, or `i64::MAX` if the exact one is larger.
pub air_time_us-eq-saturate :
    (r : Transmit)
    → r.repeat * r.gap_us ≤ i64_max
    → air_time_us r ≡ pos (min (exact_air_time r) i64_max)
unfolding air_time_us
air_time_us-eq-saturate r h = rw (frame_time-eq 0 r.timings (omega arith)) (
    rw (gaps_fit (r.repeat * r.gap_us) h) (
      last_step (min (0 + total r.timings) i64_max * (r.repeat + 1)) (r.repeat * r.gap_us)
      ∙ ap pos (omega (arith, mul_step (0 + total r.timings) (r.repeat + 1) (omega arith)))))

product_fits : (a b : ℕ) → a ≤ u32_max → b ≤ u32_max → a * b < two64
product_fits a b h k = let step : a * b ≤ u32_max * u32_max = mul-le-mul h k in omega arith

gaps_wrap : (n : ℕ) → i64_max < n → n < two64 → wrap_i64 (pos n) ≡ negsuc (two64 - 1 - n)
gaps_wrap n h k = ground arith

wrapped_step :
    (a n : ℕ)
    → a + n ≤ two64 + max_air_time_us
    → n < two64
    → saturating_add (saturate (pos a)) (negsuc (two64 - 1 - n)) ≤ℤ pos max_air_time_us
wrapped_step a n h k = ground arith

-- When the product of the repetitions and the gap does not fit in an `i64`, a request whose exact
-- air time is at most 2^64 us and the limit is reported as within the limit.
pub air_time_us-le_of_overflow :
    (r : Transmit)
    → IsTyped r
    → i64_max < r.repeat * r.gap_us
    → exact_air_time r ≤ two64 + max_air_time_us
    → air_time_us r ≤ℤ pos max_air_time_us
unfolding air_time_us
air_time_us-le_of_overflow r t h k =
    let fits : r.repeat * r.gap_us < two64 =
      product_fits r.repeat r.gap_us t.repeat_fits t.gap_fits in
    rw (frame_time-eq 0 r.timings (omega arith)) (
      rw (gaps_wrap (r.repeat * r.gap_us) h fits) (
        wrapped_step (min (0 + total r.timings) i64_max * (r.repeat + 1)) (r.repeat * r.gap_us)
          (grind arith) fits))
