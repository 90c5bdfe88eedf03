-- ===== src/Ook/Histogram.antt =====
-- Amplitude statistics, `AmplitudeHistogram`, `percentile` and `levels` of proxyd/src/ook.rs.
pub mod Quantile
use hackrf_proxy.Base.{
  ℕ, zero, suc, ◌+◌, ◌-◌, List, [], ◌∷◌, max, min, ◌==◌, leb, if◌then◌else◌, replicate,
}
use hackrf_proxy.Base.Words.{add_u64, saturating_add_u16, saturating_sub}
use hackrf_proxy.Base.Floats.{F64}
use hackrf_proxy.Ook.Envelope.{samples, magnitude}

abbrev pub mag_levels : ℕ
mag_levels = 258

pub record Levels : Type 0 where
  pub noise_floor : ℕ
  pub signal : ℕ
  pub threshold : ℕ

pub record AmplitudeHistogram : Type 0 where
  pub counts : List ℕ
  pub total : ℕ
  pub peak : ℕ

unfoldable pub new : AmplitudeHistogram
new = record { counts = replicate mag_levels 0; total = 0; peak = 0 }

-- `counts[i] += 1`
pub bump : List ℕ → ℕ → List ℕ
bump [] i = []
bump (c ∷ cs) zero = add_u64 c 1 ∷ cs
bump (c ∷ cs) (suc i) = c ∷ bump cs i

unfoldable pub add_magnitude : AmplitudeHistogram → ℕ → AmplitudeHistogram
unfolding bump
add_magnitude h m = record {
  counts = bump h.counts (min m (mag_levels - 1));
  total = add_u64 h.total 1;
  peak = max h.peak m;
}

-- `for &m in mag { hist.add_magnitude(m) }`
unfoldable pub add_all : AmplitudeHistogram → List ℕ → AmplitudeHistogram
unfolding add_magnitude
add_all h [] = h
add_all h (m ∷ ms) = add_all (add_magnitude h m) ms

add_samples : AmplitudeHistogram → List (ℕ × ℕ) → AmplitudeHistogram
add_samples h [] = h
add_samples h (s ∷ ss) = add_samples (add_magnitude h (magnitude s)) ss

unfoldable pub add_iq : AmplitudeHistogram → List ℕ → AmplitudeHistogram
unfolding add_samples
add_iq h iq = add_samples h (samples iq)

-- The loop of `percentile`, from the bucket `value` on.
pub scan : ℕ → ℕ → ℕ → List ℕ → ℕ
scan target acc value [] = mag_levels - 1
scan target acc value (c ∷ cs) =
    let acc' = add_u64 acc c in if leb target acc' then value else scan target acc' (value + 1) cs

module _ (fp : F64) where
  open fp use {Float, literal, of_ℕ, mul, round, ceil, to_u16, to_u64}

  -- `((total as f64) * p).ceil() as usize`
  unfoldable pub target_count : ℕ → Float → ℕ
  target_count total p = to_u64 (ceil (mul (of_ℕ total) p))

  unfoldable pub percentile : List ℕ → ℕ → Float → ℕ
  unfolding scan target_count
  percentile counts total p = if total == 0 then 0 else scan (target_count total p) 0 0 counts

  unfoldable pub levels : AmplitudeHistogram → Float → Levels
  unfolding percentile
  levels h frac =
      let noise_floor = percentile h.counts h.total (literal 50 2) in
      let signal = percentile h.counts h.total (literal 999 3) in
      let span = of_ℕ (saturating_sub signal noise_floor) in
      record {
        noise_floor = noise_floor;
        signal = signal;
        threshold = saturating_add_u16 noise_floor (to_u16 (round (mul span frac)));
      }

  -- The free function `levels`, over the magnitudes of a whole capture.
  unfoldable pub levels_of : List ℕ → Float → Levels
  unfolding levels add_all new
  levels_of mag frac = levels (add_all new mag) frac
