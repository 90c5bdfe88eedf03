-- ===== src/Tests/StreamTests.antt =====
-- A signal of three edges after a silent window, for the streaming detector of
-- proxyd/src/ook.rs.
use hackrf_proxy.Base.{
  true, ℕ, ◌+◌, ◌*◌, ◌/◌, ◌≤◌, ◌<◌, min, List, [], ◌∷◌, ◌++◌, All, length, replicate, ◌≡◌, refl,
  sym, subst, arith, ◌⊎◌,
}
use hackrf_proxy.Base.Int.{pos, negsuc, leb_ℤ, i64_max}
use hackrf_proxy.Ook.Envelope.{envelope}
use hackrf_proxy.Ook.Histogram
use hackrf_proxy.Ook.Histogram.{add_magnitude, add_all, percentile}
use hackrf_proxy.Ook.Runs.{
  duration_of, us_per_sample, samples_in, push_run, slice_sample, slice_all, close_run, runs,
}
use hackrf_proxy.Ook.Bursts
use hackrf_proxy.Ook.Bursts.{split_bursts}
use hackrf_proxy.Ook.Detector
use hackrf_proxy.Ook.Detector.{
  DetectorConfig, tuned_threshold, push, push_samples, step, slice, push_sample, extend_run,
  finished_run, end_on_gap, emit_run, flush_pending, finish_burst, accumulate, take_burst,
  retune_if_due,
}
use hackrf_proxy.Ook.Detector.View.{timings_of}
use hackrf_proxy.Ook.Detector.Warmup.{first_threshold, tuned_to}
use hackrf_proxy.Ook.Detector.Offline.{IsTimed}
use hackrf_proxy.Ook.Detector.Offline.Streaming.{StartsBelow, offline_runs, push-split_bursts}
use hackrf_proxy.Tests.Rational.{rational, Fraction}

abbrev pub brief_config : DetectorConfig Fraction
brief_config = record {
  sample_rate = 2_000_000;
  threshold_fraction = rational.literal 5 1;
  min_us = 1;
  gap_us = pos 3;
  min_edges = 3;
  noise_sigmas = rational.literal 80 1;
  window_samples = 20;
}

abbrev halved : ℕ → ℕ
halved len = min (((2 * (len * 1_000_000)) + 2_000_000) / 4_000_000 / 1) i64_max

duration_of-halved : (len : ℕ) → duration_of rational 2_000_000 len ≡ pos (halved len)
unfolding duration_of us_per_sample
duration_of-halved len = refl

brief_min : samples_in rational 2_000_000 (rational.of_ℕ 1) ≡ 2
unfolding samples_in us_per_sample
brief_min = refl

brief_gap : samples_in rational 2_000_000 (rational.of_ℤ (pos 3)) ≡ 6
unfolding samples_in us_per_sample
brief_gap = refl

halved-le : (len : ℕ) → halved len ≤ len
halved-le len = omega arith

halved_some : (len : ℕ) → (len < 2) ⊎ (1 ≤ halved len)
halved_some len = ground arith

halved_spans : (len : ℕ) → 6 ≤ len → 3 ≤ halved len
halved_spans len h = omega arith

abbrev window : List ℕ
window = replicate 40 0

abbrev on_air : List ℕ
on_air = replicate 2 0 ++ replicate 8 100 ++ replicate 6 0 ++ replicate 6 100

abbrev after_it : List ℕ
after_it = replicate 12 0

window_threshold : first_threshold rational brief_config window ≡ 1
unfolding tuned_threshold add_all add_magnitude percentile envelope Histogram.new
window_threshold = refl

-- A microsecond is two samples.
pub brief-IsTimed :
    IsTimed
      (λ len. duration_of rational 2_000_000 len)
      (samples_in rational 2_000_000 (rational.of_ℕ 1))
      (samples_in rational 2_000_000 (rational.of_ℤ (pos 3)))
      (pos 3)
brief-IsTimed = record {
  lasts = λ len. (
    halved len,
    duration_of-halved len,
    halved-le len,
    subst (λ m. (len < m) ⊎ (1 ≤ halved len)) (sym brief_min) (halved_some len),
  );
  spans = λ len h.
      let long = halved_spans len (omega (arith, h, brief_gap)) in
      subst (λ z. leb_ℤ (pos 3) z ≡ true) (sym (duration_of-halved len)) (ground arith);
  wide = omega (arith, brief_min, brief_gap);
  some_gap = omega (arith, brief_gap);
}

few_at : length (runs rational (envelope (on_air ++ after_it)) 1 2_000_000 1) ≤ 4096
unfolding runs slice_all slice_sample close_run push_run duration_of us_per_sample samples_in
    envelope
few_at = omega arith

starts : StartsBelow 1 (envelope (on_air ++ after_it))
unfolding envelope
starts = omega arith

silent : All (λ m. m < 1) (envelope after_it)
unfolding envelope
silent =
    (omega arith, (omega arith, (omega arith, (omega arith, (omega arith, (omega arith, tt))))))

push-split_bursts_example :
    timings_of
      (push rational (Detector.new rational brief_config) (window ++ (on_air ++ after_it))).1
    ≡ split_bursts
        (offline_runs rational brief_config
          (first_threshold rational brief_config window)
          (on_air ++ after_it))
        (pos 3)
        3
push-split_bursts_example =
    push-split_bursts rational brief_config window on_air after_it 11 brief-IsTimed (omega arith)
      (omega arith) (omega arith) refl refl (omega arith)
      (subst (λ t. StartsBelow t (envelope (on_air ++ after_it))) (sym window_threshold) starts)
      (subst (λ t. All (λ m. m < t) (envelope after_it)) (sym window_threshold) silent)
      (omega (arith, brief_gap))
      (subst (λ t. length (offline_runs rational brief_config t (on_air ++ after_it)) ≤ 4096)
        (sym window_threshold) few_at)

-- The burst is heard.
one_burst :
    split_bursts (runs rational (envelope (on_air ++ after_it)) 1 2_000_000 1) (pos 3) 3
    ≡ (pos 2 ∷ negsuc 1 ∷ pos 2 ∷ []) ∷ []
unfolding runs slice_all slice_sample close_run push_run duration_of us_per_sample samples_in
    envelope split_bursts
one_burst = refl

-- A signal that starts with a mark of one sample: offline the mark is kept, and the detector folds it
-- into a space of no duration.
abbrev abrupt : List ℕ
abrupt = replicate 1 100 ++ 0 ∷ replicate 4 0 ++ replicate 4 100 ++ replicate 12 0

offline_keeps :
    split_bursts (runs rational (envelope abrupt) 1 2_000_000 1) (pos 3) 3
    ≡ (pos 1 ∷ negsuc 0 ∷ pos 1 ∷ []) ∷ []
unfolding runs slice_all slice_sample close_run push_run duration_of us_per_sample samples_in
    envelope split_bursts
offline_keeps = refl

detector_folds :
    timings_of (push rational (tuned_to rational (Detector.new rational brief_config) 1) abrupt).1
    ≡ []
unfolding push push_samples step slice push_sample extend_run finished_run end_on_gap emit_run
    flush_pending finish_burst accumulate take_burst retune_if_due Detector.new duration_of
    us_per_sample samples_in Bursts.push Bursts.new
detector_folds = refl
