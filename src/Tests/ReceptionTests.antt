-- ===== src/Tests/ReceptionTests.antt =====
-- A frame that is sent twice after a silent window, and the streaming detector of proxyd/src/ook.rs.
use hackrf_proxy.Base.{
  true, ℕ, ◌≤◌, List, [], ◌∷◌, ◌++◌, replicate, leb, ◌≡◌, refl, sym, subst, arith,
}
use hackrf_proxy.Base.Int.{ℤ, pos, negsuc}
use hackrf_proxy.Ook.Envelope.{envelope}
use hackrf_proxy.Ook.Histogram
use hackrf_proxy.Ook.Histogram.{add_magnitude, add_all, percentile}
use hackrf_proxy.Ook.Runs.{duration_of, us_per_sample, samples_in}
use hackrf_proxy.Ook.Bursts.Heard.{IsSendable}
use hackrf_proxy.Ook.Detector
use hackrf_proxy.Ook.Detector.{DetectorConfig, tuned_threshold, push}
use hackrf_proxy.Ook.Detector.View.{timings_of}
use hackrf_proxy.Ook.Detector.Warmup.{first_threshold}
use hackrf_proxy.Ook.Render.{sample_count}
use hackrf_proxy.Ook.Render.RoundTrip.{IsExact}
use hackrf_proxy.Ook.Reception.Detection.{sent, quiet_end, render_transmission-detected}
use hackrf_proxy.Tests.Rational.{rational, Fraction}
use hackrf_proxy.Tests.StreamTests.{brief_config, brief-IsTimed}

abbrev wide_config : DetectorConfig Fraction
wide_config = record brief_config { window_samples = 50 }

abbrev silent_window : List ℕ
silent_window = replicate 100 0

silent_threshold : first_threshold rational wide_config silent_window ≡ 1
unfolding tuned_threshold add_all add_magnitude percentile envelope Histogram.new
silent_threshold = refl

abbrev Exact : ℤ → Type 0
Exact t = IsExact rational 2_000_000 (samples_in rational 2_000_000 (rational.of_ℕ 1)) t

pause-Exact : Exact (negsuc 0)
unfolding sample_count samples_in us_per_sample duration_of
pause-Exact = record {
  some_samples = omega arith;
  long_enough = omega arith;
  countable = omega arith;
  exact = refl;
}

three-Exact : Exact (pos 3)
unfolding sample_count samples_in us_per_sample duration_of
three-Exact = record {
  some_samples = omega arith;
  long_enough = omega arith;
  countable = omega arith;
  exact = refl;
}

dip-Exact : Exact (negsuc 1)
unfolding sample_count samples_in us_per_sample duration_of
dip-Exact = record {
  some_samples = omega arith;
  long_enough = omega arith;
  countable = omega arith;
  exact = refl;
}

two-Exact : Exact (pos 2)
unfolding sample_count samples_in us_per_sample duration_of
two-Exact = record {
  some_samples = omega arith;
  long_enough = omega arith;
  countable = omega arith;
  exact = refl;
}

rest-Exact : Exact (negsuc 2)
unfolding sample_count samples_in us_per_sample duration_of
rest-Exact = record {
  some_samples = omega arith;
  long_enough = omega arith;
  countable = omega arith;
  exact = refl;
}

frame-IsSendable : IsSendable (pos 3) 3 2 (negsuc 1 ∷ pos 2 ∷ [])
frame-IsSendable = record {
  brief = (omega arith, ((omega arith, refl), (omega arith, tt)));
  ends = refl;
  at_least = omega arith;
  at_most = omega arith;
}

last_silence :
    samples_in rational 2_000_000 (rational.of_ℤ (pos 3))
    ≤ sample_count rational 2_000_000 (negsuc 2)
unfolding sample_count samples_in us_per_sample
last_silence = omega arith

render_transmission-detected_example :
    timings_of
      (push rational (Detector.new rational wide_config) (
        silent_window
        ++ (sent rational wide_config 2 (negsuc 1 ∷ pos 2 ∷ []) 1 2 0 2 (pos 100)
            ++ quiet_end rational wide_config 2 (negsuc 1 ∷ pos 2 ∷ []) 1 2 0 2 (pos 100)))).1
    ≡ replicate 2 (pos 3 ∷ negsuc 1 ∷ pos 2 ∷ [])
unfolding sample_count
render_transmission-detected_example =
    render_transmission-detected rational wide_config 2 (negsuc 1 ∷ pos 2 ∷ []) 1 2 0 2 (pos 100)
      silent_window brief-IsTimed (omega arith) (omega arith) (omega arith) refl
      (subst (λ t. leb t 100 ≡ true) (sym silent_threshold) refl) (refl, (refl, tt))
      frame-IsSendable
      (
        pause-Exact,
        (
          three-Exact,
          (
            dip-Exact,
            (two-Exact, (rest-Exact, (three-Exact, (dip-Exact, (two-Exact, (rest-Exact, tt)))))),
          ),
        ),
      )
      refl refl last_silence (omega arith) (omega arith)
