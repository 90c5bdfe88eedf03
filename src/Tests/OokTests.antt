-- ===== src/Tests/OokTests.antt =====
-- Signals, concretely.
use hackrf_proxy.Base.{
  ◌↔◌, ℕ, ◌+◌, ◌≤◌, ◌<◌, true, false, some, List, [], ◌∷◌, ◌++◌, ◌≡◌, refl, arith, All, length, map,
  replicate,
}
use hackrf_proxy.Base.Int.{ℤ, pos, negsuc}
use hackrf_proxy.Ook.Envelope.{envelope}
use hackrf_proxy.Ook.Histogram
use hackrf_proxy.Ook.Histogram.{add_all, percentile, target_count}
use hackrf_proxy.Ook.Histogram.Quantile.{count_below, percentile_quantile}
use hackrf_proxy.Ook.Runs.{Run, runs, samples_in}
use hackrf_proxy.Ook.Runs.Alternation.{Alternates, runs-Alternates}
use hackrf_proxy.Ook.Bursts.{split_bursts}
use hackrf_proxy.Ook.Bursts.Edges.{IsFrame}
use hackrf_proxy.Ook.Bursts.Frames.{split_bursts-IsFrame}
use hackrf_proxy.Ook.Detector
use hackrf_proxy.Ook.Detector.{Detector, push}
use hackrf_proxy.Ook.Detector.Stream.{push-append}
use hackrf_proxy.Ook.Detector.Threshold.{push-tunes}
use hackrf_proxy.Ook.Render.{synthesize, render_transmission}
use hackrf_proxy.Ook.Render.RoundTrip.{run_of, IsExact, synthesize-runs}
use hackrf_proxy.Ook.Render.Hearing.{render_transmission-heard}
use hackrf_proxy.Ook.Bursts.Heard.{IsSendable}
use hackrf_proxy.Ook.Reports.{compare_bursts}
use hackrf_proxy.Ook.Reports.Agreement.{compare_bursts-agree}
use hackrf_proxy.Ook.Detector.Bounds.{push-bounds}
use hackrf_proxy.Tests.Rational.{rational}
use hackrf_proxy.Tests.Fixtures.{detector_config}

percentile_quantile_example :
    let h = add_all Histogram.new (3 ∷ 100 ∷ 4 ∷ []) in
    let v = percentile rational h.counts h.total (rational.literal 50 2) in
    let target = target_count rational 3 (rational.literal 50 2) in
    (count_below v (3 ∷ 100 ∷ 4 ∷ []) < target) × (target ≤ count_below (v + 1) (3 ∷ 100 ∷ 4 ∷ []))
unfolding target_count
percentile_quantile_example =
    percentile_quantile rational (3 ∷ 100 ∷ 4 ∷ []) (rational.literal 50 2)
      (omega arith, (omega arith, (omega arith, tt))) (omega arith) (omega arith) (omega arith)

runs-Alternates_example : Alternates (runs rational (0 ∷ 100 ∷ 100 ∷ 0 ∷ []) 50 2_000_000 0)
runs-Alternates_example = runs-Alternates rational (0 ∷ 100 ∷ 100 ∷ 0 ∷ []) 50 2_000_000 0

-- 400 us on, 400 us off, 400 us on.
abbrev three_runs : List Run
three_runs =
    record { on = true; us = pos 400 }
    ∷ record { on = false; us = pos 400 }
    ∷ record { on = true; us = pos 400 }
    ∷ []

split_bursts-IsFrame_example :
    All (IsFrame (pos 3_000) 2 4096) (split_bursts three_runs (pos 3_000) 2)
split_bursts-IsFrame_example =
    split_bursts-IsFrame three_runs (pos 3_000) 2 (omega arith)
      ((399, omega arith, refl), ((399, omega arith, refl), ((399, omega arith, refl), tt)))

synthesize-runs_example :
    runs rational
      (envelope (synthesize rational (pos 3 ∷ negsuc 1 ∷ pos 2 ∷ []) 2_000_000 (pos 100)))
      50
      2_000_000
      1
    ≡ map run_of (pos 3 ∷ negsuc 1 ∷ pos 2 ∷ [])
unfolding synthesize runs
synthesize-runs_example =
    synthesize-runs rational (pos 3 ∷ negsuc 1 ∷ pos 2 ∷ []) (pos 100) 50 2_000_000 1 refl refl
      (refl, (refl, tt))
      (
        record {
          some_samples = omega arith;
          long_enough = omega arith;
          countable = omega arith;
          exact = refl;
        },
        (
          record {
            some_samples = omega arith;
            long_enough = omega arith;
            countable = omega arith;
            exact = refl;
          },
          (
            record {
              some_samples = omega arith;
              long_enough = omega arith;
              countable = omega arith;
              exact = refl;
            },
            tt,
          ),
        ),
      )

push-append_example :
    let d = Detector.new rational detector_config in
    let (d', first) = push rational d (100 ∷ 0 ∷ []) in
    let (d'', rest) = push rational d' (0 ∷ 0 ∷ []) in
    push rational d (100 ∷ 0 ∷ 0 ∷ 0 ∷ []) ≡ (d'', first ++ rest)
push-append_example =
    push-append rational (Detector.new rational detector_config) 1 (100 ∷ 0 ∷ []) (0 ∷ 0 ∷ []) refl

push-tunes_example :
    (t : ℕ) × ((push rational
        (Detector.new rational detector_config)
        (100 ∷ 0 ∷ 0 ∷ 0 ∷ [])).0.threshold
      ≡ some t)
    × (1 ≤ t)
push-tunes_example =
    push-tunes rational detector_config (100 ∷ 0 ∷ 0 ∷ 0 ∷ []) (omega arith) (omega arith)
      (omega arith)

-- A burst that is sent twice.
abbrev repeated : List ℤ
repeated = pos 400 ∷ negsuc 399 ∷ pos 400 ∷ []

compare_bursts-agree_example :
    (compare_bursts (repeated ∷ repeated ∷ [])
      ≡ some (record { same_edge_count = true; max_deviation_us = pos 0 }))
    ↔ All (λ other. other ≡ repeated) (repeated ∷ [])
compare_bursts-agree_example =
    compare_bursts-agree repeated (repeated ∷ []) (omega arith, (omega arith, (omega arith, tt)))
      ((omega arith, (omega arith, (omega arith, tt))), tt)

push-bounds_example :
    let (d, bursts) = push rational (Detector.new rational detector_config) (100 ∷ 0 ∷ []) in
    (length d.accumulator.current ≤ 4096)
    × All (λ b. (detector_config.min_edges ≤ length b.timings) × (length b.timings ≤ 4096)) bursts
push-bounds_example = push-bounds rational detector_config (100 ∷ 0 ∷ [])

-- A frame of 3, 2 and 2 us, and the gap of 5 us between its repetitions, in samples of half a
-- microsecond.
abbrev short_frame : List ℤ
short_frame = pos 3 ∷ negsuc 1 ∷ pos 2 ∷ []

short_frame-IsSendable : IsSendable (pos 5) 3 2 (negsuc 1 ∷ pos 2 ∷ [])
short_frame-IsSendable = record {
  brief = (omega arith, ((omega arith, refl), (omega arith, tt)));
  ends = refl;
  at_least = omega arith;
  at_most = omega arith;
}

abbrev Exact : ℤ → Type 0
Exact t = IsExact rational 2_000_000 (samples_in rational 2_000_000 (rational.of_ℕ 1)) t

short_frame-Exact : All Exact (negsuc 4 ∷ short_frame)
unfolding synthesize runs
short_frame-Exact = (
  record {
    some_samples = omega arith;
    long_enough = omega arith;
    countable = omega arith;
    exact = refl;
  },
  (
    record {
      some_samples = omega arith;
      long_enough = omega arith;
      countable = omega arith;
      exact = refl;
    },
    (
      record {
        some_samples = omega arith;
        long_enough = omega arith;
        countable = omega arith;
        exact = refl;
      },
      (
        record {
          some_samples = omega arith;
          long_enough = omega arith;
          countable = omega arith;
          exact = refl;
        },
        tt,
      ),
    ),
  ),
)

render_transmission-heard_example :
    split_bursts
      (runs rational
        (envelope (render_transmission rational short_frame 2 5 2_000_000 (pos 100)))
        50
        2_000_000
        1)
      (pos 5)
      3
    ≡ replicate 3 short_frame
render_transmission-heard_example =
    render_transmission-heard rational 2 (negsuc 1 ∷ pos 2 ∷ []) 2 4 2_000_000 (pos 100) 50 1
      (pos 5) 3 refl refl (refl, (refl, tt)) short_frame-IsSendable short_frame-Exact.1
      short_frame-Exact.0 refl
