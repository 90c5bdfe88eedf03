-- ===== src/Ook/Detector/Offline/Streaming.antt =====
-- `Detector::push` of proxyd/src/ook.rs on a first window and the signal after it, and the signal
-- sliced offline.
use hackrf_proxy.Base.{
  ℕ, zero, suc, ◌+◌, ◌*◌, ◌≤◌, ◌<◌, Bool, false, List, [], ◌∷◌, ◌++◌, All, length, length-append,
  length-map, map-append, map, reverse, ◌≡◌, refl, sym, ap, ◌∙◌, subst, arith, leb,
}
use hackrf_proxy.Base.Int.{ℤ, i64_max}
use hackrf_proxy.Base.Floats.{F64}
use hackrf_proxy.Ook.Envelope.{samples, magnitude, envelope}
use hackrf_proxy.Ook.Runs.{Run, duration_of, samples_in, close_run, slice_all, runs}
use hackrf_proxy.Ook.Bursts
use hackrf_proxy.Ook.Bursts.{split_bursts}
use hackrf_proxy.Ook.Detector.{Detector, DetectorConfig, Burst, new, push_samples, push}
use hackrf_proxy.Ook.Detector.Stream.{samples-append, push-append}
use hackrf_proxy.Ook.Detector.Warmup.{tuned_to, first_threshold, push-first_window}
use hackrf_proxy.Ook.Detector.View.{View, timings_of, hear_all}
use hackrf_proxy.Ook.Detector.Offline.{IsTimed, cut_all, closed, fresh, slicer, viewer}
use hackrf_proxy.Ook.Detector.Offline.Steady.{sides, push_samples-steady}
use hackrf_proxy.Ook.Detector.Offline.Ending.{slice_all-cut, AllOff}
use hackrf_proxy.Ook.Detector.Offline.Refinement.{hear_all-split_bursts}

pub length-samples : (n : ℕ) (iq : List ℕ) → length iq ≡ 2 * n → length (samples iq) ≡ n
length-samples n [] h = omega arith
length-samples n (x ∷ []) h = ground arith
length-samples zero (x ∷ y ∷ iq) h = ground arith
length-samples (suc n) (x ∷ y ∷ iq) h = ap suc (length-samples n iq (omega arith))

-- A signal starts below a threshold.
abbrev pub StartsBelow : ℕ → List ℕ → Type 0
StartsBelow t [] = Unit
StartsBelow t (m ∷ ms) = m < t

below-AllOff :
    (t : ℕ) (ss : List (ℕ × ℕ)) → All (λ m. m < t) (map magnitude ss) → AllOff (sides t ss)
below-AllOff t [] h = tt
below-AllOff t (s ∷ ss) (low, h) = (ground arith, below-AllOff t ss h)

levels-sides : (t : ℕ) (ss : List (ℕ × ℕ)) → map (λ m. leb t m) (map magnitude ss) ≡ sides t ss
levels-sides t [] = refl
levels-sides t (s ∷ ss) = ap (λ l. leb t (magnitude s) ∷ l) (levels-sides t ss)

module _ (fp : F64) (config : DetectorConfig fp.Float) where
  abbrev pub shortest : ℕ
  shortest = samples_in fp config.sample_rate (fp.of_ℕ config.min_us)

  abbrev pub gap : ℕ
  gap = samples_in fp config.sample_rate (fp.of_ℤ config.gap_us)

  abbrev pub lasts : ℕ → ℤ
  lasts len = duration_of fp config.sample_rate len

  -- The signal, sliced offline.
  abbrev pub offline_runs : ℕ → List ℕ → List Run
  offline_runs t iq = runs fp (envelope iq) t config.sample_rate config.min_us

  runs-cut :
      (t : ℕ) (ms : List ℕ)
      → 1 ≤ length ms
      → StartsBelow t ms
      → runs fp ms t config.sample_rate config.min_us
        ≡ reverse (
            closed lasts shortest
              (cut_all lasts shortest (slicer (fresh false 0)) (map (λ m. leb t m) ms)))
  unfolding runs close_run
  runs-cut t [] some_sample low = absurd (omega arith)
  runs-cut t (m ∷ ms) some_sample low =
      let below : leb t m ≡ false = ground arith in
      ap
        (λ b. reverse (
          closed lasts shortest (
            slice_all fp t config.sample_rate shortest
              (record { out = []; current_on = b; len = 0 }) (m ∷ ms))))
        below
      ∙ ap (λ s. reverse (closed lasts shortest s))
          (slice_all-cut fp t config.sample_rate shortest (slicer (fresh false 0)) (m ∷ ms))

  -- What the detector returns for a signal, from when it has set the threshold.
  push_samples-runs :
      (t : ℕ) (signal quiet : List (ℕ × ℕ))
      → IsTimed lasts shortest gap config.gap_us
      → 1 ≤ config.min_edges
      → config.window_samples ≤ i64_max
      → length (signal ++ quiet) < config.window_samples
      → StartsBelow t (map magnitude (signal ++ quiet))
      → All (λ m. m < t) (map magnitude quiet)
      → gap ≤ length quiet
      → let out = runs fp (map magnitude (signal ++ quiet)) t config.sample_rate config.min_us in
        length out ≤ 4096
        → timings_of (push_samples fp (tuned_to fp (new fp config) t) (signal ++ quiet)).1
          ≡ split_bursts out config.gap_us config.min_edges
  unfolding new Bursts.new
  push_samples-runs t signal quiet timed some_edge fits early low silent long few =
      let ss = signal ++ quiet in
      let some_sample : 1 ≤ length (map magnitude ss) =
        omega (arith, timed.some_gap, length-map magnitude ss, length-append signal quiet) in
      let side : ℕ × ℕ → Bool = λ s. leb t (magnitude s) in
      let split = map-append side signal quiet in
      let total = length-append signal quiet in
      let offline : runs fp (map magnitude ss) t config.sample_rate config.min_us
          ≡ reverse (
              closed lasts shortest (
                cut_all lasts shortest (slicer (fresh false 0))
                  (sides t signal ++ sides t quiet))) =
        runs-cut t (map magnitude ss) some_sample low
        ∙ ap
            (λ l.
              reverse (closed lasts shortest (cut_all lasts shortest (slicer (fresh false 0)) l)))
            (levels-sides t ss ∙ split) in
      ap (λ (v : View). v.gathered.1)
        (push_samples-steady fp config t shortest gap [] (tuned_to fp (new fp config) t) ss
            (omega arith)
            (record {
              same_config = refl;
              at = refl;
              shortest = refl;
              gap = refl;
              not_due = omega arith;
            })
          ∙ ap
              (λ l.
                hear_all lasts shortest gap (viewer config.gap_us config.min_edges (fresh false 0))
                  l)
              split)
      ∙ hear_all-split_bursts lasts shortest gap config.gap_us config.min_edges timed some_edge
          (sides t signal) (sides t quiet) (below-AllOff t quiet silent)
          (omega (arith, long, length-map side quiet))
          (omega (arith, early, total, ap length split, length-map side ss))
          (subst (λ out. length out ≤ 4096) offline few)
      ∙ ap (λ out. split_bursts out config.gap_us config.min_edges) (sym offline)

  -- At its first threshold, the streaming path refines the offline path. A fresh detector is given
  -- a first window of samples, then a signal that starts below the threshold that the window
  -- sets and then a silence of at least the gap, the two shorter than a second window and of at
  -- most 4096 runs. It returns the bursts, in order, that `split_bursts` finds in the
  -- `runs` of signal and silence at that threshold. Durations are as `IsTimed` says, the window is
  -- below 2^63, bursts have an edge, and both window and signal are of whole samples.
  pub push-split_bursts :
      (first iq silence : List ℕ) (n : ℕ)
      → IsTimed lasts shortest gap config.gap_us
      → 1 ≤ config.min_edges
      → 1 ≤ config.window_samples
      → config.window_samples ≤ i64_max
      → length first ≡ 2 * config.window_samples
      → length iq ≡ 2 * n
      → n + length (samples silence) < config.window_samples
      → StartsBelow (first_threshold fp config first) (envelope (iq ++ silence))
      → All (λ m. m < first_threshold fp config first) (envelope silence)
      → gap ≤ length (samples silence)
      → length (offline_runs (first_threshold fp config first) (iq ++ silence)) ≤ 4096
      → timings_of (push fp (new fp config) (first ++ (iq ++ silence))).1
        ≡ split_bursts
            (offline_runs (first_threshold fp config first) (iq ++ silence))
            config.gap_us
            config.min_edges
  unfolding push envelope
  push-split_bursts first iq silence n timed some_edge some_window fits whole even early low silent
        long few =
      let t = first_threshold fp config first in
      let cut = samples-append n iq silence even in
      let sized = length-samples n iq even in
      let warm =
        push-first_window fp config first some_window (omega arith)
          (length-samples config.window_samples first whole) in
      ap (λ r. timings_of r.1)
        (push-append fp (new fp config) config.window_samples first (iq ++ silence) whole)
      ∙ ap
          (λ (r : Detector fp.Float × List Burst).
            timings_of (r.1 ++ (push fp r.0 (iq ++ silence)).1))
          warm
      ∙ ap (λ ss. timings_of (push_samples fp (tuned_to fp (new fp config) t) ss).1) cut
      ∙ push_samples-runs t (samples iq) (samples silence) timed some_edge fits
          (omega (arith, early, sized, length-append (samples iq) (samples silence)))
          (subst (λ ss. StartsBelow t (map magnitude ss)) cut low) silent long
          (subst
            (λ ss. length (runs fp (map magnitude ss) t config.sample_rate config.min_us) ≤ 4096)
            cut few)
      ∙ ap
          (λ ss.
            split_bursts (runs fp (map magnitude ss) t config.sample_rate config.min_us)
              config.gap_us config.min_edges)
          (sym cut)
