-- ===== src/Ook/Detector.antt =====
-- The streaming detector, `Detector` of proxyd/src/ook.rs.
pub mod Stream
pub mod View
pub mod Warmup
pub mod Offline
pub mod Threshold
pub mod Bounds
pub mod Peak
use hackrf_proxy.Base.{
  ℕ, zero, suc, Bool, true, false, Option, none, some, List, [], ◌∷◌, ◌++◌, ◌&&◌, ◌||◌, not, ltb,
  leb, ◌==◌, if◌then◌else◌, same, max,
}
use hackrf_proxy.Base.Words.{add_u64, saturating_add_u16, saturating_sub}
use hackrf_proxy.Base.Int.{ℤ}
use hackrf_proxy.Base.Floats.{F64}
use hackrf_proxy.Ook.Envelope.{samples, magnitude}
use hackrf_proxy.Ook.Histogram
use hackrf_proxy.Ook.Histogram.{AmplitudeHistogram, add_magnitude, percentile}
use hackrf_proxy.Ook.Runs.{Run, lengthen, duration_of, samples_in}
use hackrf_proxy.Ook.Bursts
use hackrf_proxy.Ook.Bursts.{BurstAccumulator}

pub record Burst : Type 0 where
  pub timings : List ℤ
  pub peak : ℕ

-- `F` is the type of `f64`.
pub record DetectorConfig (F : Type 0) : Type 0 where
  pub sample_rate : ℕ
  pub threshold_fraction : F
  pub min_us : ℕ
  pub gap_us : ℤ
  pub min_edges : ℕ
  pub noise_sigmas : F
  pub window_samples : ℕ

pub record Detector (F : Type 0) : Type 0 where
  pub config : DetectorConfig F
  pub histogram : AmplitudeHistogram
  pub window_seen : ℕ
  pub threshold : Option ℕ
  pub min_samples : ℕ
  pub gap_samples : ℕ
  pub on : Bool
  pub run_samples : ℕ
  pub pending : Option Run
  pub accumulator : BurstAccumulator
  pub burst_peak : ℕ

module _ {F : Type 0} where
  unfoldable pub take_burst : Detector F → Option (List ℤ) → Detector F × List Burst
  take_burst d none = (d, [])
  take_burst d (some timings) =
      (record d { burst_peak = 0 }, record { timings = timings; peak = d.burst_peak } ∷ [])

  -- `self.accumulator.push(run)`, and the burst that it may return.
  unfoldable pub accumulate : Detector F → Run → Detector F × List Burst
  unfolding take_burst
  accumulate d run =
      let (a, burst) = Bursts.push d.accumulator run in
      take_burst (record d { accumulator = a }) burst

  -- `self.accumulator.finish()`, and the burst that it may return.
  unfoldable pub finish_burst : Detector F → Detector F × List Burst
  unfolding take_burst
  finish_burst d =
      let (a, burst) = Bursts.finish d.accumulator in
      take_burst (record d { accumulator = a }) burst

  -- `emit_run`, on what is pending.
  unfoldable pub emit_run : Detector F → Run → Detector F × List Burst
  unfolding accumulate
  emit_run d run = elim d.pending [
    | none ↦ (record d { pending = some run }, [])
    | some previous ↦
        if ltb d.run_samples d.min_samples || same previous.on run.on
        then (record d { pending = some (lengthen previous run.us) }, [])
        else accumulate (record d { pending = some run }) previous
  ]

  -- The run that is pending is handed over, `self.pending.take()`.
  unfoldable pub flush_pending : Detector F → Detector F × List Burst
  unfolding accumulate
  flush_pending d = elim d.pending [
    | none ↦ (d, [])
    | some run ↦ accumulate (record d { pending = none }) run
  ]

  -- A silence that has just reached the gap ends the burst.
  unfoldable pub end_on_gap : Detector F → Detector F × List Burst
  unfolding flush_pending finish_burst
  end_on_gap d =
      if not d.on && (d.run_samples == d.gap_samples)
      then (let (d', first) = flush_pending d in
          let (d'', second) = finish_burst d' in (d'', first ++ second))
      else (d, [])

  abbrev pub raise_peak : Bool → ℕ → Detector F → Detector F
  raise_peak true m d = record d { burst_peak = max d.burst_peak m }
  raise_peak false m d = d

module _ (fp : F64) where
  open fp use {Float, literal, of_ℕ, of_ℤ, mul, div, round, to_u16}

  unfoldable pub config_new : ℕ → DetectorConfig Float
  config_new sample_rate = record {
    sample_rate = sample_rate;
    threshold_fraction = literal 5 1;
    min_us = 40;
    gap_us = ℤ.pos 3_000;
    min_edges = 8;
    noise_sigmas = literal 80 1;
    window_samples = sample_rate;
  }

  unfoldable pub new : DetectorConfig Float → Detector Float
  new config = record {
    config = config;
    histogram = Histogram.new;
    window_seen = 0;
    threshold = none;
    min_samples = samples_in fp config.sample_rate (of_ℕ config.min_us);
    gap_samples = samples_in fp config.sample_rate (of_ℤ config.gap_us);
    on = false;
    run_samples = 0;
    pending = none;
    accumulator = Bursts.new config.gap_us config.min_edges;
    burst_peak = 0;
  }

  unfoldable pub finished_run : Detector Float → Run
  finished_run d = record { on = d.on; us = duration_of fp d.config.sample_rate d.run_samples }

  -- The first half of `push_sample`: the run that the sample continues or ends.
  unfoldable pub extend_run : Detector Float → Bool → Detector Float × List Burst
  unfolding finished_run
  extend_run d on =
      if same on d.on
      then (record d { run_samples = add_u64 d.run_samples 1 }, [])
      else let (d', bursts) = emit_run d (finished_run d) in
        (record d' { on = on; run_samples = 1 }, bursts)

  unfoldable pub push_sample : Detector Float → ℕ → ℕ → Detector Float × List Burst
  unfolding extend_run
  push_sample d magnitude threshold =
      let on = leb threshold magnitude in
      let (d', first) = extend_run d on in
      let (d'', second) = end_on_gap (raise_peak on magnitude d') in (d'', first ++ second)

  -- The threshold that `retune` sets.
  unfoldable pub tuned_threshold : DetectorConfig Float → AmplitudeHistogram → ℕ
  tuned_threshold config h =
      let floor = percentile fp h.counts h.total (literal 50 2) in
      let quartile = percentile fp h.counts h.total (literal 75 2) in
      let signal = percentile fp h.counts h.total (literal 999 3) in
      let sigma = div (of_ℕ (saturating_sub quartile floor)) (literal 674 3) in
      let robust_floor =
        saturating_add_u16 floor (to_u16 (round (mul sigma config.noise_sigmas))) in
      let span = of_ℕ (saturating_sub signal floor) in
      let sliced = saturating_add_u16 floor (to_u16 (round (mul span config.threshold_fraction))) in
      max (max robust_floor sliced) 1

  unfoldable pub retune : Detector Float → Detector Float
  unfolding tuned_threshold
  retune d = record d {
    threshold = some (tuned_threshold d.config d.histogram);
    histogram = Histogram.new;
    window_seen = 0;
  }

  -- The `if let Some(threshold)` of `push`.
  unfoldable pub slice : Detector Float → ℕ → Detector Float × List Burst
  unfolding push_sample
  slice d magnitude = elim d.threshold [
    | none ↦ (d, [])
    | some threshold ↦ push_sample d magnitude threshold
  ]

  unfoldable pub retune_if_due : Detector Float → Detector Float
  unfolding retune
  retune_if_due d = if leb d.config.window_samples d.window_seen then retune d else d

  -- One round of the loop in `push`.
  unfoldable pub step : Detector Float → ℕ × ℕ → Detector Float × List Burst
  unfolding slice retune_if_due
  step d sample =
      let m = magnitude sample in
      let measured = record d {
        histogram = add_magnitude d.histogram m;
        window_seen = add_u64 d.window_seen 1;
      } in
      let (d', bursts) = slice measured m in (retune_if_due d', bursts)

  unfoldable pub push_samples : Detector Float → List (ℕ × ℕ) → Detector Float × List Burst
  unfolding step
  push_samples d [] = (d, [])
  push_samples d (s ∷ ss) =
      let (d', first) = step d s in let (d'', rest) = push_samples d' ss in (d'', first ++ rest)

  unfoldable pub push : Detector Float → List ℕ → Detector Float × List Burst
  unfolding push_samples
  push d iq = push_samples d (samples iq)
