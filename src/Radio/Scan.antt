-- ===== src/Radio/Scan.antt =====
-- Sweeping over frequencies, `scan` of proxyd/src/radio.rs. What is printed is the list of readings,
-- newest first.
pub mod Readings
use hackrf_proxy.Base.{
  ℕ, zero, suc, ◌+◌, ◌-◌, min, Bool, true, false, List, [], ◌∷◌, ltb, leb, if◌then◌else◌, length,
}
use hackrf_proxy.Base.Words.{add_u64}
use hackrf_proxy.Base.Results.{Error, Result, ok, err}
use hackrf_proxy.Base.Programs.{Run, out_of_fuel, done, failed, and_then, call}
use hackrf_proxy.Base.Floats.{F64}
use hackrf_proxy.Ook.Histogram
use hackrf_proxy.Ook.Histogram.{AmplitudeHistogram, Levels, add_iq, levels}
use hackrf_proxy.Radio.Gains.{validate_rx_gains, validate_sample_rate}
use hackrf_proxy.Radio.Driver.{Driver, open_radio, transfer_size}
use hackrf_proxy.Radio.Capture.{Files, accept, rx_config, bytes_in}

abbrev pub saturated : ℕ
saturated = 250

pub record ScanParams (F : Type 0) : Type 0 where
  pub frequencies : List ℕ
  pub sample_rate : ℕ
  pub lna_db : ℕ
  pub vga_db : ℕ
  pub amp_enable : Bool
  pub dwell_seconds : F
  pub passes : ℕ

-- The peak and the 99.9th percentile of a band.
pub record Reading : Type 0 where
  pub peak : ℕ
  pub signal : ℕ

pub record Sweep : Type 0 where
  pub saturated_bands : ℕ
  pub readings : List Reading

pub record Dwell : Type 0 where
  pub histogram : AmplitudeHistogram
  pub collected : ℕ

unfoldable pub note : Sweep → Reading → Sweep
note s r = record {
  saturated_bands =
      if leb saturated r.signal then add_u64 s.saturated_bands 1 else s.saturated_bands;
  readings = r ∷ s.readings;
}

module _ {Handle Stream W : Type 0} (drv : Driver Handle Stream W) where
  unfoldable pub dwell_chunk : ℕ → Stream → Dwell → W → Run W Dwell
  dwell_chunk total stream d w =
      and_then (call (drv.read_sync stream (min (total - d.collected) transfer_size) w)) λ chunk w'.
        done
          (record {
            histogram = add_iq d.histogram chunk;
            collected = add_u64 d.collected (length chunk);
          })
          w'

  -- `while collected < dwell_bytes`, on fuel for so many rounds.
  unfoldable pub dwell_loop : ℕ → ℕ → Stream → Dwell → W → Run W Dwell
  unfolding dwell_chunk
  dwell_loop zero total stream d w = if ltb d.collected total then out_of_fuel else done d w
  dwell_loop (suc fuel) total stream d w =
      let rest =
        and_then (dwell_chunk total stream d w) λ d' w'. dwell_loop fuel total stream d' w' in
      if ltb d.collected total then rest else done d w

  module _ (fp : F64) (fuel total : ℕ) (radio : Handle) (stream : Stream) where
    open fp use {Float, literal}

    unfoldable pub reading_of : Dwell → Reading
    reading_of d = record {
      peak = d.histogram.peak;
      signal = (levels fp d.histogram (literal 5 1)).signal;
    }

    -- The round for one frequency, on fuel for its dwell.
    unfoldable pub scan_band : ℕ → Sweep → W → Run W Sweep
    unfolding dwell_loop note reading_of
    scan_band frequency s w = and_then (call (drv.set_freq radio frequency w)) λ u w₁.
        and_then (call (drv.read_sync stream transfer_size w₁)) λ transient w₂.
          and_then
            (dwell_loop fuel total stream (record { histogram = Histogram.new; collected = 0 }) w₂)
            λ d w₃. done (note s (reading_of d)) w₃

    unfoldable pub scan_bands : List ℕ → Sweep → W → Run W Sweep
    unfolding scan_band
    scan_bands [] s w = done s w
    scan_bands (f ∷ fs) s w = and_then (scan_band f s w) λ s' w'. scan_bands fs s' w'

    -- `for pass in 1..=passes`
    unfoldable pub scan_passes : ℕ → List ℕ → Sweep → W → Run W Sweep
    unfolding scan_bands
    scan_passes zero frequencies s w = done s w
    scan_passes (suc passes) frequencies s w =
        and_then (scan_bands frequencies s w) λ s' w'. scan_passes passes frequencies s' w'

  module _ {File : Type 0} (files : Files File W) (fp : F64) (no_frequencies : Error) where
    open fp use {Float}

    -- The sweep, once there is a frequency to start at.
    unfoldable pub scan_from : ℕ → ScanParams Float → ℕ → W → Run W Sweep
    unfolding scan_passes
    scan_from fuel p first w₂ = and_then (call (open_radio drv w₂)) λ radio w₃.
        and_then
          (call (
            drv.start_rx radio (rx_config drv p.sample_rate p.lna_db p.vga_db p.amp_enable first)
              w₃))
          λ u w₄. and_then (call (drv.start_rx_stream radio transfer_size w₄)) λ stream w₅.
            scan_passes fp fuel (bytes_in drv files fp p.dwell_seconds p.sample_rate) radio stream
              p.passes p.frequencies (record { saturated_bands = 0; readings = [] }) w₅

    unfoldable pub scan_some : ℕ → ScanParams Float → List ℕ → W → Run W Sweep
    unfolding scan_from
    scan_some fuel p [] w = failed no_frequencies w
    scan_some fuel p (first ∷ rest) w = scan_from fuel p first w

    unfoldable pub scan : ℕ → ScanParams Float → W → Run W Sweep
    unfolding scan_some
    scan fuel p w₀ = and_then (accept drv (validate_rx_gains p.lna_db p.vga_db) w₀) λ u w₁.
        and_then (accept drv (validate_sample_rate p.sample_rate) w₁)
          λ u w₂. scan_some fuel p p.frequencies w₂
