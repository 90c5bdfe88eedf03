-- ===== src/Radio/Capture.antt =====
-- Recording samples to a file, `capture` of proxyd/src/radio.rs. The file system is a parameter; the
-- level readout is the list of what is logged, newest first.
pub mod Ending
use hackrf_proxy.Base.{
  ℕ, zero, suc, ◌+◌, ◌-◌, min, max, Bool, true, false, Option, none, some, List, [], ◌∷◌, String,
  ltb, leb, if◌then◌else◌, length,
}
use hackrf_proxy.Base.Words.{add_u64, mul_u64}
use hackrf_proxy.Base.Results.{Error, Result, ok, err}
use hackrf_proxy.Base.Programs.{Run, out_of_fuel, done, failed, and_then, call}
use hackrf_proxy.Base.Floats.{F64}
use hackrf_proxy.Ook.Envelope.{peak_magnitude}
use hackrf_proxy.Radio.Gains.{Refusal, validate_rx_gains, validate_sample_rate}
use hackrf_proxy.Radio.Driver.{Driver, DriverConfig, open_radio, transfer_size}

pub record Files (File W : Type 0) : Type 0 where
  pub create : String → W → Result Error File × W
  pub write_all : File → List ℕ → W → Result Error (Unit {0}) × W
  pub flush : File → W → Result Error (Unit {0}) × W

pub record CaptureParams (F : Type 0) : Type 0 where
  pub frequency_hz : ℕ
  pub sample_rate : ℕ
  pub lna_db : ℕ
  pub vga_db : ℕ
  pub amp_enable : Bool
  pub seconds : F

-- The variables of the loop; a readout is the bytes written and the peak of the interval.
pub record Meter : Type 0 where
  pub written : ℕ
  pub interval_peak : ℕ
  pub interval_bytes : ℕ
  pub overall_peak : ℕ
  pub readouts : List (ℕ × ℕ)

abbrev pub new_meter : Meter
new_meter = record {
  written = 0;
  interval_peak = 0;
  interval_bytes = 0;
  overall_peak = 0;
  readouts = [];
}

-- What a chunk does to the variables.
unfoldable pub measure : ℕ → Meter → List ℕ → Meter
measure bytes_per_second m chunk =
    let peak = peak_magnitude chunk in
    let m' : Meter = record m {
      interval_peak = max m.interval_peak peak;
      overall_peak = max m.overall_peak peak;
      written = add_u64 m.written (length chunk);
      interval_bytes = add_u64 m.interval_bytes (length chunk);
    } in
    if leb bytes_per_second m'.interval_bytes
    then record m' {
      readouts = (m'.written, m'.interval_peak) ∷ m'.readouts;
      interval_peak = 0;
      interval_bytes = 0;
    }
    else m'

module _ {Handle Stream W : Type 0} (drv : Driver Handle Stream W) where
  -- `?` on a check of the settings.
  abbrev pub accept : Result Refusal (Unit {0}) → W → Run W (Unit {0})
  accept (ok u) w = done tt w
  accept (err e) w = failed (drv.refusal_text e) w

  abbrev pub rx_config : ℕ → ℕ → ℕ → Bool → ℕ → DriverConfig
  rx_config sample_rate lna_db vga_db amp_enable frequency_hz = record {
    lna_db = lna_db;
    vga_db = vga_db;
    txvga_db = 0;
    amp_enable = amp_enable;
    antenna_enable = false;
    frequency_hz = frequency_hz;
    sample_rate_hz = sample_rate;
    sample_rate_div = 1;
  }

  module _ {File : Type 0} (files : Files File W) where
    -- One round of the loop.
    unfoldable pub capture_chunk : ℕ → ℕ → Stream → File → Meter → W → Run W Meter
    unfolding measure
    capture_chunk total bytes_per_second stream file m w =
        and_then (call (drv.read_sync stream (min (total - m.written) transfer_size) w)) λ chunk w₁.
          and_then (call (files.write_all file chunk w₁))
            λ u w₂. done (measure bytes_per_second m chunk) w₂

    -- `while written < total_bytes`, on fuel for so many rounds.
    unfoldable pub capture_loop : ℕ → ℕ → ℕ → Stream → File → Meter → W → Run W Meter
    unfolding capture_chunk
    capture_loop zero total bytes_per_second stream file m w =
        if ltb m.written total then out_of_fuel else done m w
    capture_loop (suc fuel) total bytes_per_second stream file m w =
        let rest =
          and_then (capture_chunk total bytes_per_second stream file m w)
            λ m' w'. capture_loop fuel total bytes_per_second stream file m' w' in
        if ltb m.written total then rest else done m w

    module _ (fp : F64) where
      open fp use {Float, of_ℕ, mul, to_u64}

      -- `(seconds * f64::from(sample_rate)) as usize * BYTES_PER_SAMPLE`
      unfoldable pub bytes_in : Float → ℕ → ℕ
      bytes_in seconds sample_rate = mul_u64 (to_u64 (mul seconds (of_ℕ sample_rate))) 2

      unfoldable pub capture : ℕ → CaptureParams Float → String → W → Run W Meter
      unfolding capture_loop bytes_in
      capture fuel p out w₀ = and_then (accept (validate_rx_gains p.lna_db p.vga_db) w₀) λ u w₁.
          and_then (accept (validate_sample_rate p.sample_rate) w₁) λ u w₂.
            and_then (call (open_radio drv w₂)) λ radio w₃.
              and_then
                (call (
                  drv.start_rx radio
                    (rx_config p.sample_rate p.lna_db p.vga_db p.amp_enable p.frequency_hz) w₃))
                λ u w₄. and_then (call (drv.start_rx_stream radio transfer_size w₄)) λ stream w₅.
                  and_then (call (files.create out w₅)) λ file w₆.
                    and_then
                      (capture_loop fuel (bytes_in p.seconds p.sample_rate)
                        (mul_u64 p.sample_rate 2) stream file new_meter w₆)
                      λ m w₇. and_then (call (files.flush file w₇)) λ u w₈. done m w₈
