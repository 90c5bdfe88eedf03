-- ===== src/Radio/Send.antt =====
-- Transmitting a prepared buffer from the command line, `transmit` of proxyd/src/radio.rs.
pub mod Sameness
use hackrf_proxy.Base.{ℕ, Bool, true, false, List, [], ◌∷◌}
use hackrf_proxy.Base.Results.{Error, Result, ok, err}
use hackrf_proxy.Base.Programs.{Run, done, failed, and_then, call}
use hackrf_proxy.Radio.Gains.{validate_tx_gain, validate_sample_rate}
use hackrf_proxy.Radio.Driver.{Driver, DriverConfig, open_radio, write_all, transfers}
use hackrf_proxy.Radio.Capture.{accept}

pub record TransmitParams : Type 0 where
  pub frequency_hz : ℕ
  pub sample_rate : ℕ
  pub txvga_db : ℕ
  pub amp_enable : Bool

abbrev pub tx_config : TransmitParams → DriverConfig
tx_config p = record {
  lna_db = 0;
  vga_db = 0;
  txvga_db = p.txvga_db;
  amp_enable = p.amp_enable;
  antenna_enable = false;
  frequency_hz = p.frequency_hz;
  sample_rate_hz = p.sample_rate;
  sample_rate_div = 1;
}

module _ {Handle Stream W : Type 0} (drv : Driver Handle Stream W) (nothing_to_send : Error) where
  -- `ensure!(!samples.is_empty())`
  abbrev pub ensure_samples : List ℕ → W → Run W (Unit {0})
  ensure_samples [] w = failed nothing_to_send w
  ensure_samples (s ∷ ss) w = done tt w

  unfoldable pub send : TransmitParams → List ℕ → W → Run W (Unit {0})
  send p samples w₀ = and_then (accept drv (validate_tx_gain p.txvga_db) w₀) λ u w₁.
      and_then (accept drv (validate_sample_rate p.sample_rate) w₁) λ u w₂.
        and_then (ensure_samples samples w₂) λ u w₃. and_then (call (open_radio drv w₃)) λ radio w₄.
          and_then (call (drv.start_tx radio (tx_config p) w₄)) λ u w₅.
            and_then (call (drv.start_tx_stream radio w₅)) λ stream w₆.
              and_then (call (write_all drv stream (transfers samples).0 w₆))
                λ u w₇. call (write_all drv stream (transfers samples).1 w₇)
