-- ===== src/Cli/Commands.antt =====
-- What each command does with its options, `main`, `info`, `transmit` and the start of `serve` of
-- proxyd/src/main.rs. The daemon that `serve` then starts is a parameter here; it is modelled in
-- Engine and Server.
pub mod Gain
pub mod Replay
use hackrf_proxy.Base.{ℕ, Bool, true, false, not, Option, none, some, List, [], ◌∷◌, String}
use hackrf_proxy.Base.Results.{Error, Result, ok, err}
use hackrf_proxy.Base.Programs.{Run, done, failed, and_then, call}
use hackrf_proxy.Base.Int.{ℤ, pos}
use hackrf_proxy.Base.Floats.{F64}
use hackrf_proxy.Ook.Detector.{DetectorConfig}
use hackrf_proxy.Ook.Render.{render_transmission}
use hackrf_proxy.Engine.State
use hackrf_proxy.Engine.State.{Config}
use hackrf_proxy.Radio.Gains.{Refusal, validate_tx_gain}
use hackrf_proxy.Radio.Align.{pad_to_alignment}
use hackrf_proxy.Radio.Driver.{Driver, open_radio}
use hackrf_proxy.Radio.Device
use hackrf_proxy.Radio.Device.{DeviceSettings, Device}
use hackrf_proxy.Radio.Capture
use hackrf_proxy.Radio.Capture.{Files, CaptureParams, accept}
use hackrf_proxy.Radio.Scan
use hackrf_proxy.Radio.Scan.{ScanParams}
use hackrf_proxy.Radio.Send
use hackrf_proxy.Radio.Send.{TransmitParams}
use hackrf_proxy.Cli.Daemon.{Host, serve_daemon}
use hackrf_proxy.Cli.Options.{
  Command, ScanOptions, CaptureOptions, DemodArgs, ServeOptions, TransmitOptions, info, scan,
  capture, demod, serve, transmit,
}
use hackrf_proxy.Cli.Frequency.{FloatText, FrequencyError, parse_frequencies}
use hackrf_proxy.Cli.Demod
use hackrf_proxy.Cli.Demod.{Desk}

module _ {F : Type 0} where
  abbrev pub scan_params : ScanOptions F → List ℕ → ScanParams F
  scan_params o frequencies = record {
    frequencies = frequencies;
    sample_rate = o.rate;
    lna_db = o.lna;
    vga_db = o.vga;
    amp_enable = o.amp;
    dwell_seconds = o.dwell;
    passes = o.passes;
  }

  abbrev pub capture_params : CaptureOptions F → CaptureParams F
  capture_params o = record {
    frequency_hz = o.freq;
    sample_rate = o.rate;
    lna_db = o.lna;
    vga_db = o.vga;
    amp_enable = o.amp;
    seconds = o.seconds;
  }

abbrev pub device_settings : ServeOptions → DeviceSettings
device_settings o = record {
  sample_rate = o.rate;
  lna_db = o.lna;
  vga_db = o.vga;
  rx_amp = o.rx_amp;
}

abbrev pub transmit_params : TransmitOptions → TransmitParams
transmit_params o = record {
  frequency_hz = o.freq;
  sample_rate = o.rate;
  txvga_db = o.txvga;
  amp_enable = o.amp;
}

module _ {F : Type 0} where
  abbrev pub with_edges : ServeOptions → DetectorConfig F → DetectorConfig F
  with_edges o d = record d { gap_us = o.gap_us; min_edges = o.min_edges }

  abbrev pub with_options : ServeOptions → Config F → Config F
  with_options o config = record config {
    rx_enabled = not o.no_rx;
    txvga_db = o.txvga;
    detector = with_edges o config.detector;
    record_path = o.record_path;
  }

unfoldable pub serve_config : (fp : F64) → ServeOptions → Config fp.Float
serve_config fp o = with_options o (State.config_new fp o.rate o.rx_freq)

-- `serve`, up to the start of the radio thread: the device and the configuration.
unfoldable pub serve_setup :
    (fp : F64) {Handle Stream : Type 0}
    → ServeOptions
    → Result Refusal (Device Handle Stream × Config fp.Float)
unfolding serve_config
serve_setup fp o = elim (validate_tx_gain o.txvga) [
  | err e ↦ err e
  | ok u ↦ elim (Device.new (device_settings o)) [
    | err e ↦ err e
    | ok device ↦ ok (device, serve_config fp o)
  ]
]

-- `std::fs::read_to_string` with `serde_json::from_str`, the code points of a text, what `serve` asks
-- of the host, and the texts of the errors.
pub record Shell (D C Listener Arrivals W : Type 0) : Type 0 where
  pub read_timings : String → W → Result Error (List ℤ) × W
  pub code_points : String → List ℕ
  pub host : Host D C Listener Arrivals W
  pub no_timings : String → Error
  pub bad_frequencies : FrequencyError → Error
  pub nothing_to_send : Error
  pub no_frequencies : Error

-- A result of no interest.
abbrev pub ignored : {W A : Type 0} → Run W A → Run W (Unit {0})
ignored r = and_then r λ a w. done tt w

module _ {Handle Stream W : Type 0} (drv : Driver Handle Stream W) (fp : F64) where
  open fp use {Float}

  module _ {Listener Arrivals : Type 0}
      (sh : Shell (Device Handle Stream) (Config Float) Listener Arrivals W) where
    -- `transmit`, once the timings are read.
    unfoldable pub transmit_timings : List ℤ → TransmitOptions → W → Run W (Unit {0})
    transmit_timings [] o w = failed (sh.no_timings o.file) w
    transmit_timings (t ∷ ts) o w =
        Send.send drv sh.nothing_to_send (transmit_params o)
          (pad_to_alignment (render_transmission fp (t ∷ ts) o.repeat o.gap_us o.rate (pos 100))) w

    unfoldable pub transmit_file : TransmitOptions → W → Run W (Unit {0})
    unfolding transmit_timings
    transmit_file o w = and_then (call (sh.read_timings o.file w)) λ ts w'. transmit_timings ts o w'

    -- `radio::open`, `board_id` and `version`.
    unfoldable pub show_info : W → Run W (Unit {0})
    show_info w = and_then (call (open_radio drv w)) λ h w'. ignored (call (drv.identify h w'))

    unfoldable pub start_daemon : ServeOptions → W → Run W (Unit {0})
    unfolding serve_setup serve_daemon
    start_daemon o w = elim (serve_setup fp {Handle = Handle} {Stream = Stream} o) [
      | err e ↦ failed (drv.refusal_text e) w
      | ok (device, config) ↦ serve_daemon sh.host o.listen device config w
    ]

    module _ {File : Type 0} (files : Files File W) (float : FloatText Float) where
      unfoldable pub scan_all : ℕ → ScanOptions Float → W → Run W (Unit {0})
      scan_all fuel o w = elim (parse_frequencies fp float (sh.code_points o.freqs)) [
        | err e ↦ failed (sh.bad_frequencies e) w
        | ok hzs ↦ ignored (Scan.scan drv files fp sh.no_frequencies fuel (scan_params o hzs) w)
      ]

      -- `main`, on fuel for the loops of `capture` and `scan`.
      unfoldable pub run_command : Desk File W → ℕ → Command Float → W → Run W (Unit {0})
      unfolding transmit_file show_info start_daemon scan_all
      run_command desk fuel info w = show_info w
      run_command desk fuel (scan o) w = scan_all fuel o w
      run_command desk fuel (capture o) w =
          ignored (Capture.capture drv files fp fuel (capture_params o) o.out w)
      run_command desk fuel (demod args) w = Demod.demod desk fp args w
      run_command desk fuel (serve o) w = start_daemon o w
      run_command desk fuel (transmit o) w = transmit_file o w
