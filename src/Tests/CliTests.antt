-- ===== src/Tests/CliTests.antt =====
-- The command line, concretely.
use hackrf_proxy.Base.{ℕ, List, [], ◌∷◌, ◌++◌, ◌≡◌, refl, some, none, false, map, arith, replicate}
use hackrf_proxy.Base.Int.{ℤ, pos, negsuc}
use hackrf_proxy.Base.Results.{ok}
use hackrf_proxy.Base.Programs.{EndsIn, done, and_then, call}
use hackrf_proxy.Base.Text.{is_whitespace, trim, strip_suffix, lower_char}
use hackrf_proxy.Wire.{Transmit, validate}
use hackrf_proxy.Wire.Validate.{IsWellFormed, validate_exact}
use hackrf_proxy.Engine.Commands.{tx_params, waveform}
use hackrf_proxy.Radio.Gains.{validate_tx_gain, validate_rx_gains, validate_sample_rate}
use hackrf_proxy.Radio.Driver.{transfers, open_radio}
use hackrf_proxy.Engine.World.{Transceiver}
use hackrf_proxy.Engine.State.{Config, config_new}
use hackrf_proxy.Radio.Align.{pad_to_alignment}
use hackrf_proxy.Ook.Render.{render_transmission, synthesize}
use hackrf_proxy.Ook.Bursts.{split_bursts}
use hackrf_proxy.Ook.Runs.{runs}
use hackrf_proxy.Ook.Envelope.{envelope}
use hackrf_proxy.Ook.Histogram.{levels_of}
use hackrf_proxy.Cli.Options.{TransmitOptions}
use hackrf_proxy.Radio.Device
use hackrf_proxy.Radio.Device.{device_transceiver}
use hackrf_proxy.Radio.Device.Transmission.{Call, logged, written}
use hackrf_proxy.Ook.Reports.{width_histogram, compare_bursts}
use hackrf_proxy.Ook.Reports.Widths.{Rises, count_at, widths_in, width_histogram-counts}
use hackrf_proxy.Cli.Frequency.{parse_frequencies}
use hackrf_proxy.Cli.Options.{DemodArgs}
use hackrf_proxy.Cli.Demod.{
  offline_demod, demod_raw, found, get_elem?, burst_index, stream_demod, stream_config,
}
use hackrf_proxy.Cli.Demod.Chunking.{stream_demod-whole}
use hackrf_proxy.Cli.Demod.Reporting
use hackrf_proxy.Cli.Demod.Reporting.{writes_of, demod_raw-writes}
use hackrf_proxy.Cli.Commands.{Shell, serve_config, serve_setup, device_settings, transmit_timings}
use hackrf_proxy.Cli.Commands.Gain.{serve_setup-gain}
use hackrf_proxy.Cli.Commands.Replay.{sent, transmit_timings-same}
use hackrf_proxy.Ook.Detector
use hackrf_proxy.Tests.Rational.{rational, Fraction}
use hackrf_proxy.Tests.Fixtures.{
  float_text, desk, demod_args, serve_options, transmit_options, device, driver, frame,
}

-- "315M,390 mhz"
abbrev freqs : List ℕ
freqs = b'3' ∷ b'1' ∷ b'5' ∷ b'M' ∷ b',' ∷ b'3' ∷ b'9' ∷ b'0' ∷ b' ' ∷ b'm' ∷ b'h' ∷ b'z' ∷ []

abbrev parsed : List ℕ
parsed = 315_000_000 ∷ 315_000_000 ∷ []

freqs_parsed : parse_frequencies rational float_text freqs ≡ ok parsed
unfolding parse_frequencies trim is_whitespace lower_char strip_suffix
freqs_parsed = refl

-- Two samples of silence, and then of carrier.
abbrev raw : List ℕ
raw = 0 ∷ 0 ∷ 0 ∷ 0 ∷ 100 ∷ 0 ∷ 100 ∷ 0 ∷ []

stream_demod-whole_example :
    (stream_demod rational raw demod_args).0
    ≡ map
        (λ b. b.timings)
        (Detector.push rational
          (Detector.new rational
            (stream_config demod_args (Detector.config_new rational 2_000_000)))
          raw).1
stream_demod-whole_example = stream_demod-whole rational raw demod_args

-- 4 us of carrier between silences, and its bursts to both files.
abbrev keyed : List ℕ
keyed =
    replicate 20 0
    ++ (100
        ∷ 0
        ∷ 100
        ∷ 0
        ∷ 100
        ∷ 0
        ∷ 100
        ∷ 0
        ∷ 100
        ∷ 0
        ∷ 100
        ∷ 0
        ∷ 100
        ∷ 0
        ∷ 100
        ∷ 0
        ∷ replicate 20 0)

abbrev both_files : DemodArgs Fraction
both_files = record demod_args {
  min_us = 1;
  gap_us = pos 3;
  min_edges = 1;
  out_all = some "all.json";
}

keyed_bursts : (found rational keyed both_files).0 ≡ (pos 4 ∷ []) ∷ []
unfolding found offline_demod split_bursts runs envelope levels_of
keyed_bursts = refl

keyed_reported :
    demod_raw (Reporting.logged desk) rational keyed both_files ([], tt)
    ≡ done tt (
      Reporting.Write.creates "all.json"
          ∷ Reporting.Write.bursts_to "all.json" ((pos 4 ∷ []) ∷ [])
          ∷ Reporting.Write.creates "burst.json"
          ∷ Reporting.Write.timings_to "burst.json" (pos 4 ∷ [])
          ∷ [],
      tt,
    )
unfolding demod_raw found offline_demod split_bursts runs envelope levels_of width_histogram
    and_then call compare_bursts
keyed_reported = refl

demod_raw-writes_example :
    EndsIn
      (λ u s'.
        s'.0
        ≡ []
          ++ writes_of
              (found rational keyed both_files).0
              both_files
              (get_elem? (found rational keyed both_files).0 (burst_index 1)))
      (demod_raw (Reporting.logged desk) rational keyed both_files ([], tt))
demod_raw-writes_example = demod_raw-writes desk rational keyed both_files 49 ([], tt) refl

-- Widths on both sides of 0, some of them between the multiples of 50.
abbrev widths : List ℤ
widths = negsuc 509 ∷ negsuc 499 ∷ pos 500 ∷ pos 510 ∷ []

abbrev counted : List (ℤ × ℕ)
counted = (negsuc 549, 1) ∷ (negsuc 499, 1) ∷ (pos 500, 2) ∷ []

widths_counted : width_histogram widths (pos 50) ≡ some counted
unfolding width_histogram
widths_counted = refl

width_histogram-counts_example :
    Rises counted × ((k : ℤ) → count_at k counted ≡ widths_in 50 k widths)
width_histogram-counts_example =
    width_histogram-counts widths 49 counted widths_counted
      (omega arith, (omega arith, (omega arith, (omega arith, tt)))) (omega arith)

abbrev daemon_device : Device.Device (Unit {0}) (Unit {0})
daemon_device = record { settings = device_settings serve_options; radio = none; rx = none }

set_up :
    serve_setup rational serve_options ≡ ok (daemon_device, serve_config rational serve_options)
unfolding serve_setup validate_tx_gain validate_rx_gains validate_sample_rate Device.new
set_up = refl

frame-IsWellFormed : IsWellFormed frame
frame-IsWellFormed = record {
  some_timings = ground arith;
  few_timings = omega arith;
  no_zero = (ground arith, (ground arith, (ground arith, tt)));
  tunable = (omega arith, omega arith);
  gain_possible = λ g h. ground arith;
}

frame_is_valid : validate frame ≡ ok tt
frame_is_valid = (validate_exact frame (omega arith)).1 (frame-IsWellFormed, omega arith)

serve_setup-gain_example :
    validate_tx_gain ((tx_params frame (serve_config rational serve_options)).txvga_db) ≡ ok tt
serve_setup-gain_example =
    serve_setup-gain rational serve_options daemon_device (serve_config rational serve_options)
      frame set_up frame_is_valid

-- One microsecond of carrier.
abbrev blip : Transmit
blip = record {
  frequency = 433_920_000;
  timings = pos 1 ∷ [];
  repeat = 1;
  gap_us = 0;
  txvga_db = none;
  amp = false;
}

abbrev blip_options : TransmitOptions
blip_options = record transmit_options { repeat = 1; gap_us = 0 }

abbrev serving : Config Fraction
serving = serve_config rational serve_options

abbrev shell :
    Shell
      (Device.Device (Unit {0}) (Unit {0}))
      (Config Fraction)
      (Unit {0})
      (Unit {0})
      (List Call × Unit {0})
shell = record {
  read_timings = λ p w. (ok (pos 1 ∷ []), w);
  code_points = λ s. freqs;
  host = record {
    start_radio = λ d c w. (ok tt, w);
    build_runtime = λ w. (ok tt, w);
    bind = λ listen w. (ok tt, w);
    watch_for_arrivals = λ w. (ok tt, w);
    spawn_forwarder = λ arrivals w. w;
    accept_connections = λ listener w. (ok tt, w);
    drop_runtime = λ w. w;
    join_radio = λ w. (ok tt, w);
  };
  no_timings = λ p. "no timings";
  bad_frequencies = λ e. "bad frequencies";
  nothing_to_send = "nothing to send";
  no_frequencies = "no frequencies";
}

abbrev radio : Transceiver (Device.Device (Unit {0}) (Unit {0}) × (List Call × Unit {0}))
radio = device_transceiver (logged driver)

blip_goes_out :
    (sent driver rational shell device [] tt tt
      (tx_params blip serving)
      (waveform rational radio blip serving)).0
    ≡ ok tt
unfolding Device.transmit validate_tx_gain transfers open_radio waveform tx_params serve_config
    pad_to_alignment render_transmission synthesize config_new
blip_goes_out = refl

transmit_timings-same_example :
    EndsIn
      (λ u s.
        written s.0
        ≡ written
            (sent driver rational shell device [] tt tt
              (tx_params blip serving)
              (waveform rational radio blip serving)).1.1.0)
      (transmit_timings (logged driver) rational shell (pos 1 ∷ []) blip_options ([], tt))
transmit_timings-same_example =
    transmit_timings-same driver rational shell device [] tt tt radio blip_options serve_options
      blip refl refl refl blip_goes_out
