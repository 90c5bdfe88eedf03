-- ===== src/Tests/Fixtures.antt =====
-- Concrete requests, radios and clocks.
use hackrf_proxy.Base.{true, false, none, some, List, [], ◌∷◌}
use hackrf_proxy.Base.Int.{pos, negsuc}
use hackrf_proxy.Base.Results.{ok, err}
use hackrf_proxy.Wire.{Transmit, Request, RequestPayload}
use hackrf_proxy.Engine.World.{Transceiver, Os, TxParams}
use hackrf_proxy.Engine.State.{Config}
use hackrf_proxy.Engine.Commands.{Command}
use hackrf_proxy.Ook.Detector.{DetectorConfig}
use hackrf_proxy.Radio.Driver.{Driver}
use hackrf_proxy.Radio.Device.{Device}
use hackrf_proxy.Radio.Capture.{Files}
use hackrf_proxy.Cli.Options.{DemodArgs, ServeOptions, TransmitOptions}
use hackrf_proxy.Cli.Frequency.{FloatText}
use hackrf_proxy.Cli.Demod.{Desk}
use hackrf_proxy.Server.{Codec, Channels}
use hackrf_proxy.Tests.Rational.{rational, Fraction}

-- A frame of two marks, sent twice.
abbrev pub frame : Transmit
frame = record {
  frequency = 433_920_000;
  timings = pos 400 ∷ negsuc 399 ∷ pos 400 ∷ [];
  repeat = 1;
  gap_us = 5_000;
  txvga_db = some 20;
  amp = false;
}

-- One microsecond, repeated for ever.
abbrev pub endless : Transmit
endless = record {
  frequency = 433_920_000;
  timings = pos 1 ∷ [];
  repeat = 4_294_967_295;
  gap_us = 4_294_967_295;
  txvga_db = none;
  amp = false;
}

abbrev pub detector_config : DetectorConfig Fraction
detector_config = record {
  sample_rate = 2_000_000;
  threshold_fraction = rational.literal 5 1;
  min_us = 40;
  gap_us = pos 3_000;
  min_edges = 8;
  noise_sigmas = rational.literal 80 1;
  window_samples = 2;
}

abbrev pub config : Config Fraction
config = record {
  sample_rate = 2_000_000;
  rx_frequency = 433_920_000;
  rx_enabled = true;
  txvga_db = 30;
  tx_amplitude = pos 100;
  detector = detector_config;
  record_path = none;
}

-- A radio that does what it is asked.
abbrev pub willing : Transceiver (Unit {0})
willing = record {
  start_rx = λ f w. (ok tt, w);
  read = λ out w. (ok tt, 100 ∷ 0 ∷ [], w);
  stop = λ w. (ok tt, w);
  transmit = λ p b w. (ok tt, w);
  describe = λ w. (ok "a radio", w);
}

-- A radio that is not there.
abbrev pub absent : Transceiver (Unit {0})
absent = record {
  start_rx = λ f w. (err "no radio", w);
  read = λ out w. (err "no radio", out, w);
  stop = λ w. (err "no radio", w);
  transmit = λ p b w. (err "no radio", w);
  describe = λ w. (err "no radio", w);
}

-- A clock that stands still, and files that can be written.
abbrev pub still : Os (Unit {0})
still = record {
  instant_now = λ w. (0, w);
  system_now = λ w. (some 0, w);
  sleep = λ n w. w;
  open_append = λ p w. (ok tt, w);
  write_line = λ p f w. (ok tt, w);
}

-- A driver whose every call succeeds.
abbrev pub driver : Driver (Unit {0}) (Unit {0}) (Unit {0})
driver = record {
  open_first = λ w. (ok tt, w);
  scan = λ w. (none, w);
  set_freq = λ h f w. (ok tt, w);
  start_rx = λ h c w. (ok tt, w);
  start_rx_stream = λ h n w. (ok tt, w);
  read_sync = λ t n w. (ok [], w);
  start_tx = λ h c w. (ok tt, w);
  start_tx_stream = λ h w. (ok tt, w);
  write_sync = λ t b w. (ok tt, w);
  stop = λ h w. (ok tt, w);
  identify = λ h w. (ok "a radio", w);
  refusal_text = λ r. "refused";
  not_receiving = "not receiving";
  no_radio = λ e. e;
  no_access = λ e b a. e;
}

abbrev pub device : Device (Unit {0}) (Unit {0})
device = record {
  settings = record { sample_rate = 2_000_000; lna_db = 16; vga_db = 20; rx_amp = false };
  radio = none;
  rx = none;
}

abbrev pub params : TxParams
params = record {
  frequency_hz = 433_920_000;
  sample_rate = 2_000_000;
  txvga_db = 30;
  amp_enable = false;
}

abbrev pub request : Request
request = record { v = 1; id = some "7"; payload = RequestPayload.transmit frame }

-- Every text is that request.
abbrev pub codec : Codec
codec = record { parse = λ t. ok request; from_utf8_lossy = λ b. "" }

-- The commands that were sent, and no one who answers.
abbrev pub channels : Channels (List Command)
channels = record {
  send = λ c s. (true, c ∷ s);
  transmit_reply = λ s. (none, s);
  configure_reply = λ s. (none, s);
  status_reply = λ s. (none, s);
  queue = λ m s. (true, s);
}

-- A driver that reads one byte at a time.
abbrev pub trickling : Driver (Unit {0}) (Unit {0}) (Unit {0})
trickling = record driver { read_sync = λ t n w. (ok (100 ∷ []), w) }

-- Files that take everything.
abbrev pub files : Files (Unit {0}) (Unit {0})
files = record {
  create = λ p w. (ok tt, w);
  write_all = λ f b w. (ok tt, w);
  flush = λ f w. (ok tt, w);
}

-- A desk on which every capture is the same.
abbrev pub desk : Desk (Unit {0}) (Unit {0})
desk = record {
  read_file = λ p w. (ok (0 ∷ 0 ∷ []), w);
  create = λ p w. (ok tt, w);
  write_timings = λ f ts w. (ok tt, w);
  write_bursts = λ f bs w. (ok tt, w);
  flush = λ f w. (ok tt, w);
  print = λ l w. w;
  empty_capture = "capture is empty";
  no_bursts = "no bursts found";
  no_such_burst = λ n. "no such burst";
}

-- Every text is 315.
abbrev pub float_text : FloatText Fraction
float_text = record {
  parse = λ t. some (rational.literal 315 0);
  is_finite = λ a. true;
  is_positive = λ a. true;
}

abbrev pub demod_args : DemodArgs Fraction
demod_args = record {
  input = "capture.cs8";
  sample_rate = 2_000_000;
  threshold = rational.literal 5 1;
  min_us = 40;
  gap_us = pos 10_000;
  min_edges = 8;
  bucket_us = pos 50;
  burst = 1;
  stream = false;
  out = some "burst.json";
  out_all = none;
}

abbrev pub serve_options : ServeOptions
serve_options = record {
  listen = "0.0.0.0:8765";
  rx_freq = 315_000_000;
  no_rx = false;
  rate = 2_000_000;
  lna = 40;
  vga = 40;
  rx_amp = false;
  txvga = 30;
  gap_us = pos 3_000;
  min_edges = 8;
  record_path = none;
}

abbrev pub transmit_options : TransmitOptions
transmit_options = record {
  freq = 433_920_000;
  rate = 2_000_000;
  txvga = 20;
  amp = false;
  repeat = 1;
  gap_us = 5_000;
  file = "frame.json";
}
