-- ===== src/Cli/Options.antt =====
-- The options of the command line, `Command` of proxyd/src/main.rs, and the values that they have
-- when they are not given. `F` is the type of `f64`; a path is its text.
use hackrf_proxy.Base.{ℕ, Bool, Option, String}
use hackrf_proxy.Base.Int.{ℤ}

pub record ScanOptions (F : Type 0) : Type 0 where
  pub freqs : String
  pub rate : ℕ
  pub lna : ℕ
  pub vga : ℕ
  pub amp : Bool
  pub dwell : F
  pub passes : ℕ

pub record CaptureOptions (F : Type 0) : Type 0 where
  pub freq : ℕ
  pub rate : ℕ
  pub lna : ℕ
  pub vga : ℕ
  pub amp : Bool
  pub seconds : F
  pub out : String

-- `Command::Demod`, and `DemodArgs`, which has the same fields.
pub record DemodArgs (F : Type 0) : Type 0 where
  pub input : String
  pub sample_rate : ℕ
  pub threshold : F
  pub min_us : ℕ
  pub gap_us : ℤ
  pub min_edges : ℕ
  pub bucket_us : ℤ
  pub burst : ℕ
  pub stream : Bool
  pub out : Option String
  pub out_all : Option String

pub record ServeOptions : Type 0 where
  pub listen : String
  pub rx_freq : ℕ
  pub no_rx : Bool
  pub rate : ℕ
  pub lna : ℕ
  pub vga : ℕ
  pub rx_amp : Bool
  pub txvga : ℕ
  pub gap_us : ℤ
  pub min_edges : ℕ
  pub record_path : Option String

pub record TransmitOptions : Type 0 where
  pub freq : ℕ
  pub rate : ℕ
  pub txvga : ℕ
  pub amp : Bool
  pub repeat : ℕ
  pub gap_us : ℕ
  pub file : String

pub data Command (F : Type 0) : Type 0 where
  info : Command F
  scan : ScanOptions F → Command F
  capture : CaptureOptions F → Command F
  demod : DemodArgs F → Command F
  serve : ServeOptions → Command F
  transmit : TransmitOptions → Command F

-- `--freqs` of `scan`, and `--freq` and `--rx-freq` before they are parsed.
abbrev pub default_freqs : String
default_freqs = "315M,318M,390M,433.92M"

abbrev pub default_freq : String
default_freq = "315M"
