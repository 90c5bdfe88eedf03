-- ===== src/Engine/World.antt =====
-- What the arbiter is given: the trait `Transceiver` of proxyd/src/engine.rs, and the clocks and
-- files of the standard library. `W` is the state of the world outside the arbiter.
use hackrf_proxy.Base.{ℕ, Bool, Option, List, String}
use hackrf_proxy.Base.Results.{Error, Result}
use hackrf_proxy.Wire.{RxFrame}

pub record TxParams : Type 0 where
  pub frequency_hz : ℕ
  pub sample_rate : ℕ
  pub txvga_db : ℕ
  pub amp_enable : Bool

pub record Transceiver (W : Type 0) : Type 0 where
  pub start_rx : ℕ → W → Result Error (Unit {0}) × W
  -- `read` takes the buffer and gives it back.
  pub read : List ℕ → W → Result Error (Unit {0}) × List ℕ × W
  pub stop : W → Result Error (Unit {0}) × W
  pub transmit : TxParams → List ℕ → W → Result Error (Unit {0}) × W
  pub describe : W → Result Error String × W

-- Times are in nanoseconds, but for `system_now`: milliseconds since the epoch, if not before it.
pub record Os (W : Type 0) : Type 0 where
  pub instant_now : W → ℕ × W
  pub system_now : W → Option ℕ × W
  pub sleep : ℕ → W → W
  pub open_append : String → W → Result Error (Unit {0}) × W
  -- One frame as a line of JSON, flushed.
  pub write_line : String → RxFrame → W → Result Error (Unit {0}) × W
