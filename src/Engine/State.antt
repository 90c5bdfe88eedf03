-- ===== src/Engine/State.antt =====
-- The arbiter's state and what it announces: `Config`, `Recorder`, `State`, `publish`, `announce`,
-- `fault` and `back_off` of proxyd/src/engine.rs. Events and replies are logged newest first.
use hackrf_proxy.Base.{
  ℕ, ◌+◌, ◌*◌, Bool, true, false, Option, none, some, List, ◌∷◌, String, min, not, ◌&&◌,
  if◌then◌else◌,
}
use hackrf_proxy.Base.Int.{ℤ, pos}
use hackrf_proxy.Base.Words.{add_u64}
use hackrf_proxy.Base.Results.{Error, Result, ok, err}
use hackrf_proxy.Base.Floats.{F64}
use hackrf_proxy.Ook.Detector
use hackrf_proxy.Ook.Detector.{Detector, DetectorConfig}
use hackrf_proxy.Wire.{
  DeviceState, receiving, transmitting, idle, faulted, Counters, Status, Message, event,
  device_state,
}
use hackrf_proxy.Engine.World.{Transceiver, Os}

pub record Config (F : Type 0) : Type 0 where
  pub sample_rate : ℕ
  pub rx_frequency : ℕ
  pub rx_enabled : Bool
  pub txvga_db : ℕ
  pub tx_amplitude : ℤ
  pub detector : DetectorConfig F
  pub record_path : Option String

unfoldable pub config_new : (fp : F64) → ℕ → ℕ → Config fp.Float
config_new fp sample_rate rx_frequency = record {
  sample_rate = sample_rate;
  rx_frequency = rx_frequency;
  rx_enabled = true;
  txvga_db = 30;
  tx_amplitude = pos 100;
  detector = Detector.config_new fp sample_rate;
  record_path = none;
}

pub record Recorder : Type 0 where
  pub path : String
  pub is_open : Bool  -- `file.is_some()`

-- 2 s, 60 s and 100 ms.
abbrev pub fault_backoff : ℕ
fault_backoff = 2_000_000_000

abbrev pub max_fault_backoff : ℕ
max_fault_backoff = 60_000_000_000

abbrev pub fault_poll : ℕ
fault_poll = 100_000_000

pub record State (F : Type 0) : Type 0 where
  pub config : Config F
  pub rx_enabled : Bool
  pub rx_frequency : ℕ
  pub rx_running : Bool
  pub is_faulted : Bool
  pub retry_at : ℕ
  pub backoff : ℕ
  pub receiving_proven : Bool
  pub device : Option String
  pub counters : Counters
  pub published : Option DeviceState

-- What goes back over a command's reply channel.
pub data Reply : Type 0 where
  transmit_done : Result Error ℤ → Reply
  configure_done : Result Error (Unit {0}) → Reply
  status_is : Status → Reply

-- All that the thread changes.
pub record Sys (F W : Type 0) : Type 0 where
  pub state : State F
  pub detector : Detector F
  pub buffer : List ℕ
  pub recorder : Option Recorder
  pub world : W
  pub events : List Message
  pub replies : List Reply

abbrev pub same_state : DeviceState → DeviceState → Bool
same_state receiving receiving = true
same_state transmitting transmitting = true
same_state idle idle = true
same_state faulted faulted = true
same_state _ _ = false

-- `self.published != Some(state)`, the other way round.
abbrev pub is_published : Option DeviceState → DeviceState → Bool
is_published none state = false
is_published (some old) state = same_state old state

abbrev pub to_option : {A : Type 0} → Result Error A → Option A
to_option (ok a) = some a
to_option (err e) = none

abbrev pub no_counts : Counters
no_counts = record { rx_frames = 0; transmissions = 0; burst_overflows = 0; device_faults = 0 }

unfoldable pub is_receiving : {F : Type 0} → State F → Bool
is_receiving s = s.rx_enabled && not s.is_faulted

-- `device_state`
unfoldable pub current_state : {F : Type 0} → State F → DeviceState
current_state s = if s.is_faulted then faulted else if s.rx_running then receiving else idle

module _ {F W : Type 0} where
  unfoldable pub announce : DeviceState → Sys F W → Sys F W
  announce state s = record s {
    state = record (s.state) { published = some state };
    events = event (device_state state) ∷ s.events;
  }

  unfoldable pub publish : Sys F W → Sys F W
  unfolding current_state announce
  publish s =
      if is_published s.state.published (current_state s.state)
      then s
      else announce (current_state s.state) s

module _ {F W : Type 0} (tr : Transceiver W) (os : Os W) where
  -- `State::new`
  unfoldable pub state_new : Config F → W → State F × W
  state_new config w =
      let (now, w') = os.instant_now w in
      let (description, w'') = tr.describe w' in
      (
        record {
          config = config;
          rx_enabled = config.rx_enabled;
          rx_frequency = config.rx_frequency;
          rx_running = false;
          is_faulted = false;
          retry_at = now;
          backoff = fault_backoff;
          receiving_proven = false;
          device = to_option description;
          counters = no_counts;
          published = none;
        },
        w'',
      )

module _ {F W : Type 0} (os : Os W) where
  unfoldable pub back_off : Sys F W → Sys F W
  back_off s =
      let backoff = min (s.state.backoff * 2) max_fault_backoff in
      let (now, w) = os.instant_now s.world in
      record s {
        state = record (s.state) { backoff = backoff; retry_at = now + backoff };
        world = w;
      }

  -- The error is only logged.
  unfoldable pub fault : Sys F W → Sys F W
  unfolding back_off publish
  fault s =
      let counters = record (s.state.counters) {
        device_faults = add_u64 s.state.counters.device_faults 1;
      } in
      let state = record (s.state) {
        is_faulted = true;
        rx_running = false;
        receiving_proven = false;
        counters = counters;
      } in
      publish (back_off (record s { state = state }))
