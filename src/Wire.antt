-- ===== src/Wire.antt =====
-- The WebSocket protocol's types and the validation of requests, proxyd/src/wire.rs.
-- Numbers are naturals or integers; the ranges of their Rust types are stated where a theorem needs
-- them (`IsTyped`). Arithmetic that is not saturating wraps, as in a release build.
pub mod AirTime
pub mod Validate
pub mod Refusals
use hackrf_proxy.Base.{
  ℕ, zero, suc, ◌+◌, ◌*◌, ◌≤◌, Bool, true, false, Option, none, some, List, [], ◌∷◌, String, ltb,
  leb, if◌then◌else◌, length, All, ◌&&◌, not,
}
use hackrf_proxy.Base.Int.{ℤ, pos, negsuc, ◌+ℤ◌, ltb_ℤ, unsigned_abs, saturate, wrap_i64, InI64}
use hackrf_proxy.Base.Words.{u32_max}
use hackrf_proxy.Base.Results.{Error, Result, ok, err}

abbrev pub protocol_version : ℕ
protocol_version = 1

pub record Transmit : Type 0 where
  pub frequency : ℕ  -- u64
  pub timings : List ℤ  -- i64
  pub repeat : ℕ  -- u32
  pub gap_us : ℕ  -- u32
  pub txvga_db : Option ℕ  -- u16
  pub amp : Bool

pub record ConfigureRx : Type 0 where
  pub frequency : Option ℕ
  pub enabled : Bool

pub data RequestPayload : Type 0 where
  transmit : Transmit → RequestPayload
  configure_rx : ConfigureRx → RequestPayload
  status : RequestPayload

pub record Request : Type 0 where
  pub v : ℕ
  pub id : Option String
  pub payload : RequestPayload

pub record RxFrame : Type 0 where
  pub frequency : ℕ
  pub timings : List ℤ
  pub rssi : ℕ
  pub timestamp_ms : ℕ

pub data DeviceState : Type 0 where
  receiving transmitting idle faulted : DeviceState

pub record RxStatus : Type 0 where
  pub enabled : Bool
  pub frequency : ℕ
  pub sample_rate : ℕ
  pub threshold : Option ℕ

pub record Counters : Type 0 where
  pub rx_frames : ℕ
  pub transmissions : ℕ
  pub burst_overflows : ℕ
  pub device_faults : ℕ

pub record Status : Type 0 where
  pub daemon_version : String
  pub protocol_version : ℕ
  pub state : DeviceState
  pub device : Option String
  pub rx : RxStatus
  pub counters : Counters

pub data Invalid : Type 0 where
  empty zero_timing : Invalid
  too_many_timings : ℕ → Invalid
  frequency_out_of_range : ℕ → Invalid
  air_time_too_long : ℤ → Invalid
  gain_too_high : ℕ → Invalid

-- What an error message is formatted from: the messages of `dispatch` in proxyd/src/server.rs.
pub data ErrorText : Type 0 where
  could_not_parse : Error → ErrorText
  unsupported_version : ℕ → ErrorText
  invalid : Invalid → ErrorText
  untunable : ℕ → ErrorText
  from_radio : Error → ErrorText
  radio_thread_gone request_dropped : ErrorText

pub data MessagePayload : Type 0 where
  transmitted : ℤ → MessagePayload
  error : ErrorText → MessagePayload
  status : Status → MessagePayload
  rx_frame : RxFrame → MessagePayload
  device_state : DeviceState → MessagePayload

pub record Message : Type 0 where
  pub v : ℕ
  pub id : Option String
  pub payload : MessagePayload

unfoldable pub reply : Option String → MessagePayload → Message
reply id payload = record { v = protocol_version; id = id; payload = payload }

unfoldable pub event : MessagePayload → Message
event payload = record { v = protocol_version; id = none; payload = payload }

abbrev pub max_timings : ℕ
max_timings = 8192

abbrev pub max_air_time_us : ℕ
max_air_time_us = 30_000_000

-- `i64::saturating_abs`, `saturating_add` and `saturating_mul` by a value that is not negative.
abbrev pub saturating_abs : ℤ → ℤ
saturating_abs t = saturate (pos (unsigned_abs t))

abbrev pub saturating_add : ℤ → ℤ → ℤ
saturating_add a b = saturate (a +ℤ b)

abbrev pub saturating_mul : ℤ → ℕ → ℤ
saturating_mul (pos a) b = saturate (pos (a * b))
saturating_mul (negsuc a) zero = pos 0
saturating_mul (negsuc a) (suc b) = saturate (negsuc (a * suc b + b))

-- The `fold` over the timings.
pub frame_time : ℤ → List ℤ → ℤ
frame_time total [] = total
frame_time total (t ∷ ts) = frame_time (saturating_add total (saturating_abs t)) ts

-- The product of repetitions and gap is the one operation here that does not saturate.
pub air_time_us : Transmit → ℤ
unfolding frame_time
air_time_us r =
    let gaps = wrap_i64 (pos (r.repeat * r.gap_us)) in
    saturating_add (saturating_mul (frame_time (pos 0) r.timings) (r.repeat + 1)) gaps

pub is_zero : ℤ → Bool
is_zero (pos zero) = true
is_zero _ = false

-- `timings.contains(&0)`
pub contains_zero : List ℤ → Bool
contains_zero [] = false
contains_zero (t ∷ ts) = if is_zero t then true else contains_zero ts

unfoldable pub is_empty {ℓ} : {A : Type ℓ} → List A → Bool
is_empty [] = true
is_empty (x ∷ xs) = false

-- `(1_000_000..=6_000_000_000).contains(&frequency)`
unfoldable pub in_tuning_range : ℕ → Bool
in_tuning_range f = leb 1_000_000 f && leb f 6_000_000_000

-- The `if let Some(gain)` test: a gain that is given and exceeds 47 dB.
pub excess_gain : Option ℕ → Option ℕ
excess_gain none = none
excess_gain (some gain) = if ltb 47 gain then some gain else none

pub check_air_time : ℤ → Result Invalid (Unit {0})
check_air_time air_time =
    if ltb_ℤ (pos max_air_time_us) air_time then err (air_time_too_long air_time) else ok tt

unfoldable pub validate : Transmit → Result Invalid (Unit {0})
unfolding check_air_time
validate r =
    if is_empty r.timings
    then err empty
    else if ltb max_timings (length r.timings)
    then err (too_many_timings (length r.timings))
    else if contains_zero r.timings
    then err zero_timing
    else if not (in_tuning_range r.frequency)
    then err (frequency_out_of_range r.frequency)
    else elim (excess_gain r.txvga_db) [
      | some gain ↦ err (gain_too_high gain)
      | none ↦ check_air_time (air_time_us r)
    ]

-- The ranges that the Rust types of the fields give a request.
pub record IsTyped (r : Transmit) : Type 0 where
  pub timings_fit : All InI64 r.timings
  pub repeat_fits : r.repeat ≤ u32_max
  pub gap_fits : r.gap_us ≤ u32_max
