-- ===== src/Tests/WireTests.antt =====
-- Requests, concretely.
use hackrf_proxy.Base.{[], refl, ◌+◌, ◌≤◌, ◌<◌, ◌≡◌, ◌↔◌, arith}
use hackrf_proxy.Base.Int.{i64_max, two64}
use hackrf_proxy.Base.Results.{ok}
use hackrf_proxy.Wire.{validate, max_air_time_us, IsTyped}
use hackrf_proxy.Wire.AirTime.{exact_air_time}
use hackrf_proxy.Wire.Validate.{IsWellFormed, validate_exact, validate_accepts_overflow}
use hackrf_proxy.Wire.{Transmit, empty, is_empty}
use hackrf_proxy.Base.Results.{err}
use hackrf_proxy.Wire.Refusals.{Reason, validate-Reason}
use hackrf_proxy.Tests.Fixtures.{frame, endless}

validate_exact_example :
    (validate frame ≡ ok tt) ↔ (IsWellFormed frame × (exact_air_time frame ≤ max_air_time_us))
validate_exact_example = validate_exact frame (omega arith)

endless-IsTyped : IsTyped endless
endless-IsTyped = record {
  timings_fit = (omega arith, tt);
  repeat_fits = omega arith;
  gap_fits = omega arith;
}

endless-IsWellFormed : IsWellFormed endless
endless-IsWellFormed = record {
  some_timings = ground arith;
  few_timings = omega arith;
  no_zero = (ground arith, tt);
  tunable = (omega arith, omega arith);
  gain_possible = λ g h. ground arith;
}

endless-exact : exact_air_time endless ≤ two64 + max_air_time_us
endless-exact = omega arith

validate_accepts_overflow_example : (validate endless ≡ ok tt) × (i64_max < exact_air_time endless)
validate_accepts_overflow_example =
    validate_accepts_overflow endless endless-IsTyped endless-IsWellFormed (omega arith)
      endless-exact

-- A frame of nothing.
abbrev nothing : Transmit
nothing = record frame { timings = [] }

refused : validate nothing ≡ err empty
unfolding validate is_empty
refused = refl

validate-Reason_example : Reason nothing empty
validate-Reason_example = validate-Reason nothing empty refused
