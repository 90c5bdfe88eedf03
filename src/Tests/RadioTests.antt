-- ===== src/Tests/RadioTests.antt =====
-- The commands that drive a radio, concretely.
use hackrf_proxy.Base.{List, [], ◌∷◌, length, ◌≡◌, arith, false, ap, subst, ℕ, ◌<◌, ◌≤◌}
use hackrf_proxy.Base.Results.{Error, Result, ok, err}
use hackrf_proxy.Base.Programs.{EndsIn}
use hackrf_proxy.Radio.Capture.{CaptureParams, bytes_in, capture}
use hackrf_proxy.Radio.Capture.Ending.{Reads, blank, taped, filed, capture_ends}
use hackrf_proxy.Tests.Rational.{rational, Fraction}
use hackrf_proxy.Tests.Fixtures.{trickling, files}

trickling-Reads : Reads trickling
trickling-Reads stream n w chunk h e =
    let same : 100 ∷ [] ≡ chunk =
      ap (λ (q : Result Error (List ℕ)). elim q [ ok c ↦ c | err x ↦ [] ]) e in
    subst (λ c. (0 < length c) × (length c ≤ n)) same (omega arith, omega arith)

-- Two samples.
abbrev short_capture : CaptureParams Fraction
short_capture = record {
  frequency_hz = 315_000_000;
  sample_rate = 2_000_000;
  lna_db = 40;
  vga_db = 40;
  amp_enable = false;
  seconds = rational.literal 1 6;
}

capture_ends_example :
    EndsIn
      (λ m s.
        (m.written ≡ bytes_in trickling files rational (rational.literal 1 6) 2_000_000)
        × (s.0.written ≡ s.0.read)
        × (length s.0.written ≡ bytes_in trickling files rational (rational.literal 1 6) 2_000_000))
      (capture
        (taped trickling)
        (filed files)
        rational
        (bytes_in trickling files rational (rational.literal 1 6) 2_000_000)
        short_capture
        "out.cs8"
        (blank, tt))
capture_ends_example =
    capture_ends trickling files trickling-Reads rational short_capture "out.cs8" tt
