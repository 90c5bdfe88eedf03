-- ===== src/Ook/Envelope.antt =====
-- Complex samples and their magnitudes, proxyd/src/ook.rs. A buffer is its bytes.
use hackrf_proxy.Base.{ℕ, ◌+◌, ◌-◌, List, [], ◌∷◌, map, max, ltb, if◌then◌else◌}

-- `as_chunks::<2>().0`: whole samples; an odd byte at the end is left over.
abbrev pub samples : List ℕ → List (ℕ × ℕ)
samples [] = []
samples (i ∷ []) = []
samples (i ∷ q ∷ iq) = (i, q) ∷ samples iq

-- `i32::from(b as i8).abs()`
abbrev pub abs_i8 : ℕ → ℕ
abs_i8 b = if ltb b 128 then b else 256 - b

abbrev pub magnitude : ℕ × ℕ → ℕ
magnitude (i, q) = abs_i8 i + abs_i8 q

unfoldable pub envelope : List ℕ → List ℕ
envelope iq = map magnitude (samples iq)

abbrev max_of : List ℕ → ℕ
max_of [] = 0
max_of (m ∷ ms) = max m (max_of ms)

unfoldable pub peak_magnitude : List ℕ → ℕ
peak_magnitude iq = max_of (map magnitude (samples iq))
