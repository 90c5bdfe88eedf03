-- ===== src/Ook/Runs.antt =====
-- Slicing an envelope into mark and space runs, `runs` and `push_run` of proxyd/src/ook.rs.
-- `out` is held newest first, and is turned round at the end.
pub mod Alternation
use hackrf_proxy.Base.{
  ℕ, zero, suc, ◌+◌, Bool, true, false, List, [], ◌∷◌, ltb, leb, if◌then◌else◌, same, reverse,
}
use hackrf_proxy.Base.Words.{add_u64}
use hackrf_proxy.Base.Int.{ℤ, ◌+ℤ◌, wrap_i64}
use hackrf_proxy.Base.Floats.{F64}

pub record Run : Type 0 where
  pub on : Bool
  pub us : ℤ

-- `prev.us += us`
abbrev pub lengthen : Run → ℤ → Run
lengthen r us = record r { us = wrap_i64 (r.us +ℤ us) }

-- The three arms of `push_run`, the duration already in microseconds.
unfoldable pub push_run : ℕ → List Run → Bool → ℕ → ℤ → List Run
push_run min_samples [] on len us = record { on = on; us = us } ∷ []
push_run min_samples (prev ∷ out) on len us =
    if ltb len min_samples
    then lengthen prev us ∷ out
    else if same prev.on on
    then lengthen prev us ∷ out
    else record { on = on; us = us } ∷ prev ∷ out

-- The variables of the loop in `runs`.
pub record Slicer : Type 0 where
  pub out : List Run
  pub current_on : Bool
  pub len : ℕ

module _ (fp : F64) where
  open fp use {Float, literal, of_ℕ, mul, div, round, max_float, to_u64, to_i64}

  unfoldable pub us_per_sample : ℕ → Float
  us_per_sample rate = div (literal 1_000_000 0) (of_ℕ rate)

  -- `(len as f64 * us_per_sample).round() as i64`
  unfoldable pub duration_of : ℕ → ℕ → ℤ
  unfolding us_per_sample
  duration_of rate len = to_i64 (round (mul (of_ℕ len) (us_per_sample rate)))

  -- `((x as f64 / us_per_sample).round()).max(1.0)` as a count of samples
  unfoldable pub samples_in : ℕ → Float → ℕ
  unfolding us_per_sample
  samples_in rate x = to_u64 (max_float (round (div x (us_per_sample rate))) (literal 1 0))

  module _ (threshold rate min_samples : ℕ) where
    unfoldable pub close_run : Slicer → List Run
    unfolding push_run duration_of
    close_run s = push_run min_samples s.out s.current_on s.len (duration_of rate s.len)

    -- One round of the loop.
    unfoldable pub slice_sample : Slicer → ℕ → Slicer
    unfolding close_run
    slice_sample s m =
        let on = leb threshold m in
        if same on s.current_on
        then record s { len = add_u64 s.len 1 }
        else record { out = close_run s; current_on = on; len = 1 }

    unfoldable pub slice_all : Slicer → List ℕ → Slicer
    unfolding slice_sample
    slice_all s [] = s
    slice_all s (m ∷ ms) = slice_all (slice_sample s m) ms

  unfoldable pub runs : List ℕ → ℕ → ℕ → ℕ → List Run
  unfolding slice_all close_run samples_in
  runs [] threshold rate min_us = []
  runs (m ∷ mag) threshold rate min_us =
      let min_samples = samples_in rate (of_ℕ min_us) in
      let start : Slicer = record { out = []; current_on = leb threshold m; len = 0 } in
      reverse (
        close_run threshold rate min_samples (slice_all threshold rate min_samples start (m ∷ mag)))
