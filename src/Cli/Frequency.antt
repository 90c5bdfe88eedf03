-- ===== src/Cli/Frequency.antt =====
-- Frequencies on the command line, `parse_frequency` of proxyd/src/main.rs, and the list of `--freqs`.
-- A text is its code points. The texts of the errors are not modelled.
pub mod Spelling
use hackrf_proxy.Base.{
  ℕ, Bool, true, false, Option, none, some, List, [], ◌∷◌, ◌&&◌, ltb, leb, ◌==◌, not, if◌then◌else◌,
}
use hackrf_proxy.Base.Results.{Result, ok, err}
use hackrf_proxy.Base.Floats.{F64}
use hackrf_proxy.Base.Text.{to_ascii_lowercase, trim, strip_suffix}

abbrev pub min_frequency_hz : ℕ
min_frequency_hz = 1_000_000

abbrev pub max_frequency_hz : ℕ
max_frequency_hz = 6_000_000_000

pub data FrequencyError : Type 0 where
  not_a_frequency : FrequencyError
  below_minimum above_maximum : ℕ → FrequencyError

-- `str::parse` into an `f64`, `f64::is_finite` and `> 0.0`.
pub record FloatText (F : Type 0) : Type 0 where
  pub parse : List ℕ → Option F
  pub is_finite : F → Bool
  pub is_positive : F → Bool

-- `unwrap_or`
abbrev pub text_or : Option (List ℕ) → List ℕ → List ℕ
text_or none t = t
text_or (some s) t = s

-- The end of `parse_frequency`.
unfoldable pub check_range : ℕ → Result FrequencyError ℕ
check_range hz =
    if ltb hz min_frequency_hz
    then err (below_minimum hz)
    else if leb hz max_frequency_hz
    then ok hz
    else err (above_maximum hz)

-- A character in front of the first item.
abbrev pub before_first : ℕ → List (List ℕ) → List (List ℕ)
before_first c [] = (c ∷ []) ∷ []
before_first c (t ∷ ts) = (c ∷ t) ∷ ts

-- `freqs.split(',')`
unfoldable pub split_commas : List ℕ → List (List ℕ)
split_commas [] = [] ∷ []
split_commas (c ∷ cs) =
    let rest = split_commas cs in if c == b',' then [] ∷ rest else before_first c rest

module _ (fp : F64) (float : FloatText fp.Float) where
  open fp use {Float, literal, mul, round, to_u64}

  -- The digits and the multiplier.
  unfoldable pub split_unit : List ℕ → List ℕ × Float
  split_unit text = elim (strip_suffix (b'g' ∷ []) text) [
    | some rest ↦ (rest, literal 1_000_000_000 0)
    | none ↦ elim (strip_suffix (b'm' ∷ []) text) [
      | some rest ↦ (rest, literal 1_000_000 0)
      | none ↦ elim (strip_suffix (b'k' ∷ []) text) [
        | some rest ↦ (rest, literal 1_000 0)
        | none ↦ (text, literal 1 0)
      ]
    ]
  ]

  -- What is done with the value and the multiplier.
  unfoldable pub scaled : Float → Option Float → Result FrequencyError ℕ
  unfolding check_range
  scaled multiplier none = err not_a_frequency
  scaled multiplier (some value) =
      if float.is_finite value && float.is_positive value
      then check_range (to_u64 (round (mul value multiplier)))
      else err not_a_frequency

  unfoldable pub parse_frequency : List ℕ → Result FrequencyError ℕ
  unfolding split_unit scaled
  parse_frequency input =
      let text = to_ascii_lowercase (trim input) in
      let text' = trim (text_or (strip_suffix (b'h' ∷ b'z' ∷ []) text) text) in
      let (digits, multiplier) = split_unit text' in scaled multiplier (float.parse (trim digits))

  -- `map(parse_frequency).collect::<Result<Vec<_>>>()`, up to the first error.
  unfoldable pub parse_all : List (List ℕ) → Result FrequencyError (List ℕ)
  unfolding parse_frequency
  parse_all [] = ok []
  parse_all (t ∷ ts) =
      let rest = parse_all ts in
      elim (parse_frequency t) [
        | err e ↦ err e
        | ok hz ↦ elim rest [ err e ↦ err e | ok hzs ↦ ok (hz ∷ hzs) ]
      ]

  -- The frequencies of `scan`.
  unfoldable pub parse_frequencies : List ℕ → Result FrequencyError (List ℕ)
  unfolding split_commas parse_all
  parse_frequencies freqs = parse_all (split_commas freqs)
