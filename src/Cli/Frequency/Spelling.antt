-- ===== src/Cli/Frequency/Spelling.antt =====
-- Which texts are frequencies, for `parse_frequency` of proxyd/src/main.rs.
use hackrf_proxy.Base.{
  ℕ, suc, true, Option, none, some, List, [], ◌∷◌, ◌++◌, ◌≡◌, refl, sym, ap, ◌∙◌, arith, All, subst,
  if-elim, length, ◌&&◌,
}
use hackrf_proxy.Base.Results.{Result, ok, err}
use hackrf_proxy.Base.Floats.{F64}
use hackrf_proxy.Base.Text.{to_ascii_lowercase, trim, IsSpace, trim-lower, trim-spaces}
use hackrf_proxy.Wire.{in_tuning_range}
use hackrf_proxy.Cli.Frequency.{
  FloatText, FrequencyError, check_range, scaled, parse_frequency, parse_all, parse_frequencies,
  split_commas,
}

check_range-in_tuning_range : (n hz : ℕ) → check_range n ≡ ok hz → in_tuning_range hz ≡ true
unfolding check_range in_tuning_range
check_range-in_tuning_range n hz h = ground arith

-- Frequencies that can be tuned to, so many, if there was no error.
abbrev Tuned : ℕ → Result FrequencyError (List ℕ) → Type 0
Tuned n (err e) = Unit
Tuned n (ok hzs) = (length hzs ≡ n) × All (λ hz. in_tuning_range hz ≡ true) hzs

cons-Tuned :
    (n : ℕ) (r : Result FrequencyError ℕ) (rest : Result FrequencyError (List ℕ))
    → ((hz : ℕ) → r ≡ ok hz → in_tuning_range hz ≡ true)
    → Tuned n rest
    → Tuned
        (suc n)
        (elim r [ err e ↦ err e | ok hz ↦ elim rest [ err e ↦ err e | ok hzs ↦ ok (hz ∷ hzs) ] ])
cons-Tuned n (err e) rest h t = tt
cons-Tuned n (ok hz) (err e) h t = tt
cons-Tuned n (ok hz) (ok hzs) h t = (ap suc t.0, (h hz refl, t.1))

module _ (fp : F64) (float : FloatText fp.Float) where
  open fp use {mul, round, to_u64}

  -- What `parse_frequency` reads is the text in lower case and trimmed.
  normal :
      (s t : List ℕ)
      → to_ascii_lowercase (trim s) ≡ to_ascii_lowercase (trim t)
      → parse_frequency fp float s ≡ parse_frequency fp float t
  unfolding parse_frequency
  normal s t h = cc

  -- Neither the case of its letters nor white space around it changes what frequency a text is, or
  -- why it is none.
  pub parse_frequency-same :
      (ws s t vs : List ℕ)
      → All IsSpace ws
      → All IsSpace vs
      → to_ascii_lowercase s ≡ to_ascii_lowercase t
      → parse_frequency fp float (ws ++ (s ++ vs)) ≡ parse_frequency fp float t
  parse_frequency-same ws s t vs hw hv h = normal (ws ++ (s ++ vs)) t (
      ap to_ascii_lowercase (trim-spaces ws s vs hw hv)
      ∙ sym (trim-lower s)
      ∙ ap trim h
      ∙ trim-lower t)

  scaled-in_tuning_range :
      (multiplier : fp.Float) (value : Option fp.Float) (hz : ℕ)
      → scaled fp float multiplier value ≡ ok hz
      → in_tuning_range hz ≡ true
  unfolding scaled check_range in_tuning_range
  scaled-in_tuning_range multiplier none hz h = ground arith
  scaled-in_tuning_range multiplier (some value) hz h =
      if-elim (λ r. r ≡ ok hz → in_tuning_range hz ≡ true)
        (float.is_finite value && float.is_positive value) _ _
        (λ e. check_range-in_tuning_range (to_u64 (round (mul value multiplier))) hz)
        (λ e k. ground arith) h

  parse_frequency-in_tuning_range :
      (t : List ℕ) (hz : ℕ) → parse_frequency fp float t ≡ ok hz → in_tuning_range hz ≡ true
  unfolding parse_frequency
  parse_frequency-in_tuning_range t hz h = scaled-in_tuning_range _ _ hz h

  parse_all-Tuned : (ts : List (List ℕ)) → Tuned (length ts) (parse_all fp float ts)
  unfolding parse_all
  parse_all-Tuned [] = (refl, tt)
  parse_all-Tuned (t ∷ ts) =
      cons-Tuned (length ts) (parse_frequency fp float t) (parse_all fp float ts)
        (parse_frequency-in_tuning_range t) (parse_all-Tuned ts)

  -- If `--freqs` is accepted, it gives a frequency for each of the texts that its commas separate,
  -- and each is one that a request over the network could ask for.
  pub parse_frequencies-in_tuning_range :
      (freqs : List ℕ) (hzs : List ℕ)
      → parse_frequencies fp float freqs ≡ ok hzs
      → (length hzs ≡ length (split_commas freqs)) × All (λ hz. in_tuning_range hz ≡ true) hzs
  unfolding parse_frequencies
  parse_frequencies-in_tuning_range freqs hzs h =
      subst (Tuned (length (split_commas freqs))) h (parse_all-Tuned (split_commas freqs))
