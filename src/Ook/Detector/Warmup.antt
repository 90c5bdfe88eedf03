-- ===== src/Ook/Detector/Warmup.antt =====
-- The first window of `Detector` of proxyd/src/ook.rs, which is only measured.
use hackrf_proxy.Base.{
  ℕ, suc, ◌+◌, ◌≤◌, ◌<◌, true, false, none, some, List, [], ◌∷◌, ◌++◌, length, map, ◌≡◌, refl, ap,
  ◌∙◌, arith, leb, if◌then◌else◌,
}
use hackrf_proxy.Base.Words.{add_u64}
use hackrf_proxy.Base.Int.{two64}
use hackrf_proxy.Base.Floats.{F64}
use hackrf_proxy.Ook.Envelope.{samples, magnitude, envelope}
use hackrf_proxy.Ook.Histogram
use hackrf_proxy.Ook.Histogram.{AmplitudeHistogram, add_magnitude, add_all}
use hackrf_proxy.Ook.Detector.{
  Detector, DetectorConfig, Burst, new, slice, tuned_threshold, retune, retune_if_due, push_sample,
  step, push_samples, push,
}

module _ (fp : F64) where
  abbrev measured : Detector fp.Float → ℕ → Detector fp.Float
  measured d m = record d {
    histogram = add_magnitude d.histogram m;
    window_seen = add_u64 d.window_seen 1;
  }

  -- What the detector is when it has just set the threshold `t`.
  abbrev pub tuned_to : Detector fp.Float → ℕ → Detector fp.Float
  tuned_to d t = record d { threshold = some t; histogram = Histogram.new; window_seen = 0 }

  step-measures :
      (d : Detector fp.Float) (s : ℕ × ℕ)
      → d.threshold ≡ none
      → step fp d s ≡ (retune_if_due fp (measured d (magnitude s)), [])
  unfolding step slice
  step-measures d s untuned =
      let next = measured d (magnitude s) in
      ap (λ (x : Detector fp.Float × List Burst). (retune_if_due fp x.0, x.1))
        (ap
          (λ o. elim o [
            | none ↦ (next, [])
            | some threshold ↦ push_sample fp next (magnitude s) threshold
          ])
          untuned)

  retune-due :
      (d : Detector fp.Float)
      → leb d.config.window_samples d.window_seen ≡ true
      → retune_if_due fp d ≡ tuned_to d (tuned_threshold fp d.config d.histogram)
  unfolding retune_if_due retune
  retune-due d due = ap (λ b. if b then retune fp d else d) due

  retune-early :
      (d : Detector fp.Float)
      → leb d.config.window_samples d.window_seen ≡ false
      → retune_if_due fp d ≡ d
  unfolding retune_if_due
  retune-early d early = ap (λ b. if b then retune fp d else d) early

  push_samples-untuned :
      (d : Detector fp.Float) (s : ℕ × ℕ) (ss : List (ℕ × ℕ))
      → d.threshold ≡ none
      → push_samples fp d (s ∷ ss)
        ≡ push_samples fp (retune_if_due fp (measured d (magnitude s))) ss
  unfolding push_samples
  push_samples-untuned d s ss untuned =
      ap
        (λ (x : Detector fp.Float × List Burst).
          let (d', rest) = push_samples fp x.0 ss in (d', x.1 ++ rest))
        (step-measures d s untuned)

  pub push_samples-measures :
      (d : Detector fp.Float) (s : ℕ × ℕ) (ss : List (ℕ × ℕ))
      → d.threshold ≡ none
      → d.config.window_samples < two64
      → d.window_seen + suc (length ss) ≡ d.config.window_samples
      → push_samples fp d (s ∷ ss) ≡ (
        tuned_to d (tuned_threshold fp d.config (add_all d.histogram (map magnitude (s ∷ ss)))),
        [],
      )
  unfolding push_samples add_all
  push_samples-measures d s [] untuned fits fills =
      let due : leb d.config.window_samples (add_u64 d.window_seen 1) ≡ true = ground arith in
      push_samples-untuned d s [] untuned
      ∙ ap (λ (x : Detector fp.Float). (x, [])) (retune-due (measured d (magnitude s)) due)
  push_samples-measures d s (s' ∷ ss) untuned fits fills =
      let next = measured d (magnitude s) in
      let early : leb d.config.window_samples (add_u64 d.window_seen 1) ≡ false = ground arith in
      let seen : add_u64 d.window_seen 1 ≡ suc d.window_seen = omega arith in
      push_samples-untuned d s (s' ∷ ss) untuned
      ∙ ap (λ x. push_samples fp x (s' ∷ ss)) (retune-early next early)
      ∙ push_samples-measures next s' ss untuned fits (omega (arith, seen))

  -- The threshold that the detector sets after a first window of these samples.
  abbrev pub first_threshold : DetectorConfig fp.Float → List ℕ → ℕ
  first_threshold config iq = tuned_threshold fp config (add_all Histogram.new (envelope iq))

  measured_all :
      (config : DetectorConfig fp.Float) (ss : List (ℕ × ℕ))
      → 1 ≤ config.window_samples
      → config.window_samples < two64
      → length ss ≡ config.window_samples
      → push_samples fp (new fp config) ss ≡ (
        tuned_to
            (new fp config)
            (tuned_threshold fp config (add_all Histogram.new (map magnitude ss))),
        [],
      )
  unfolding new
  measured_all config [] some_window fits fills = absurd (omega arith)
  measured_all config (s ∷ ss) some_window fits fills =
      push_samples-measures (new fp config) s ss refl fits (omega arith)

  -- A fresh detector that has seen its first window has set its threshold from the percentiles of
  -- exactly these samples, has returned no burst, and is as it was otherwise.
  pub push-first_window :
      (config : DetectorConfig fp.Float) (iq : List ℕ)
      → 1 ≤ config.window_samples
      → config.window_samples < two64
      → length (samples iq) ≡ config.window_samples
      → push fp (new fp config) iq ≡ (tuned_to (new fp config) (first_threshold config iq), [])
  unfolding push envelope
  push-first_window config iq some_window fits fills =
      measured_all config (samples iq) some_window fits fills
