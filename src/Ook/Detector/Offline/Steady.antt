-- ===== src/Ook/Detector/Offline/Steady.antt =====
-- `Detector` of proxyd/src/ook.rs while its threshold stays what it is.
use hackrf_proxy.Base.{
  ℕ, suc, ◌+◌, ◌<◌, Bool, false, none, some, List, [], ◌∷◌, ◌++◌, append-nil, length, map, ◌≡◌, sym,
  ap, ◌∙◌, subst, arith, leb, if◌then◌else◌,
}
use hackrf_proxy.Base.Words.{add_u64}
use hackrf_proxy.Base.Int.{ℤ, two64}
use hackrf_proxy.Base.Floats.{F64}
use hackrf_proxy.Ook.Envelope.{magnitude}
use hackrf_proxy.Ook.Histogram.{add_magnitude}
use hackrf_proxy.Ook.Runs.{duration_of}
use hackrf_proxy.Ook.Detector.{
  Detector, DetectorConfig, Burst, slice, retune, retune_if_due, push_sample, step, push_samples,
}
use hackrf_proxy.Ook.Detector.View.{View, view, after, hear, hear_all, timings_of}
use hackrf_proxy.Ook.Detector.View.Projection.{then-view, push_sample-view, push_sample-fixed}

abbrev pub sides : ℕ → List (ℕ × ℕ) → List Bool
sides t ss = map (λ s. leb t (magnitude s)) ss

module _ (fp : F64) (config : DetectorConfig fp.Float) (t min_samples gap_samples : ℕ) where
  -- The threshold stays for `k` more samples.
  pub record IsSteady (k : ℕ) (d : Detector fp.Float) : Type 0 where
    pub same_config : d.config ≡ config
    pub at : d.threshold ≡ some t
    pub shortest : d.min_samples ≡ min_samples
    pub gap : d.gap_samples ≡ gap_samples
    pub not_due : d.window_seen + k < config.window_samples

  slice-steady :
      (d : Detector fp.Float) (m : ℕ) → d.threshold ≡ some t → slice fp d m ≡ push_sample fp d m t
  unfolding slice
  slice-steady d m at =
      ap (λ o. elim o [ none ↦ (d, []) | some threshold ↦ push_sample fp d m threshold ]) at

  retune-steady :
      (d : Detector fp.Float) → d.window_seen < d.config.window_samples → retune_if_due fp d ≡ d
  unfolding retune_if_due
  retune-steady d h =
      let early : leb d.config.window_samples d.window_seen ≡ false = ground arith in
      ap (λ b. if b then retune fp d else d) early

  abbrev hears : View → Bool → View
  hears v on = hear (duration_of fp config.sample_rate) min_samples gap_samples v on

  abbrev Steps :
      ℕ → List (List ℤ) → Detector fp.Float → ℕ × ℕ → Detector fp.Float × List Burst → Type 0
  Steps k bursts d s r =
      IsSteady k r.0 × (after bursts r ≡ hears (view bursts d) (leb t (magnitude s)))

  step-steady :
      (k : ℕ) (bursts : List (List ℤ)) (d : Detector fp.Float) (s : ℕ × ℕ)
      → config.window_samples < two64
      → IsSteady (suc k) d
      → Steps k bursts d s (step fp d s)
  unfolding step
  step-steady k bursts d s fits steady =
      let m = magnitude s in
      let measured = record d {
        histogram = add_magnitude d.histogram m;
        window_seen = add_u64 d.window_seen 1;
      } in
      let r = push_sample fp measured m t in
      let kept = push_sample-fixed fp measured m t in
      let not_due = steady.not_due in
      let seen : add_u64 d.window_seen 1 ≡ suc d.window_seen = omega arith in
      let same_config = ap (λ x. x.0) kept ∙ steady.same_config in
      let window_seen : r.0.window_seen ≡ suc d.window_seen = ap (λ x. x.1.1.0) kept ∙ seen in
      let room : r.0.window_seen + k < config.window_samples = omega arith in
      let sized : r.0.config.window_samples ≡ config.window_samples =
        ap (λ (c : DetectorConfig fp.Float). c.window_samples) same_config in
      let same_outcome : (retune_if_due fp (slice fp measured m).0, (slice fp measured m).1) ≡ r =
        ap (λ (x : Detector fp.Float × List Burst). (retune_if_due fp x.0, x.1))
          (slice-steady measured m steady.at)
        ∙ ap (λ (x : Detector fp.Float). (x, r.1)) (retune-steady r.0 (omega arith)) in
      subst (Steps k bursts d s) (sym same_outcome) (
        record {
          same_config = same_config;
          at = ap (λ x. x.1.0) kept ∙ steady.at;
          shortest = ap (λ x. x.1.1.1.0) kept ∙ steady.shortest;
          gap = ap (λ x. x.1.1.1.1) kept ∙ steady.gap;
          not_due = room;
        },
        push_sample-view fp bursts measured m t
            ∙ ap
                (λ (c : DetectorConfig fp.Float).
                  hear (duration_of fp c.sample_rate) d.min_samples d.gap_samples (view bursts d)
                    (leb t m))
                steady.same_config
            ∙ ap
                (λ n.
                  hear (duration_of fp config.sample_rate) n d.gap_samples (view bursts d)
                    (leb t m))
                steady.shortest
            ∙ ap
                (λ n.
                  hear (duration_of fp config.sample_rate) min_samples n (view bursts d) (leb t m))
                steady.gap,
      )

  -- What the detector does with samples, for which only their side of the threshold counts.
  pub push_samples-steady :
      (bursts : List (List ℤ)) (d : Detector fp.Float) (ss : List (ℕ × ℕ))
      → config.window_samples < two64
      → IsSteady (length ss) d
      → after bursts (push_samples fp d ss)
        ≡ hear_all
            (duration_of fp config.sample_rate)
            min_samples
            gap_samples
            (view bursts d)
            (sides t ss)
  unfolding push_samples
  push_samples-steady bursts d [] fits steady = ap (λ l. view l d) (append-nil bursts)
  push_samples-steady bursts d (s ∷ ss) fits steady =
      let first = step fp d s in
      let rest = push_samples fp first.0 ss in
      let (stays, heard) = step-steady (length ss) bursts d s fits steady in
      then-view bursts rest.0 first.1 rest.1
      ∙ push_samples-steady (bursts ++ timings_of first.1) first.0 ss fits stays
      ∙ ap
          (λ v. hear_all (duration_of fp config.sample_rate) min_samples gap_samples v (sides t ss))
          heard
