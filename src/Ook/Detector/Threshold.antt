-- ===== src/Ook/Detector/Threshold.antt =====
-- When the detector of proxyd/src/ook.rs has a threshold.
use hackrf_proxy.Base.{
  ℕ, ◌+◌, ◌≤◌, ◌<◌, Option, none, some, List, [], ◌∷◌, ◌≡◌, refl, ap, Option-cases, inl, inr, arith,
  length,
}
use hackrf_proxy.Base.Words.{add_u64, add_u64-eq}
use hackrf_proxy.Base.Int.{two64}
use hackrf_proxy.Ook.Histogram.{add_magnitude}
use hackrf_proxy.Base.Floats.{F64}
use hackrf_proxy.Ook.Envelope.{samples, magnitude}
use hackrf_proxy.Ook.Detector.{
  new, DetectorConfig, Detector, tuned_threshold, retune, slice, retune_if_due, step, push_samples,
  push, push_sample, extend_run, end_on_gap, emit_run, flush_pending, finish_burst, accumulate,
  take_burst,
}

module _ (fp : F64) where
  -- A threshold, once there is one, is at least 1.
  abbrev pub IsUsable : Option ℕ → Type 0
  IsUsable none = Unit
  IsUsable (some t) = 1 ≤ t

  push_sample-threshold :
      (d : Detector fp.Float) (m t : ℕ) → (push_sample fp d m t).0.threshold ≡ d.threshold
  unfolding push_sample extend_run end_on_gap emit_run flush_pending finish_burst accumulate
      take_burst
  push_sample-threshold d m t = ground arith

  push_sample-config :
      (d : Detector fp.Float) (m t : ℕ)
      → ((push_sample fp d m t).0.config ≡ d.config)
        × ((push_sample fp d m t).0.window_seen ≡ d.window_seen)
  unfolding push_sample extend_run end_on_gap emit_run flush_pending finish_burst accumulate
      take_burst
  push_sample-config d m t = (ground arith, ground arith)

  slice-keeps :
      (d : Detector fp.Float) (m : ℕ)
      → ((slice fp d m).0.config ≡ d.config)
        × ((slice fp d m).0.window_seen ≡ d.window_seen)
        × ((slice fp d m).0.threshold ≡ d.threshold)
  unfolding slice
  slice-keeps d m = elim (Option-cases d.threshold) [
    | inl h ↦ (ground arith, ground arith, ground arith)
    | inr (t, h) ↦
        let c = push_sample-config d m t in
        let k = push_sample-threshold d m t in (ground arith, ground arith, ground arith)
  ]

  step-untuned :
      (d : Detector fp.Float) (x : ℕ × ℕ)
      → d.window_seen < d.config.window_samples
      → d.config.window_samples < two64
      → (step fp d x).0.threshold ≡ none
      → (d.threshold ≡ none)
        × (d.window_seen + 1 < d.config.window_samples)
        × ((step fp d x).0.window_seen ≡ d.window_seen + 1)
        × ((step fp d x).0.config ≡ d.config)
  unfolding step retune_if_due retune
  step-untuned d x h w n =
      let m = magnitude x in
      let measured = record d {
        histogram = add_magnitude d.histogram m;
        window_seen = add_u64 d.window_seen 1;
      } in
      let kept = slice-keeps measured m in
      let counted = add_u64-eq d.window_seen 1 in
      let sliced = (slice fp measured m).0 in
      let width : sliced.config.window_samples ≡ d.config.window_samples =
        ap (λ (c : DetectorConfig fp.Float). c.window_samples) kept.0 in
      (ground arith, ground arith, ground arith, ground arith)

  step-none :
      (d : Detector fp.Float) (x : ℕ × ℕ) → (step fp d x).0.threshold ≡ none → d.threshold ≡ none
  unfolding step retune_if_due retune
  step-none d x n =
      let m = magnitude x in
      let measured = record d {
        histogram = add_magnitude d.histogram m;
        window_seen = add_u64 d.window_seen 1;
      } in
      let kept = slice-keeps measured m in ground arith

  push_samples-none :
      (d : Detector fp.Float) (xs : List (ℕ × ℕ))
      → (push_samples fp d xs).0.threshold ≡ none
      → d.threshold ≡ none
  unfolding push_samples
  push_samples-none d [] n = n
  push_samples-none d (x ∷ xs) n = step-none d x (push_samples-none (step fp d x).0 xs n)

  push_samples-untuned :
      (d : Detector fp.Float) (xs : List (ℕ × ℕ))
      → d.window_seen < d.config.window_samples
      → d.config.window_samples < two64
      → (push_samples fp d xs).0.threshold ≡ none
      → d.window_seen + length xs < d.config.window_samples
  unfolding push_samples
  push_samples-untuned d [] h w n = omega arith
  push_samples-untuned d (x ∷ xs) h w n =
      let after = (step fp d x).0 in
      let later = push_samples-untuned after xs in
      let stays = push_samples-none after xs in
      let here = step-untuned d x h w (stays n) in
      let width : after.config.window_samples ≡ d.config.window_samples =
        ap (λ (c : DetectorConfig fp.Float). c.window_samples) here.3 in
      omega (
        arith,
        here.1,
        here.2,
        width,
        later (omega (arith, here.1, here.2, width)) (omega (arith, width)) n,
      )

  step-IsUsable :
      (d : Detector fp.Float) (x : ℕ × ℕ)
      → IsUsable d.threshold
      → IsUsable (step fp d x).0.threshold
  unfolding step retune_if_due retune tuned_threshold
  step-IsUsable d x h =
      let m = magnitude x in
      let measured = record d {
        histogram = add_magnitude d.histogram m;
        window_seen = add_u64 d.window_seen 1;
      } in
      let kept = slice-keeps measured m in ground arith

  push_samples-IsUsable :
      (d : Detector fp.Float) (xs : List (ℕ × ℕ))
      → IsUsable d.threshold
      → IsUsable (push_samples fp d xs).0.threshold
  unfolding push_samples
  push_samples-IsUsable d [] h = h
  push_samples-IsUsable d (x ∷ xs) h =
      push_samples-IsUsable (step fp d x).0 xs (step-IsUsable d x h)

  some-of_not_none : (o : Option ℕ) → IsUsable o → ¬ (o ≡ none) → (t : ℕ) × (o ≡ some t) × (1 ≤ t)
  some-of_not_none none u h = absurd (h refl)
  some-of_not_none (some t) u h = (t, refl, u)

  -- Once a fresh detector has seen `window_samples` samples it has a threshold, and that is at
  -- least 1, so that silence never counts as a signal; the window is shorter than 2^64.
  pub push-tunes :
      (config : DetectorConfig fp.Float) (iq : List ℕ)
      → 1 ≤ config.window_samples
      → config.window_samples < two64
      → config.window_samples ≤ length (samples iq)
      → (t : ℕ) × ((push fp (new fp config) iq).0.threshold ≡ some t) × (1 ≤ t)
  unfolding push new
  push-tunes config iq h w l =
      some-of_not_none (push_samples fp (new fp config) (samples iq)).0.threshold
        (push_samples-IsUsable (new fp config) (samples iq) tt)
        (λ n. omega (arith, push_samples-untuned (new fp config) (samples iq) h w n, l))
