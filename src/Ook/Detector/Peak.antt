-- ===== src/Ook/Detector/Peak.antt =====
-- The peak that a burst of the detector of proxyd/src/ook.rs carries.
use hackrf_proxy.Base.{ℕ, ◌≤◌, List, [], ◌∷◌, ◌++◌, ◌≡◌, refl, Option-cases, inl, inr, arith}
use hackrf_proxy.Base.Words.{add_u64}
use hackrf_proxy.Ook.Histogram.{add_magnitude}
use hackrf_proxy.Base.Floats.{F64}
use hackrf_proxy.Ook.Envelope.{samples, magnitude}
use hackrf_proxy.Ook.Detector.{
  Detector, retune, slice, retune_if_due, step, push_samples, push, push_sample, extend_run,
  end_on_gap, emit_run, flush_pending, finish_burst, accumulate, take_burst,
}

append-nil_parts : {A : Type 0} (xs ys : List A) → xs ++ ys ≡ [] → (xs ≡ []) × (ys ≡ [])
append-nil_parts [] ys h = (refl, h)
append-nil_parts (x ∷ xs) ys h = ground arith

module _ (fp : F64) where
  push_sample-peak :
      (d : Detector fp.Float) (m t : ℕ)
      → (push_sample fp d m t).1 ≡ []
      → d.burst_peak ≤ (push_sample fp d m t).0.burst_peak
  unfolding push_sample extend_run end_on_gap emit_run flush_pending finish_burst accumulate
      take_burst
  push_sample-peak d m t h = ground arith

  step-peak :
      (d : Detector fp.Float) (x : ℕ × ℕ)
      → (step fp d x).1 ≡ []
      → d.burst_peak ≤ (step fp d x).0.burst_peak
  unfolding step slice retune_if_due retune
  step-peak d x h =
      let m = magnitude x in
      let measured = record d {
        histogram = add_magnitude d.histogram m;
        window_seen = add_u64 d.window_seen 1;
      } in
      elim (Option-cases d.threshold) [
        | inl e ↦ ground arith
        | inr (t, e) ↦ let peak = push_sample-peak measured m t in ground arith
      ]

  push_samples-peak :
      (d : Detector fp.Float) (xs : List (ℕ × ℕ))
      → (push_samples fp d xs).1 ≡ []
      → d.burst_peak ≤ (push_samples fp d xs).0.burst_peak
  unfolding push_samples
  push_samples-peak d [] h = omega arith
  push_samples-peak d (x ∷ xs) h =
      let after = (step fp d x).0 in
      let both = append-nil_parts (step fp d x).1 (push_samples fp after xs).1 h in
      omega (arith, step-peak d x both.0, push_samples-peak after xs both.1)

  -- While a block yields no burst, the peak that the next burst will carry does not go down, even
  -- if edges gathered in that block are discarded.
  pub push-burst_peak :
      (d : Detector fp.Float) (iq : List ℕ)
      → (push fp d iq).1 ≡ []
      → d.burst_peak ≤ (push fp d iq).0.burst_peak
  unfolding push
  push-burst_peak d iq h = push_samples-peak d (samples iq) h
