-- ===== src/Ook/Detector/Stream.antt =====
-- How `Detector::push` of proxyd/src/ook.rs sees a stream that reaches it in blocks.
use hackrf_proxy.Base.{
  ℕ, zero, suc, ◌*◌, List, [], ◌∷◌, ◌++◌, append_assoc, ◌≡◌, refl, sym, ap, ◌∙◌, arith, length,
}
use hackrf_proxy.Base.Floats.{F64}
use hackrf_proxy.Ook.Envelope.{samples}
use hackrf_proxy.Ook.Detector.{Detector, step, push_samples, push}

pub samples-append :
    (n : ℕ) (xs ys : List ℕ) → length xs ≡ 2 * n → samples (xs ++ ys) ≡ samples xs ++ samples ys
samples-append n [] ys h = refl
samples-append n (x ∷ []) ys h = ground arith
samples-append zero (x ∷ y ∷ xs) ys h = ground arith
samples-append (suc n) (x ∷ y ∷ xs) ys h =
    ap (λ t. (x, y) ∷ t) (samples-append n xs ys (omega arith))

module _ (fp : F64) where
  push_samples-append :
      (d : Detector fp.Float) (xs ys : List (ℕ × ℕ))
      → let (d', first) = push_samples fp d xs in
        let (d'', rest) = push_samples fp d' ys in
        push_samples fp d (xs ++ ys) ≡ (d'', first ++ rest)
  unfolding push_samples
  push_samples-append d [] ys = refl
  push_samples-append d (x ∷ xs) ys =
      let ih = push_samples-append (step fp d x).0 xs ys in
      let first = (step fp d x).1 in
      let parts = push_samples fp (step fp d x).0 xs in
      ap (λ r. (r.0, first ++ r.1)) ih
      ∙ ap (λ bs. ((push_samples fp parts.0 ys).0, bs))
          (sym (append_assoc first parts.1 (push_samples fp parts.0 ys).1))

  -- The bursts of a stream do not depend on how it is cut into blocks of whole samples: pushing two
  -- blocks, the first of even length, leaves the detector and returns the bursts, in order, that
  -- pushing them as one does.
  pub push-append :
      (d : Detector fp.Float) (n : ℕ) (xs ys : List ℕ)
      → length xs ≡ 2 * n
      → let (d', first) = push fp d xs in
        let (d'', rest) = push fp d' ys in push fp d (xs ++ ys) ≡ (d'', first ++ rest)
  unfolding push
  push-append d n xs ys h =
      ap (push_samples fp d) (samples-append n xs ys h)
      ∙ push_samples-append d (samples xs) (samples ys)
