-- ===== src/Cli/Demod/Chunking.antt =====
-- `stream_demod` of proxyd/src/main.rs reads a capture in chunks of a USB transfer.
use hackrf_proxy.Base.{
  ℕ, zero, suc, ◌*◌, ◌≤◌, List, [], ◌∷◌, ◌++◌, ◌≡◌, refl, sym, ap, ◌∙◌, arith, length, take, drop,
  map, append-nil, ◌⊎◌, inl, inr, take-drop, length-drop, take-cases, subst,
}
use hackrf_proxy.Base.Floats.{F64}
use hackrf_proxy.Ook.Detector
use hackrf_proxy.Ook.Detector.{Detector, Burst, push, push_samples}
use hackrf_proxy.Ook.Detector.Stream.{push-append}
use hackrf_proxy.Radio.Driver.{chunks}
use hackrf_proxy.Cli.Options.{DemodArgs}
use hackrf_proxy.Cli.Demod.{push_chunks, stream_demod, stream_config}

module _ (fp : F64) where
  push-nothing : (d : Detector fp.Float) → push fp d [] ≡ (d, [])
  unfolding push push_samples
  push-nothing d = refl

  -- A block of whole samples and the rest, or the last block.
  push-cut :
      (d : Detector fp.Float) (n : ℕ) (c rest : List ℕ)
      → (length c ≡ 2 * n) ⊎ (rest ≡ [])
      → push fp d (c ++ rest)
        ≡ ((push fp (push fp d c).0 rest).0, (push fp d c).1 ++ (push fp (push fp d c).0 rest).1)
  push-cut d n c rest (inl h) = push-append fp d n c rest h
  push-cut d n c rest (inr h) =
      subst
        (λ r.
          push fp d (c ++ r)
          ≡ ((push fp (push fp d c).0 r).0, (push fp d c).1 ++ (push fp (push fp d c).0 r).1))
        (sym h)
        (ap (push fp d) (append-nil c)
          ∙ ap (λ bs. ((push fp d c).0, bs)) (sym (append-nil (push fp d c).1))
          ∙ ap (λ r. (r.0, (push fp d c).1 ++ r.1)) (sym (push-nothing (push fp d c).0)))

  push_chunks-eq :
      (fuel n m : ℕ) (d : Detector fp.Float) (xs : List ℕ)
      → suc n ≡ 2 * m
      → length xs ≤ fuel
      → push_chunks fp d (chunks fuel (suc n) xs) ≡ push fp d xs
  unfolding push_chunks chunks
  push_chunks-eq zero n m d [] e h = sym (push-nothing d)
  push_chunks-eq zero n m d (x ∷ xs) e h = absurd (omega arith)
  push_chunks-eq (suc fuel) n m d [] e h = sym (push-nothing d)
  push_chunks-eq (suc fuel) n m d (x ∷ xs) e h =
      let c = x ∷ take n xs in
      let rest = drop n xs in
      let ih = push_chunks-eq fuel n m (push fp d c).0 rest e (omega (arith, length-drop n xs)) in
      let cut : (length c ≡ 2 * m) ⊎ (rest ≡ []) = elim (take-cases n xs) [
        | inl l ↦ inl (ap suc l ∙ e)
        | inr l ↦ inr l
      ] in
      ap (λ r. (r.0, (push fp d c).1 ++ r.1)) ih
      ∙ sym (push-cut d m c rest cut)
      ∙ ap (λ t. push fp d (x ∷ t)) (take-drop n xs)

  -- The streaming path finds in a capture the bursts that a receiver with the same settings finds
  -- when it is given the capture at once: the chunks lose nothing, whatever the capture's length.
  pub stream_demod-whole :
      (raw : List ℕ) (args : DemodArgs fp.Float)
      → (stream_demod fp raw args).0
        ≡ map
            (λ b. b.timings)
            (push fp
              (Detector.new fp (stream_config args (Detector.config_new fp args.sample_rate)))
              raw).1
  unfolding stream_demod
  stream_demod-whole raw args =
      ap (λ r. map (λ (b : Burst). b.timings) r.1)
        (push_chunks-eq (length raw) 32_767 16_384 _ raw refl (omega arith))
