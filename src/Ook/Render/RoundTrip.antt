-- ===== src/Ook/Render/RoundTrip.antt =====
-- Timings survive being synthesized and sliced again, over `synthesize`, `envelope` and `runs` of
-- proxyd/src/ook.rs.
use hackrf_proxy.Base.{
  ℕ, zero, suc, ◌+◌, ◌≤◌, ◌<◌, Bool, true, false, List, [], ◌∷◌, ◌++◌, All, ◌≡◌, refl, ◌∙◌, ap,
  arith, leb, if◌then◌else◌, same, reverse, map, replicate, Bool-cases, inl, inr,
}
use mathlib.Core.List.{reverse_aux, reverse-reverse}
use hackrf_proxy.Base.Int.{ℤ, pos, unsigned_abs, two64}
use hackrf_proxy.Base.Floats.{F64}
use hackrf_proxy.Ook.Envelope.{envelope, abs_i8}
use hackrf_proxy.Ook.Runs.Alternation.{same_comm}
use hackrf_proxy.Ook.Runs.{
  Run, Slicer, push_run, close_run, slice_sample, slice_all, runs, duration_of, samples_in,
}
use hackrf_proxy.Ook.Render.{fill, sample_count, synthesize, is_mark, to_u8}

-- The run that a timing stands for.
abbrev pub run_of : ℤ → Run
run_of t = record { on = is_mark t; us = pos (unsigned_abs t) }

-- Marks and spaces take turns.
abbrev pub TakeTurns : List ℤ → Type 0
TakeTurns [] = Unit
TakeTurns (t ∷ []) = Unit
TakeTurns (t ∷ u ∷ ts) = (same (is_mark t) (is_mark u) ≡ false) × TakeTurns (u ∷ ts)

pub envelope-fill :
    (n i : ℕ) (rest : List ℕ)
    → envelope (fill n i ++ rest) ≡ replicate n (abs_i8 i + 0) ++ envelope rest
unfolding envelope fill
envelope-fill zero i rest = refl
envelope-fill (suc n) i rest = ap (λ t. (abs_i8 i + 0) ∷ t) (envelope-fill n i rest)

abbrev slicer : List Run → Bool → ℕ → Slicer
slicer out on len = record { out = out; current_on = on; len = len }

-- What the round trip asks of a timing: its samples are long enough to be a run, fewer than 2^64,
-- and last as long as the timing says.
pub record IsExact (fp : F64) (rate min_samples : ℕ) (t : ℤ) : Type 0 where
  pub some_samples : 0 < sample_count fp rate t
  pub long_enough : min_samples ≤ sample_count fp rate t
  pub countable : sample_count fp rate t < two64
  pub exact : duration_of fp rate (sample_count fp rate t) ≡ pos (unsigned_abs t)

module _ (fp : F64) (threshold rate min_samples : ℕ) where
  slice_sample-same :
      (m len : ℕ) (out : List Run) (on : Bool)
      → leb threshold m ≡ on
      → len + 1 < two64
      → slice_sample fp threshold rate min_samples (slicer out on len) m ≡ slicer out on (len + 1)
  unfolding slice_sample
  slice_sample-same m len out on h fits = ground arith

  slice_sample-turn :
      (m : ℕ) (s : Slicer) (on : Bool)
      → leb threshold m ≡ on
      → same on s.current_on ≡ false
      → slice_sample fp threshold rate min_samples s m
        ≡ slicer (close_run fp threshold rate min_samples s) on 1
  unfolding slice_sample
  slice_sample-turn m s on h turn = ground arith

  -- Samples on the current side of the threshold only lengthen the run.
  slice_all-replicate :
      (n m len j : ℕ) (out : List Run) (on : Bool) (rest : List ℕ)
      → leb threshold m ≡ on
      → len + n ≡ j
      → j < two64
      → slice_all fp threshold rate min_samples (slicer out on len) (replicate n m ++ rest)
        ≡ slice_all fp threshold rate min_samples (slicer out on j) rest
  unfolding slice_all
  slice_all-replicate zero m len j out on rest h e fits =
      ap (λ k. slice_all fp threshold rate min_samples (slicer out on k) rest) (omega arith)
  slice_all-replicate (suc n) m len j out on rest h e fits =
      ap (λ s. slice_all fp threshold rate min_samples s (replicate n m ++ rest))
        (slice_sample-same m len out on h (omega arith))
      ∙ slice_all-replicate n m (len + 1) j out on rest h (omega arith) fits

  -- Samples on the other side end the run, and are the next one.
  slice_all-turn :
      (n m : ℕ) (s : Slicer) (on : Bool) (rest : List ℕ)
      → leb threshold m ≡ on
      → same on s.current_on ≡ false
      → 0 < n
      → n < two64
      → slice_all fp threshold rate min_samples s (replicate n m ++ rest)
        ≡ slice_all fp threshold rate min_samples
            (slicer (close_run fp threshold rate min_samples s) on n)
            rest
  unfolding slice_all
  slice_all-turn zero m s on rest h turn some fits = absurd (omega arith)
  slice_all-turn (suc n) m s on rest h turn some fits =
      ap (λ s'. slice_all fp threshold rate min_samples s' (replicate n m ++ rest))
        (slice_sample-turn m s on h turn)
      ∙ slice_all-replicate n m 1 (suc n) (close_run fp threshold rate min_samples s) on rest h
          (omega arith) fits

  abbrev Turns : ℤ → List Run → Type 0
  Turns t [] = Unit
  Turns t (r ∷ out) = same (is_mark t) r.on ≡ false

  push_run-eq :
      (out : List Run) (t : ℤ) (len : ℕ)
      → Turns t out
      → min_samples ≤ len
      → push_run min_samples out (is_mark t) len (pos (unsigned_abs t)) ≡ run_of t ∷ out
  unfolding push_run
  push_run-eq [] t len turn long = refl
  push_run-eq (r ∷ out) t len turn long = ground (arith, same_comm (is_mark t) r.on)

  close_run-eq :
      (t : ℤ) (out : List Run)
      → IsExact fp rate min_samples t
      → Turns t out
      → close_run fp threshold rate min_samples (slicer out (is_mark t) (sample_count fp rate t))
        ≡ run_of t ∷ out
  unfolding close_run
  close_run-eq t out x turn =
      ap (push_run min_samples out (is_mark t) (sample_count fp rate t)) x.exact
      ∙ push_run-eq out t (sample_count fp rate t) turn x.long_enough

  module _ (amplitude : ℤ) (loud : leb threshold (abs_i8 (to_u8 amplitude) + 0) ≡ true)
      (quiet : leb threshold 0 ≡ false) where
    abbrev level : ℤ → ℕ
    level t = abs_i8 (if is_mark t then to_u8 amplitude else 0) + 0

    level-side : (t : ℤ) → leb threshold (level t) ≡ is_mark t
    level-side t = elim (Bool-cases (is_mark t)) [
      | inl mark ↦ rw mark loud
      | inr space ↦ rw space quiet
    ]

    envelope-synthesize :
        (t : ℤ) (ts : List ℤ)
        → envelope (synthesize fp (t ∷ ts) rate amplitude)
          ≡ replicate (sample_count fp rate t) (level t)
            ++ envelope (synthesize fp ts rate amplitude)
    unfolding synthesize
    envelope-synthesize t ts =
        envelope-fill (sample_count fp rate t) (if is_mark t then to_u8 amplitude else 0)
          (synthesize fp ts rate amplitude)

    slice_rest :
        (ts : List ℤ) (t : ℤ) (out : List Run)
        → TakeTurns (t ∷ ts)
        → All (IsExact fp rate min_samples) (t ∷ ts)
        → Turns t out
        → close_run fp threshold rate min_samples (
            slice_all fp threshold rate min_samples
              (slicer out (is_mark t) (sample_count fp rate t))
              (envelope (synthesize fp ts rate amplitude)))
          ≡ reverse_aux (map run_of (t ∷ ts)) out
    unfolding slice_all envelope synthesize
    slice_rest [] t out turns x turn = close_run-eq t out x.0 turn
    slice_rest (u ∷ ts) t out turns x turn =
        let s : Slicer = slicer out (is_mark t) (sample_count fp rate t) in
        rw (envelope-synthesize u ts) (
          rw
            (slice_all-turn (sample_count fp rate u) (level u) s (is_mark u)
              (envelope (synthesize fp ts rate amplitude)) (level-side u)
              (same_comm (is_mark u) (is_mark t) ∙ turns.0) x.1.0.some_samples x.1.0.countable)
            (rw (close_run-eq t out x.0 turn) (
              slice_rest ts u (run_of t ∷ out) turns.1 x.1
                (same_comm (is_mark u) (is_mark t) ∙ turns.0))))

runs-replicate :
    (fp : F64) (n m threshold rate min_us : ℕ) (rest : List ℕ)
    → 0 < n
    → n < two64
    → runs fp (replicate n m ++ rest) threshold rate min_us
      ≡ reverse (
          close_run fp threshold rate (samples_in fp rate (fp.of_ℕ min_us)) (
            slice_all fp threshold rate
              (samples_in fp rate (fp.of_ℕ min_us))
              (slicer [] (leb threshold m) n)
              rest))
unfolding runs
runs-replicate fp zero m threshold rate min_us rest some fits = absurd (omega arith)
runs-replicate fp (suc n) m threshold rate min_us rest some fits =
    let least = samples_in fp rate (fp.of_ℕ min_us) in
    ap (λ s. reverse (close_run fp threshold rate least s))
      (slice_all-replicate fp threshold rate least (suc n) m 0 (suc n) [] (leb threshold m) rest
        refl (omega arith) fits)

-- Timings that take turns between marks and spaces, each of them exact at the sample rate and at
-- least as long as the shortest run, are what slicing their waveform gives, at every threshold above
-- silence that the amplitude reaches.
pub synthesize-runs :
    (fp : F64) (ts : List ℤ) (amplitude : ℤ) (threshold rate min_us : ℕ)
    → leb threshold (abs_i8 (to_u8 amplitude) + 0) ≡ true
    → leb threshold 0 ≡ false
    → TakeTurns ts
    → All (IsExact fp rate (samples_in fp rate (fp.of_ℕ min_us))) ts
    → runs fp (envelope (synthesize fp ts rate amplitude)) threshold rate min_us ≡ map run_of ts
synthesize-runs fp [] amplitude threshold rate min_us loud quiet turns x =
    unfold runs envelope synthesize in refl
synthesize-runs fp (t ∷ ts) amplitude threshold rate min_us loud quiet turns x =
    let least = samples_in fp rate (fp.of_ℕ min_us) in
    let m = level fp threshold rate least amplitude loud quiet t in
    let side : leb threshold m ≡ is_mark t =
      level-side fp threshold rate least amplitude loud quiet t in
    rw (envelope-synthesize fp threshold rate least amplitude loud quiet t ts) (
      runs-replicate fp (sample_count fp rate t) m threshold rate min_us
        (envelope (synthesize fp ts rate amplitude)) x.0.some_samples x.0.countable
      ∙ ap
          (λ on. reverse (
            close_run fp threshold rate least (
              slice_all fp threshold rate least (slicer [] on (sample_count fp rate t))
                (envelope (synthesize fp ts rate amplitude)))))
          side
      ∙ ap reverse (slice_rest fp threshold rate least amplitude loud quiet ts t [] turns x tt)
      ∙ reverse-reverse (map run_of (t ∷ ts)))
