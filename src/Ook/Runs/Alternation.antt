-- ===== src/Ook/Runs/Alternation.antt =====
-- The runs of `runs` in proxyd/src/ook.rs change polarity every time.
use hackrf_proxy.Base.{ℕ, Bool, true, false, List, [], ◌∷◌, ◌≡◌, refl, arith, leb, same, reverse}
use mathlib.Core.List.{reverse_aux}
use hackrf_proxy.Base.Int.{ℤ}
use hackrf_proxy.Base.Floats.{F64}
use hackrf_proxy.Ook.Runs.{
  Run, Slicer, push_run, close_run, slice_sample, slice_all, runs, duration_of, samples_in,
}

-- No two neighbours have the same polarity.
abbrev pub Alternates : List Run → Type 0
Alternates [] = Unit
Alternates (r ∷ []) = Unit
Alternates (r ∷ q ∷ rs) = (same r.on q.on ≡ false) × Alternates (q ∷ rs)

abbrev Meets : List Run → List Run → Type 0
Meets [] acc = Unit
Meets (r ∷ rs) [] = Unit
Meets (r ∷ rs) (q ∷ qs) = same r.on q.on ≡ false

pub same_comm : (a b : Bool) → same a b ≡ same b a
same_comm true true = refl
same_comm true false = refl
same_comm false true = refl
same_comm false false = refl

reverse_aux-Alternates :
    (xs acc : List Run)
    → Alternates xs
    → Alternates acc
    → Meets xs acc
    → Alternates (reverse_aux xs acc)
reverse_aux-Alternates [] acc h k m = k
reverse_aux-Alternates (x ∷ []) [] h k m = tt
reverse_aux-Alternates (x ∷ []) (a ∷ acc) h k m = (m, k)
reverse_aux-Alternates (x ∷ y ∷ xs) [] h k m =
    reverse_aux-Alternates (y ∷ xs) (x ∷ []) h.1 tt (ground (arith, same_comm x.on y.on))
reverse_aux-Alternates (x ∷ y ∷ xs) (a ∷ acc) h k m =
    reverse_aux-Alternates (y ∷ xs) (x ∷ a ∷ acc) h.1 (m, k) (ground (arith, same_comm x.on y.on))

push_run-Alternates :
    (min_samples : ℕ) (out : List Run) (on : Bool) (len : ℕ) (us : ℤ)
    → Alternates out
    → Alternates (push_run min_samples out on len us)
unfolding push_run
push_run-Alternates min_samples [] on len us h = tt
push_run-Alternates min_samples (r ∷ []) on len us h = ground (arith, same_comm r.on on)
push_run-Alternates min_samples (r ∷ q ∷ out) on len us h = ground (arith, same_comm r.on on)

module _ (fp : F64) (threshold rate min_samples : ℕ) where
  slice_sample-Alternates :
      (s : Slicer) (m : ℕ)
      → Alternates s.out
      → Alternates (slice_sample fp threshold rate min_samples s m).out
  unfolding slice_sample
  slice_sample-Alternates s m h = ground (
    arith,
    push_run-Alternates min_samples s.out s.current_on s.len (duration_of fp rate s.len) h,
  )

  slice_all-Alternates :
      (s : Slicer) (ms : List ℕ)
      → Alternates s.out
      → Alternates (slice_all fp threshold rate min_samples s ms).out
  unfolding slice_all
  slice_all-Alternates s [] h = h
  slice_all-Alternates s (m ∷ ms) h =
      slice_all-Alternates (slice_sample fp threshold rate min_samples s m) ms
        (slice_sample-Alternates s m h)

  close_run-Alternates :
      (s : Slicer) → Alternates s.out → Alternates (close_run fp threshold rate min_samples s)
  unfolding close_run
  close_run-Alternates s h =
      push_run-Alternates min_samples s.out s.current_on s.len (duration_of fp rate s.len) h

reverse-Alternates : (xs : List Run) → Alternates xs → Alternates (reverse xs)
reverse-Alternates [] h = tt
reverse-Alternates (x ∷ xs) h = reverse_aux-Alternates (x ∷ xs) [] h tt tt

-- The runs of any envelope, at any threshold, rate and shortest run, alternate between mark and
-- space.
pub runs-Alternates :
    (fp : F64) (mag : List ℕ) (threshold rate min_us : ℕ)
    → Alternates (runs fp mag threshold rate min_us)
unfolding runs
runs-Alternates fp [] threshold rate min_us = tt
runs-Alternates fp (m ∷ mag) threshold rate min_us =
    let min_samples = samples_in fp rate (fp.of_ℕ min_us) in
    let first : Slicer = record { out = []; current_on = leb threshold m; len = 0 } in
    let last = slice_all fp threshold rate min_samples first (m ∷ mag) in
    reverse-Alternates (close_run fp threshold rate min_samples last) (
      close_run-Alternates fp threshold rate min_samples last
        (slice_all-Alternates fp threshold rate min_samples first (m ∷ mag) tt))
