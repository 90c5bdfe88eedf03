-- ===== src/Ook/Detector/Offline/Ending.antt =====
-- How a signal that ends with a silence ends in `runs` of proxyd/src/ook.rs.
use hackrf_proxy.Base.{
  ℕ, suc, ◌+◌, ◌≤◌, ◌<◌, Bool, false, List, [], ◌∷◌, ◌++◌, length, map, ◌≡◌, refl, arith, leb, All,
}
use hackrf_proxy.Base.Int.{ℤ, two64}
use hackrf_proxy.Base.Floats.{F64}
use hackrf_proxy.Ook.Runs.{Slicer, duration_of, close_run, slice_sample, slice_all}
use hackrf_proxy.Ook.Detector.Offline.{cut, cut_all}

pub slice_all-cut :
    (fp : F64) (threshold rate min_samples : ℕ) (s : Slicer) (ms : List ℕ)
    → slice_all fp threshold rate min_samples s ms
      ≡ cut_all (duration_of fp rate) min_samples s (map (λ m. leb threshold m) ms)
unfolding slice_all slice_sample close_run
slice_all-cut fp threshold rate min_samples s [] = refl
slice_all-cut fp threshold rate min_samples s (m ∷ ms) =
    slice_all-cut fp threshold rate min_samples (slice_sample fp threshold rate min_samples s m) ms

-- What is left of a silence of at least `k` samples.
abbrev pub IsSilent : ℕ → Slicer → Type 0
IsSilent k s = (s.current_on ≡ false) × (k ≤ s.len)

pub cut_all-append :
    (duration : ℕ → ℤ) (min_samples : ℕ) (s : Slicer) (xs ys : List Bool)
    → cut_all duration min_samples s (xs ++ ys)
      ≡ cut_all duration min_samples (cut_all duration min_samples s xs) ys
cut_all-append duration min_samples s [] ys = refl
cut_all-append duration min_samples s (x ∷ xs) ys =
    cut_all-append duration min_samples (cut duration min_samples s x) xs ys

abbrev pub AllOff : List Bool → Type 0
AllOff bs = All (λ b. b ≡ false) bs

cut-off :
    (duration : ℕ → ℤ) (min_samples j : ℕ) (s : Slicer) (b : Bool)
    → b ≡ false
    → IsSilent j s
    → suc s.len < two64
    → IsSilent (suc j) (cut duration min_samples s b)
      × ((cut duration min_samples s b).len ≡ suc s.len)
cut-off duration min_samples j s b e silent fits = (ground arith, ground arith)

cut-first :
    (duration : ℕ → ℤ) (min_samples : ℕ) (s : Slicer) (b : Bool)
    → b ≡ false
    → suc s.len < two64
    → IsSilent 1 (cut duration min_samples s b) × ((cut duration min_samples s b).len ≤ suc s.len)
cut-first duration min_samples s b e fits = (ground arith, ground arith)

silence-longer :
    (duration : ℕ → ℤ) (min_samples j : ℕ) (s : Slicer) (quiet : List Bool)
    → AllOff quiet
    → IsSilent j s
    → s.len + length quiet < two64
    → IsSilent (j + length quiet) (cut_all duration min_samples s quiet)
silence-longer duration min_samples j s [] off silent fits = (silent.0, omega (arith, silent.1))
silence-longer duration min_samples j s (b ∷ quiet) (e, off) silent fits =
    let (next, len) = cut-off duration min_samples j s b e silent (omega arith) in
    let later =
      silence-longer duration min_samples (suc j) (cut duration min_samples s b) quiet off next
        (omega (arith, len)) in
    (later.0, omega (arith, later.1))

-- Silence at the end of a signal is silence in the run in progress.
pub ends-IsSilent :
    (duration : ℕ → ℤ) (min_samples k : ℕ) (s : Slicer) (quiet : List Bool)
    → AllOff quiet
    → 1 ≤ k
    → k ≤ length quiet
    → s.len + length quiet < two64
    → IsSilent k (cut_all duration min_samples s quiet)
ends-IsSilent duration min_samples k s [] off some_gap long fits = absurd (omega arith)
ends-IsSilent duration min_samples k s (b ∷ quiet) (e, off) some_gap long fits =
    let (next, len) = cut-first duration min_samples s b e (omega arith) in
    let later =
      silence-longer duration min_samples 1 (cut duration min_samples s b) quiet off next
        (omega (arith, len)) in
    (later.0, omega (arith, later.1))
