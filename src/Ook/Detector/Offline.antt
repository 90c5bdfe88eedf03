-- ===== src/Ook/Detector/Offline.antt =====
-- The two ways in which proxyd/src/ook.rs slices a signal, `runs` with `split_bursts` and `Detector`
-- at a fixed threshold, side by side.
pub mod Phases
pub mod Merging
pub mod Gaps
pub mod Turning
pub mod Silence
pub mod Steady
pub mod Ending
pub mod Refinement
pub mod Streaming
use hackrf_proxy.Base.{
  ℕ, suc, ◌+◌, ◌≤◌, ◌<◌, Bool, true, false, Option, none, some, List, [], ◌∷◌, ◌≡◌, ◌⊎◌, same,
  if◌then◌else◌,
}
use hackrf_proxy.Base.Words.{add_u64}
use hackrf_proxy.Base.Int.{ℤ, pos, leb_ℤ}
use hackrf_proxy.Ook.Runs.{Run, Slicer, push_run}
use hackrf_proxy.Ook.Bursts.Gathering.{gather, finish_on, space}
use hackrf_proxy.Ook.Detector.View.{View}

-- What is asked of the durations that counts of samples have, for the shortest run and the gap: a
-- duration is at most one microsecond for each sample, that of a run that is long enough is not
-- zero, and a silence of as many samples as the gap lasts as long as the gap.
pub record IsTimed (duration : ℕ → ℤ) (min_samples gap_samples : ℕ) (gap_us : ℤ) : Type 0 where
  pub lasts :
      (len : ℕ) → (x : ℕ) × (duration len ≡ pos x) × (x ≤ len) × ((len < min_samples) ⊎ (1 ≤ x))
  pub spans : (len : ℕ) → gap_samples ≤ len → leb_ℤ gap_us (duration len) ≡ true
  pub wide : min_samples ≤ gap_samples
  pub some_gap : 1 ≤ gap_samples

-- A sample, for the offline path: `slice_sample`, by its side of the threshold.
abbrev pub cut : (ℕ → ℤ) → ℕ → Slicer → Bool → Slicer
cut duration min_samples s on =
    if same on s.current_on then record s { len = add_u64 s.len 1 } else record {
      out = push_run min_samples s.out s.current_on s.len (duration s.len);
      current_on = on;
      len = 1;
    }

abbrev pub cut_all : (ℕ → ℤ) → ℕ → Slicer → List Bool → Slicer
cut_all duration min_samples s [] = s
cut_all duration min_samples s (on ∷ rest) =
    cut_all duration min_samples (cut duration min_samples s on) rest

-- The end of the signal, for the offline path: `close_run`.
abbrev pub closed : (ℕ → ℤ) → ℕ → Slicer → List Run
closed duration min_samples s = push_run min_samples s.out s.current_on s.len (duration s.len)

-- How the two paths stand to each other, with the run in progress and its samples: no run has ended
-- yet; the last run is pending; a silence has reached the gap, and all is flushed; or a silence
-- that did so is pending again.
pub data Phase : Type 0 where
  fresh : Bool → ℕ → Phase
  waiting : Run → List Run → Bool → ℕ → Phase
  flushed : List Run → ℕ → Phase
  resumed : ℤ → ℤ → List Run → Bool → ℕ → Phase

abbrev pub slicer : Phase → Slicer
slicer (fresh on len) = record { out = []; current_on = on; len = len }
slicer (waiting p older on len) = record { out = p ∷ older; current_on = on; len = len }
slicer (flushed out len) = record { out = out; current_on = false; len = len }
slicer (resumed x u older on len) = record { out = space x ∷ older; current_on = on; len = len }

abbrev pub viewer : ℤ → ℕ → Phase → View
viewer gap_us min_edges (fresh on len) = record {
  on = on;
  len = len;
  pending = none;
  gathered = gather gap_us min_edges [];
}
viewer gap_us min_edges (waiting p older on len) = record {
  on = on;
  len = len;
  pending = some p;
  gathered = gather gap_us min_edges older;
}
viewer gap_us min_edges (flushed out len) = record {
  on = false;
  len = len;
  pending = none;
  gathered = finish_on (gather gap_us min_edges out);
}
viewer gap_us min_edges (resumed x u older on len) = record {
  on = on;
  len = len;
  pending = some (space u);
  gathered = finish_on (gather gap_us min_edges older);
}

-- A run lasts at most as long as the samples before the run in progress, of which there are `n`
-- with it; it is the first one, or not of no duration.
abbrev pub Head : ℕ → ℕ → Run → List Run → Type 0
Head n len p older = (x : ℕ) × (p.us ≡ pos x) × (x + len ≤ n) × ((older ≡ []) ⊎ (1 ≤ x))

abbrev pub HeadOf : ℕ → ℕ → List Run → Type 0
HeadOf n len [] = Unit
HeadOf n len (p ∷ older) = Head n len p older

-- A silence in progress is shorter than `k`.
abbrev pub Quiet : ℕ → Bool → ℕ → Type 0
Quiet k true len = Unit
Quiet k false len = len < k

-- What holds after `n` samples; a silence is flushed from `k` samples on.
abbrev pub Holds : ℤ → ℕ → ℕ → Phase → Type 0
Holds gap_us n k (fresh on len) = (len ≤ n) × Quiet k on len
Holds gap_us n k (waiting p older on len) = (len ≤ n) × (Quiet k on len × Head n len p older)
Holds gap_us n k (flushed out len) = (len ≤ n) × ((k ≤ len) × HeadOf n len out)
Holds gap_us n k (resumed x u older on len) =
    (len ≤ n)
    × (Quiet k on len
        × ((leb_ℤ gap_us x ≡ true) × ((y : ℕ) × (x ≡ pos y) × (1 ≤ y) × (y + len ≤ n))))
