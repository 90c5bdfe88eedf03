-- ===== src/Ook/Detector/View.antt =====
-- What slicing at a fixed threshold changes in `Detector` of proxyd/src/ook.rs: the detector without
-- its threshold, its window and its peaks.
pub mod Projection
use hackrf_proxy.Base.{
  ℕ, Bool, true, false, not, ◌&&◌, ◌||◌, Option, none, some, List, [], ◌∷◌, ◌++◌, append-nil,
  append_assoc, Bool-cases, inl, inr, map, ◌≡◌, refl, sym, ap, ◌∙◌, arith, ltb, leb, ◌==◌,
  if◌then◌else◌, if-elim, option-elim, same,
}
use hackrf_proxy.Base.Words.{add_u64}
use hackrf_proxy.Base.Int.{ℤ}
use hackrf_proxy.Base.Floats.{F64}
use hackrf_proxy.Ook.Runs.{Run, lengthen, duration_of}
use hackrf_proxy.Ook.Bursts
use hackrf_proxy.Ook.Bursts.{BurstAccumulator}
use hackrf_proxy.Ook.Bursts.Gathering.{Gathered, push_on, finish_on}
use hackrf_proxy.Ook.Detector.{
  Detector, DetectorConfig, Burst, take_burst, accumulate, finish_burst, emit_run, flush_pending,
  end_on_gap, raise_peak, finished_run, extend_run, push_sample,
}
-- What slicing at a fixed threshold changes in `Detector` of proxyd/src/ook.rs: the detector without
-- its threshold, its window and its peaks.
use hackrf_proxy.Base.{
  ℕ, Bool, true, false, not, ◌&&◌, ◌||◌, Option, none, some, List, [], ◌∷◌, ◌++◌, append-nil,
  append_assoc, Bool-cases, inl, inr, map, ◌≡◌, refl, sym, ap, ◌∙◌, arith, ltb, leb, ◌==◌,
  if◌then◌else◌, if-elim, option-elim, same,
}
use hackrf_proxy.Base.Words.{add_u64}
use hackrf_proxy.Base.Int.{ℤ}
use hackrf_proxy.Base.Floats.{F64}
use hackrf_proxy.Ook.Runs.{Run, lengthen, duration_of}
use hackrf_proxy.Ook.Bursts
use hackrf_proxy.Ook.Bursts.{BurstAccumulator}
use hackrf_proxy.Ook.Bursts.Gathering.{Gathered, push_on, finish_on}
use hackrf_proxy.Ook.Detector.{
  Detector, DetectorConfig, Burst, take_burst, accumulate, finish_burst, emit_run, flush_pending,
  end_on_gap, raise_peak, finished_run, extend_run, push_sample,
}

-- The run in progress, the run that is pending, and the accumulator with the bursts so far.
pub record View : Type 0 where
  pub on : Bool
  pub len : ℕ
  pub pending : Option Run
  pub gathered : Gathered

abbrev pub hand_over : View → Run → View
hand_over v run = record v { gathered = push_on v.gathered run }

-- A run has ended, and `run` is what it is.
abbrev pub settle : ℕ → View → Option Run → Run → View
settle min_samples v none run = record v { pending = some run }
settle min_samples v (some previous) run =
    if ltb v.len min_samples || same previous.on run.on
    then record v { pending = some (lengthen previous run.us) }
    else hand_over (record v { pending = some run }) previous

abbrev pub let_go : View → Option Run → View
let_go v none = record v { gathered = finish_on v.gathered }
let_go v (some run) = record v { pending = none; gathered = finish_on (push_on v.gathered run) }

module _ (duration : ℕ → ℤ) (min_samples gap_samples : ℕ) where
  abbrev pub turn : View → Bool → View
  turn v on =
      if same on v.on
      then record v { len = add_u64 v.len 1 }
      else record (settle min_samples v v.pending (record { on = v.on; us = duration v.len })) {
        on = on;
        len = 1;
      }

  abbrev pub end_silence : View → View
  end_silence v = if not v.on && (v.len == gap_samples) then let_go v v.pending else v

  -- A sample, of which only the side of the threshold counts.
  abbrev pub hear : View → Bool → View
  hear v on = end_silence (turn v on)

  abbrev pub hear_all : View → List Bool → View
  hear_all v [] = v
  hear_all v (on ∷ rest) = hear_all (hear v on) rest

abbrev pub timings_of : List Burst → List (List ℤ)
timings_of bs = map (λ b. b.timings) bs

module _ {F : Type 0} where
  -- A detector's view, after the bursts that it has returned.
  abbrev pub view : List (List ℤ) → Detector F → View
  view bursts d = record {
    on = d.on;
    len = d.run_samples;
    pending = d.pending;
    gathered = (d.accumulator, bursts);
  }

  -- The view of what a call returns.
  abbrev pub after : List (List ℤ) → Detector F × List Burst → View
  after bursts (d, bs) = view (bursts ++ timings_of bs) d

  -- What slicing leaves alone.
  abbrev pub fixed : Detector F → DetectorConfig F × (Option ℕ × (ℕ × (ℕ × ℕ)))
  fixed d = (d.config, (d.threshold, (d.window_seen, (d.min_samples, d.gap_samples))))
