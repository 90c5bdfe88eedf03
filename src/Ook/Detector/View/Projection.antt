-- ===== src/Ook/Detector/View/Projection.antt =====
-- `push_sample` of proxyd/src/ook.rs does to the view of a detector what `hear` does.
use hackrf_proxy.Base.{
  ℕ, Bool, true, false, not, ◌&&◌, ◌||◌, Option, none, some, List, [], ◌∷◌, ◌++◌, append-nil,
  append_assoc, ◌≡◌, refl, sym, ap, ◌∙◌, ltb, leb, ◌==◌, if◌then◌else◌, if-elim, same,
}
use hackrf_proxy.Base.Words.{add_u64}
use hackrf_proxy.Base.Int.{ℤ}
use hackrf_proxy.Base.Floats.{F64}
use hackrf_proxy.Ook.Runs.{Run, lengthen, duration_of}
use hackrf_proxy.Ook.Bursts
use hackrf_proxy.Ook.Bursts.{BurstAccumulator}
use hackrf_proxy.Ook.Bursts.Gathering.{finish_on}
use hackrf_proxy.Ook.Detector.{
  Detector, DetectorConfig, Burst, take_burst, accumulate, finish_burst, emit_run, flush_pending,
  end_on_gap, raise_peak, finished_run, extend_run, push_sample,
}
use hackrf_proxy.Ook.Detector.View.{
  View, hand_over, settle, let_go, turn, end_silence, hear, timings_of, view, after, fixed,
}

timings_of-append : (xs ys : List Burst) → timings_of (xs ++ ys) ≡ timings_of xs ++ timings_of ys
timings_of-append [] ys = refl
timings_of-append (x ∷ xs) ys = ap (λ t. x.timings ∷ t) (timings_of-append xs ys)

module _ {F : Type 0} where
  take_burst-view :
      (bursts : List (List ℤ)) (d : Detector F) (b : Option (List ℤ))
      → after bursts (take_burst d b) ≡ view (bursts ++ Bursts.emit b []) d
  unfolding take_burst
  take_burst-view bursts d none = refl
  take_burst-view bursts d (some timings) = refl

  accumulate-view :
      (bursts : List (List ℤ)) (d : Detector F) (run : Run)
      → after bursts (accumulate d run) ≡ hand_over (view bursts d) run
  unfolding accumulate
  accumulate-view bursts d run =
      let p = Bursts.push d.accumulator run in
      take_burst-view bursts (record d { accumulator = p.0 }) p.1

  after-if :
      (bursts : List (List ℤ)) (b : Bool) (x y : Detector F × List Burst) (v w : View)
      → after bursts x ≡ v
      → after bursts y ≡ w
      → after bursts (if b then x else y) ≡ (if b then v else w)
  after-if bursts true x y v w h k = h
  after-if bursts false x y v w h k = k

  settled-view :
      (bursts : List (List ℤ)) (d : Detector F) (pending : Option Run) (run : Run)
      → after bursts (emit_run (record d { pending = pending }) run)
        ≡ settle d.min_samples (view bursts (record d { pending = pending })) pending run
  unfolding emit_run
  settled-view bursts d none run =
      ap (λ l. view l (record d { pending = some run })) (append-nil bursts)
  settled-view bursts d (some previous) run =
      let merged = record d { pending = some (lengthen previous run.us) } in
      let next = record d { pending = some run } in
      after-if bursts (ltb d.run_samples d.min_samples || same previous.on run.on) (merged, [])
        (accumulate next previous) (view bursts merged) (hand_over (view bursts next) previous)
        (ap (λ l. view l merged) (append-nil bursts)) (accumulate-view bursts next previous)

  emit_run-view :
      (bursts : List (List ℤ)) (d : Detector F) (run : Run)
      → after bursts (emit_run d run) ≡ settle d.min_samples (view bursts d) d.pending run
  emit_run-view bursts d run = settled-view bursts d d.pending run

  finish_burst-view :
      (bursts : List (List ℤ)) (d : Detector F)
      → after bursts (finish_burst d)
        ≡ record (view bursts d) { gathered = finish_on (d.accumulator, bursts) }
  unfolding finish_burst
  finish_burst-view bursts d =
      let p = Bursts.finish d.accumulator in
      take_burst-view bursts (record d { accumulator = p.0 }) p.1

  -- Two calls in a row.
  pub then-view :
      (bursts : List (List ℤ)) (d : Detector F) (first second : List Burst)
      → view (bursts ++ timings_of (first ++ second)) d
        ≡ view ((bursts ++ timings_of first) ++ timings_of second) d
  then-view bursts d first second =
      ap (λ l. view l d)
        (ap (λ l. bursts ++ l) (timings_of-append first second)
          ∙ sym (append_assoc bursts (timings_of first) (timings_of second)))

  -- What ends a burst, once the silence has reached the gap.
  flushed : Detector F → Detector F × List Burst
  flushed d =
      let (d', first) = flush_pending d in
      let (d'', second) = finish_burst d' in (d'', first ++ second)

  flushed-view :
      (bursts : List (List ℤ)) (d : Detector F) (pending : Option Run)
      → after bursts (flushed (record d { pending = pending }))
        ≡ let_go (view bursts (record d { pending = pending })) pending
  unfolding flushed flush_pending
  flushed-view bursts d none = finish_burst-view bursts (record d { pending = none })
  flushed-view bursts d (some run) =
      let first = accumulate (record d { pending = none }) run in
      let second = finish_burst first.0 in
      then-view bursts second.0 first.1 second.1
      ∙ finish_burst-view (bursts ++ timings_of first.1) first.0
      ∙ ap (λ (v : View). record v { gathered = finish_on v.gathered })
          (accumulate-view bursts (record d { pending = none }) run)

  end_on_gap-view :
      (bursts : List (List ℤ)) (d : Detector F) (duration : ℕ → ℤ)
      → after bursts (end_on_gap d)
        ≡ end_silence duration d.min_samples d.gap_samples (view bursts d)
  unfolding end_on_gap flushed
  end_on_gap-view bursts d duration =
      after-if bursts (not d.on && (d.run_samples == d.gap_samples)) (flushed d) (d, [])
        (let_go (view bursts d) d.pending) (view bursts d) (flushed-view bursts d d.pending)
        (ap (λ l. view l d) (append-nil bursts))

  take_burst-fixed : (d : Detector F) (b : Option (List ℤ)) → fixed (take_burst d b).0 ≡ fixed d
  unfolding take_burst
  take_burst-fixed d none = refl
  take_burst-fixed d (some timings) = refl

  accumulate-fixed : (d : Detector F) (run : Run) → fixed (accumulate d run).0 ≡ fixed d
  unfolding accumulate
  accumulate-fixed d run =
      let p = Bursts.push d.accumulator run in take_burst-fixed (record d { accumulator = p.0 }) p.1

  finish_burst-fixed : (d : Detector F) → fixed (finish_burst d).0 ≡ fixed d
  unfolding finish_burst
  finish_burst-fixed d =
      let p = Bursts.finish d.accumulator in take_burst-fixed (record d { accumulator = p.0 }) p.1

  settled-fixed :
      (d : Detector F) (pending : Option Run) (run : Run)
      → fixed (emit_run (record d { pending = pending }) run).0 ≡ fixed d
  unfolding emit_run
  settled-fixed d none run = refl
  settled-fixed d (some previous) run =
      if-elim (λ (x : Detector F × List Burst). fixed x.0 ≡ fixed d)
        (ltb d.run_samples d.min_samples || same previous.on run.on) _ _ (λ e. refl)
        (λ e. accumulate-fixed (record d { pending = some run }) previous)

  flushed-fixed :
      (d : Detector F) (pending : Option Run)
      → fixed (flushed (record d { pending = pending })).0 ≡ fixed d
  unfolding flushed flush_pending
  flushed-fixed d none = finish_burst-fixed (record d { pending = none })
  flushed-fixed d (some run) =
      finish_burst-fixed (accumulate (record d { pending = none }) run).0
      ∙ accumulate-fixed (record d { pending = none }) run

  end_on_gap-fixed : (d : Detector F) → fixed (end_on_gap d).0 ≡ fixed d
  unfolding end_on_gap flushed
  end_on_gap-fixed d =
      if-elim (λ (x : Detector F × List Burst). fixed x.0 ≡ fixed d)
        (not d.on && (d.run_samples == d.gap_samples)) _ _ (λ e. flushed-fixed d d.pending)
        (λ e. refl)

  raise_peak-fixed : (on : Bool) (m : ℕ) (d : Detector F) → fixed (raise_peak on m d) ≡ fixed d
  raise_peak-fixed true m d = refl
  raise_peak-fixed false m d = refl

  raise_peak-view :
      (bursts : List (List ℤ)) (on : Bool) (m : ℕ) (d : Detector F)
      → view bursts (raise_peak on m d) ≡ view bursts d
  raise_peak-view bursts true m d = refl
  raise_peak-view bursts false m d = refl

module _ (fp : F64) where
  extend_run-view :
      (bursts : List (List ℤ)) (d : Detector fp.Float) (on : Bool)
      → after bursts (extend_run fp d on)
        ≡ turn (duration_of fp d.config.sample_rate) d.min_samples d.gap_samples (view bursts d) on
  unfolding extend_run finished_run
  extend_run-view bursts d on =
      let longer = record d { run_samples = add_u64 d.run_samples 1 } in
      let emitted = emit_run d (finished_run fp d) in
      after-if bursts (same on d.on) (longer, [])
        (record (emitted.0) { on = on; run_samples = 1 }, emitted.1) (view bursts longer) _
        (ap (λ l. view l longer) (append-nil bursts))
        (ap (λ (v : View). record v { on = on; len = 1 })
          (emit_run-view bursts d (finished_run fp d)))

  extend_run-fixed : (d : Detector fp.Float) (on : Bool) → fixed (extend_run fp d on).0 ≡ fixed d
  unfolding extend_run
  extend_run-fixed d on =
      if-elim (λ (x : Detector fp.Float × List Burst). fixed x.0 ≡ fixed d) (same on d.on) _ _
        (λ e. refl) (λ e. settled-fixed d d.pending (finished_run fp d))

  -- Slicing one sample changes the view as `hear` does.
  pub push_sample-view :
      (bursts : List (List ℤ)) (d : Detector fp.Float) (m threshold : ℕ)
      → after bursts (push_sample fp d m threshold)
        ≡ hear
            (duration_of fp d.config.sample_rate)
            d.min_samples
            d.gap_samples
            (view bursts d)
            (leb threshold m)
  unfolding push_sample
  push_sample-view bursts d m threshold =
      let on = leb threshold m in
      let duration = duration_of fp d.config.sample_rate in
      let extended = extend_run fp d on in
      let raised = raise_peak on m extended.0 in
      let ended = end_on_gap raised in
      let settings = raise_peak-fixed on m extended.0 ∙ extend_run-fixed d on in
      then-view bursts ended.0 extended.1 ended.1
      ∙ end_on_gap-view (bursts ++ timings_of extended.1) raised duration
      ∙ ap
          (λ (x : DetectorConfig fp.Float × (Option ℕ × (ℕ × (ℕ × ℕ)))).
            end_silence duration x.1.1.1.0 x.1.1.1.1
              (view (bursts ++ timings_of extended.1) raised))
          settings
      ∙ ap (end_silence duration d.min_samples d.gap_samples) (
          raise_peak-view (bursts ++ timings_of extended.1) on m extended.0
          ∙ extend_run-view bursts d on)

  pub push_sample-fixed :
      (d : Detector fp.Float) (m threshold : ℕ) → fixed (push_sample fp d m threshold).0 ≡ fixed d
  unfolding push_sample
  push_sample-fixed d m threshold =
      let on = leb threshold m in
      let extended = extend_run fp d on in
      end_on_gap-fixed (raise_peak on m extended.0)
      ∙ raise_peak-fixed on m extended.0
      ∙ extend_run-fixed d on
