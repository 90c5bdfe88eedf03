-- ===== src/Ook/Detector/Bounds.antt =====
-- How large the bursts of `Detector` in proxyd/src/ook.rs, and what it holds of one, may grow.
use hackrf_proxy.Base.{
  length-reverse_aux, ℕ, ◌≤◌, Bool, true, false, Option, none, some, List, [], ◌∷◌, ◌++◌, ◌≡◌, refl,
  subst, arith, length, reverse, leb, ltb, leb→le, if◌then◌else◌, if-elim, option-elim, All,
  All-append, not, ◌&&◌, same, ◌||◌, ◌==◌,
}
use hackrf_proxy.Base.Words.{add_u64}
use hackrf_proxy.Base.Int.{ℤ, leb_ℤ}
use hackrf_proxy.Base.Floats.{F64}
use hackrf_proxy.Ook.Envelope.{samples, magnitude}
use hackrf_proxy.Ook.Histogram.{add_magnitude}
use hackrf_proxy.Ook.Runs.{Run, lengthen}
use hackrf_proxy.Ook.Bursts
use hackrf_proxy.Ook.Bursts.{BurstAccumulator, is_active, drop_spaces, finish, append_edge, timing}
use hackrf_proxy.Ook.Bursts.Edges.{length-drop_spaces}
use hackrf_proxy.Ook.Detector.{
  Burst, DetectorConfig, Detector, take_burst, accumulate, finish_burst, emit_run, flush_pending,
  end_on_gap, raise_peak, new, finished_run, extend_run, push_sample, retune, slice, retune_if_due,
  step, push_samples, push,
}

module _ (lo hi : ℕ) where
  -- An accumulator with these bounds, within them.
  pub record Holds (a : BurstAccumulator) : Type 0 where
    pub least : a.min_edges ≡ lo
    pub most : a.max_edges ≡ hi
    pub within : length a.current ≤ hi

  abbrev pub Sized : List ℤ → Type 0
  Sized ts = (lo ≤ length ts) × (length ts ≤ hi)

  abbrev SizedIf : Option (List ℤ) → Type 0
  SizedIf none = Unit
  SizedIf (some ts) = Sized ts

  abbrev Sound : BurstAccumulator × Option (List ℤ) → Type 0
  Sound (a, burst) = Holds a × SizedIf burst

  finish-Sound : (a : BurstAccumulator) → Holds a → Sound (finish a)
  unfolding finish
  finish-Sound a h =
      let edges = drop_spaces a.current in
      (
        record { least = h.least; most = h.most; within = omega arith },
        if-elim SizedIf (leb a.min_edges (length edges)) (some (reverse edges)) none
            (λ e. (
              omega (
                arith,
                leb→le a.min_edges (length edges) e,
                h.least,
                length-reverse_aux edges [],
              ),
              omega (arith, h.within, length-drop_spaces a.current, length-reverse_aux edges []),
            ))
            (λ e. tt),
      )

  append_edge-Holds : (a : BurstAccumulator) (t : ℤ) → Holds a → Holds (append_edge a t)
  unfolding append_edge
  append_edge-Holds a t h =
      if-elim Holds (ltb a.max_edges (length (t ∷ a.current)))
        (record a { current = []; overflows = add_u64 a.overflows 1 })
        (record a { current = t ∷ a.current })
        (λ e. record { least = h.least; most = h.most; within = omega arith })
        (λ e. record {
          least = h.least;
          most = h.most;
          within = subst (λ m. length (t ∷ a.current) ≤ m) h.most (ground arith);
        })

  push-Sound : (a : BurstAccumulator) (run : Run) → Holds a → Sound (Bursts.push a run)
  unfolding Bursts.push
  push-Sound a run h =
      if-elim Sound (not run.on && leb_ℤ a.gap_us run.us) (finish a)
        (if not (is_active a.current) && not run.on
          then (a, none)
          else (append_edge a (timing run), none))
        (λ e. finish-Sound a h)
        (λ e.
          if-elim Sound (not (is_active a.current) && not run.on) (a, none)
            (append_edge a (timing run), none) (λ s. (h, tt))
            (λ s. (append_edge-Holds a (timing run) h, tt)))

  module _ {F : Type 0} where
    abbrev Fit : Detector F × List Burst → Type 0
    Fit (d, bursts) = Holds d.accumulator × All (λ b. Sized b.timings) bursts

    take_burst-Fit :
        (d : Detector F) (burst : Option (List ℤ))
        → Holds d.accumulator
        → SizedIf burst
        → Fit (take_burst d burst)
    unfolding take_burst
    take_burst-Fit d none h s = (h, tt)
    take_burst-Fit d (some ts) h s = (h, (s, tt))

    accumulate-Fit : (d : Detector F) (run : Run) → Holds d.accumulator → Fit (accumulate d run)
    unfolding accumulate
    accumulate-Fit d run h =
        let (a, burst) = Bursts.push d.accumulator run in
        let s = push-Sound d.accumulator run h in
        take_burst-Fit (record d { accumulator = a }) burst s.0 s.1

    finish_burst-Fit : (d : Detector F) → Holds d.accumulator → Fit (finish_burst d)
    unfolding finish_burst
    finish_burst-Fit d h =
        let (a, burst) = finish d.accumulator in
        let s = finish-Sound d.accumulator h in
        take_burst-Fit (record d { accumulator = a }) burst s.0 s.1

    flush_pending-Fit : (d : Detector F) → Holds d.accumulator → Fit (flush_pending d)
    unfolding flush_pending
    flush_pending-Fit d h =
        option-elim Fit d.pending (d, []) (λ run. accumulate (record d { pending = none }) run)
          (h, tt) (λ run. accumulate-Fit (record d { pending = none }) run h)

    emit_run-Fit : (d : Detector F) (run : Run) → Holds d.accumulator → Fit (emit_run d run)
    unfolding emit_run
    emit_run-Fit d run h =
        option-elim Fit d.pending (record d { pending = some run }, [])
          (λ previous.
            if ltb d.run_samples d.min_samples || same previous.on run.on
            then (record d { pending = some (lengthen previous run.us) }, [])
            else accumulate (record d { pending = some run }) previous)
          (h, tt)
          (λ previous.
            if-elim Fit (ltb d.run_samples d.min_samples || same previous.on run.on)
              (record d { pending = some (lengthen previous run.us) }, [])
              (accumulate (record d { pending = some run }) previous) (λ e. (h, tt))
              (λ e. accumulate-Fit (record d { pending = some run }) previous h))

    end_on_gap-Fit : (d : Detector F) → Holds d.accumulator → Fit (end_on_gap d)
    unfolding end_on_gap
    end_on_gap-Fit d h =
        let flushed = flush_pending-Fit d h in
        let d' = (flush_pending d).0 in
        let ended = finish_burst-Fit d' flushed.0 in
        if-elim Fit (not d.on && (d.run_samples == d.gap_samples))
          ((finish_burst d').0, (flush_pending d).1 ++ (finish_burst d').1) (d, [])
          (λ e. (
            ended.0,
            All-append (λ b. Sized b.timings) (flush_pending d).1 (finish_burst d').1 flushed.1
                ended.1,
          ))
          (λ e. (h, tt))

    raise_peak-Holds :
        (on : Bool) (m : ℕ) (d : Detector F)
        → Holds d.accumulator
        → Holds (raise_peak on m d).accumulator
    raise_peak-Holds true m d h = h
    raise_peak-Holds false m d h = h

  module _ (fp : F64) where
    open fp use {Float}

    -- The bursts of two parts, one after the other.
    joined-Fit :
        (d : Detector Float) (first rest : List Burst)
        → All (λ b. Sized b.timings) first
        → Fit (d, rest)
        → Fit (d, first ++ rest)
    joined-Fit d first rest h k = (k.0, All-append (λ b. Sized b.timings) first rest h k.1)

    extend_run-Fit :
        (d : Detector Float) (on : Bool) → Holds d.accumulator → Fit (extend_run fp d on)
    unfolding extend_run
    extend_run-Fit d on h =
        let emitted = emit_run d (finished_run fp d) in
        let fit = emit_run-Fit d (finished_run fp d) h in
        if-elim Fit (same on d.on) (record d { run_samples = add_u64 d.run_samples 1 }, [])
          (record (emitted.0) { on = on; run_samples = 1 }, emitted.1) (λ e. (h, tt))
          (λ e. (fit.0, fit.1))

    push_sample-Fit :
        (d : Detector Float) (m t : ℕ) → Holds d.accumulator → Fit (push_sample fp d m t)
    unfolding push_sample
    push_sample-Fit d m t h =
        let on = leb t m in
        let (d', first) = extend_run fp d on in
        let fit = extend_run-Fit d on h in
        let (d'', second) = end_on_gap (raise_peak on m d') in
        joined-Fit d'' first second fit.1
          (end_on_gap-Fit (raise_peak on m d') (raise_peak-Holds on m d' fit.0))

    slice-Fit : (d : Detector Float) (m : ℕ) → Holds d.accumulator → Fit (slice fp d m)
    unfolding slice
    slice-Fit d m h =
        option-elim Fit d.threshold (d, []) (λ t. push_sample fp d m t) (h, tt)
          (λ t. push_sample-Fit d m t h)

    step-Fit : (d : Detector Float) (x : ℕ × ℕ) → Holds d.accumulator → Fit (step fp d x)
    unfolding step retune_if_due retune
    step-Fit d x h =
        let m = magnitude x in
        let measured = record d {
          histogram = add_magnitude d.histogram m;
          window_seen = add_u64 d.window_seen 1;
        } in
        let (d', bursts) = slice fp measured m in
        let fit = slice-Fit measured m h in
        (
          if-elim (λ (e : Detector Float). Holds e.accumulator)
              (leb d'.config.window_samples d'.window_seen) (retune fp d') d' (λ e. fit.0)
              (λ e. fit.0),
          fit.1,
        )

    push_samples-Fit :
        (d : Detector Float) (xs : List (ℕ × ℕ)) → Holds d.accumulator → Fit (push_samples fp d xs)
    unfolding push_samples
    push_samples-Fit d [] h = (h, tt)
    push_samples-Fit d (x ∷ xs) h =
        let (d', first) = step fp d x in
        let fit = step-Fit d x h in
        let (d'', rest) = push_samples fp d' xs in
        joined-Fit d'' first rest fit.1 (push_samples-Fit d' xs fit.0)

-- Whatever a fresh detector is given, every burst it returns has at least the configured number of
-- edges and at most 4096, and it never holds more than 4096 edges of a burst in progress.
pub push-bounds :
    (fp : F64) (config : DetectorConfig fp.Float) (iq : List ℕ)
    → let (d, bursts) = push fp (new fp config) iq in
      (length d.accumulator.current ≤ 4096)
      × All (λ b. (config.min_edges ≤ length b.timings) × (length b.timings ≤ 4096)) bursts
unfolding push new Bursts.new
push-bounds fp config iq =
    let fit =
      push_samples-Fit config.min_edges 4096 fp (new fp config) (samples iq)
        (record { least = refl; most = refl; within = omega arith }) in
    (fit.0.within, fit.1)
