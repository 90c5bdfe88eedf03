-- ===== src/Ook/Detector/Offline/Refinement.antt =====
-- The streaming path of proxyd/src/ook.rs against its offline path, `runs` with `split_bursts`.
use hackrf_proxy.Base.{
  ℕ, ◌≤◌, ◌<◌, Bool, true, false, List, ◌∷◌, ◌++◌, length, length-append, length-reverse, reverse,
  ◌≡◌, sym, ap, ◌∙◌, subst, arith,
}
use hackrf_proxy.Base.Int.{ℤ, i64_max}
use hackrf_proxy.Ook.Bursts.{split_bursts}
use hackrf_proxy.Ook.Bursts.Gathering.{finish_on, space, split_bursts-gather}
use hackrf_proxy.Ook.Detector.View.{View, hear_all}
use hackrf_proxy.Ook.Detector.Offline.{
  IsTimed, cut_all, closed, Phase, fresh, waiting, flushed, resumed, slicer, viewer, Holds,
}
use hackrf_proxy.Ook.Detector.Offline.Gaps.{closes, gather-gap, finish_on-resumed}
use hackrf_proxy.Ook.Detector.Offline.Silence.{push_run-grows, cut_all-grows, all_phases}
use hackrf_proxy.Ook.Detector.Offline.Ending.{cut_all-append, AllOff, IsSilent, ends-IsSilent}

module _ (duration : ℕ → ℤ) (min_samples gap_samples : ℕ) (gap_us : ℤ) (min_edges : ℕ)
    (timed : IsTimed duration min_samples gap_samples gap_us) (some_edge : 1 ≤ min_edges) where
  -- After a silence that has reached the gap, the detector has let go what the runs amount to.
  let_go_all :
      (n : ℕ) (p : Phase)
      → n < i64_max
      → Holds gap_us n gap_samples p
      → length (slicer p).out ≤ 4096
      → IsSilent gap_samples (slicer p)
      → (viewer gap_us min_edges p).gathered.1
        ≡ split_bursts (reverse (closed duration min_samples (slicer p))) gap_us min_edges
  let_go_all n (fresh true len) small h few silent = (let off = silent.0 in ground arith)
  let_go_all n (fresh false len) small h few silent = absurd (omega (arith, silent.1, h.1))
  let_go_all n (waiting p older true len) small h few silent = (let off = silent.0 in ground arith)
  let_go_all n (waiting p older false len) small h few silent =
      absurd (omega (arith, silent.1, h.1.0))
  let_go_all n (flushed out len) small h few silent =
      let (x, y, older, ends, lets, long, at, some_us, most) =
        closes duration min_samples gap_samples gap_us min_edges timed some_edge n out len small h
          few in
      ap (λ g. g.1)
        (lets
          ∙ sym (
              finish_on-resumed duration min_samples gap_samples gap_us min_edges timed some_edge
                older)
          ∙ ap finish_on (
              sym (
                gather-gap duration min_samples gap_samples gap_us min_edges timed some_edge x older
                  long)))
      ∙ sym (split_bursts-gather gap_us min_edges (space x ∷ older))
      ∙ ap (λ l. split_bursts (reverse l) gap_us min_edges) (sym ends)
  let_go_all n (resumed x u older true len) small h few silent =
      (let off = silent.0 in ground arith)
  let_go_all n (resumed x u older false len) small h few silent =
      absurd (omega (arith, silent.1, h.1.0))

  abbrev start : Phase
  start = fresh false 0

  from_start :
      (signal : List Bool)
      → length signal ≤ i64_max
      → length (cut_all duration min_samples (slicer start) signal).out ≤ 4096
      → (p : Phase) × (cut_all duration min_samples (slicer start) signal ≡ slicer p)
        × (hear_all duration min_samples gap_samples (viewer gap_us min_edges start) signal
            ≡ viewer gap_us min_edges p)
        × Holds gap_us (length signal) gap_samples p
  from_start signal small few =
      let (p, s, v, h) =
        all_phases duration min_samples gap_samples gap_us min_edges timed some_edge 0 start signal
          (omega arith) (omega arith, omega (arith, timed.some_gap)) few in
      (p, s, v, subst (λ n. Holds gap_us n gap_samples p) (omega arith) h)

  in_progress : (n : ℕ) (p : Phase) → Holds gap_us n gap_samples p → (slicer p).len ≤ n
  in_progress n (fresh c len) h = h.0
  in_progress n (waiting p older c len) h = h.0
  in_progress n (flushed out len) h = h.0
  in_progress n (resumed x u older c len) h = h.0

  -- A signal that starts below the threshold and ends with a silence as long as the gap.
  pub hear_all-split_bursts :
      (signal quiet : List Bool)
      → AllOff quiet
      → gap_samples ≤ length quiet
      → length (signal ++ quiet) < i64_max
      → let runs = reverse (
          closed duration min_samples
            (cut_all duration min_samples (slicer start) (signal ++ quiet))) in
        length runs ≤ 4096
        → (hear_all duration min_samples gap_samples
            (viewer gap_us min_edges start)
            (signal ++ quiet)).gathered.1
          ≡ split_bursts runs gap_us min_edges
  hear_all-split_bursts signal quiet off long small few =
      let whole = cut_all duration min_samples (slicer start) (signal ++ quiet) in
      let total = length-append signal quiet in
      let few_out : length whole.out ≤ 4096 =
        let grows =
          push_run-grows min_samples whole.out whole.current_on whole.len (duration whole.len) in
        omega (arith, few, grows, length-reverse (closed duration min_samples whole)) in
      let fewer : length (cut_all duration min_samples (slicer start) signal).out
          ≤ length whole.out =
        subst (λ t. length (cut_all duration min_samples (slicer start) signal).out ≤ length t.out)
          (sym (cut_all-append duration min_samples (slicer start) signal quiet))
          (cut_all-grows duration min_samples gap_samples gap_us min_edges timed some_edge
            (cut_all duration min_samples (slicer start) signal) quiet) in
      let (p, s, v, h) = from_start (signal ++ quiet) (omega arith) few_out in
      let silent : IsSilent gap_samples (slicer p) =
        let (q, upto, heard, held) =
          from_start signal (omega (arith, total)) (omega (arith, few_out, fewer)) in
        let room = in_progress (length signal) q held in
        subst (IsSilent gap_samples)
          (ap (λ t. cut_all duration min_samples t quiet) (sym upto)
            ∙ sym (cut_all-append duration min_samples (slicer start) signal quiet)
            ∙ s)
          (ends-IsSilent duration min_samples gap_samples (slicer q) quiet off timed.some_gap long
            (omega arith)) in
      ap (λ (w : View). w.gathered.1) v
      ∙ let_go_all (length (signal ++ quiet)) p small h (subst (λ t. length t.out ≤ 4096) s few_out)
          silent
      ∙ ap (λ t. split_bursts (reverse (closed duration min_samples t)) gap_us min_edges) (sym s)
