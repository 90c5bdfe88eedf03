-- ===== src/Ook/Detector/Offline/Silence.antt =====
-- A silence that reaches the gap, in `push_sample` of proxyd/src/ook.rs, and a whole signal on both
-- paths.
use hackrf_proxy.Base.{
  ℕ, suc, ◌+◌, ◌≤◌, ◌<◌, Bool, true, false, none, List, [], ◌∷◌, length, ◌≡◌, refl, sym, ap, ◌∙◌,
  subst, arith, inl, inr, ◌==◌, same, if-elim, Bool-cases,
}
use hackrf_proxy.Base.Int.{ℤ, i64_max}
use hackrf_proxy.Ook.Runs.{Run, Slicer, push_run}
use hackrf_proxy.Ook.Bursts.Gathering.{gather, finish_on, push_on, space}
use hackrf_proxy.Ook.Detector.View.{View, let_go, turn, end_silence, hear, hear_all}
use hackrf_proxy.Ook.Detector.Offline.{
  IsTimed, cut, cut_all, Phase, fresh, waiting, flushed, resumed, slicer, viewer, Holds,
}
use hackrf_proxy.Ook.Detector.Offline.Phases.{Follows, longer}
use hackrf_proxy.Ook.Detector.Offline.Turning.{change}
use hackrf_proxy.Ook.Detector.Offline.Gaps.{push_on-resumed, gather-gap}

-- The runs that are cut off are never fewer.
pub push_run-grows :
    (min_samples : ℕ) (out : List Run) (on : Bool) (len : ℕ) (us : ℤ)
    → length out ≤ length (push_run min_samples out on len us)
unfolding push_run
push_run-grows min_samples [] on len us = omega arith
push_run-grows min_samples (p ∷ out) on len us = ground arith

module _ (duration : ℕ → ℤ) (min_samples gap_samples : ℕ) (gap_us : ℤ) (min_edges : ℕ)
    (timed : IsTimed duration min_samples gap_samples gap_us) (some_edge : 1 ≤ min_edges) where
  abbrev view_of : Phase → View
  view_of p = viewer gap_us min_edges p

  abbrev ended : View → View
  ended v = end_silence duration min_samples gap_samples v

  -- Silence that has not reached the gap, or that has.
  ended-not : (v : View) → v.on ≡ false → (v.len == gap_samples) ≡ false → ended v ≡ v
  ended-not v off e = ground arith

  ended-now :
      (v : View) → v.on ≡ false → (v.len == gap_samples) ≡ true → ended v ≡ let_go v v.pending
  ended-now v off e = ground arith

  ended-on : (v : View) → v.on ≡ true → ended v ≡ v
  ended-on v on = ground arith

  abbrev Settled : ℕ → Phase → Type 0
  Settled n p =
      (p' : Phase) × (slicer p ≡ slicer p')
      × (ended (view_of p) ≡ view_of p')
      × Holds gap_us n gap_samples p'

  below : (len : ℕ) → len < suc gap_samples → (len == gap_samples) ≡ false → len < gap_samples
  below len h e = ground arith

  reached : (len : ℕ) → (len == gap_samples) ≡ true → gap_samples ≤ len
  reached len e = ground arith

  passed : (len : ℕ) → suc gap_samples ≤ len → (len == gap_samples) ≡ false
  passed len h = ground arith

  Settled-fresh :
      (n : ℕ) (c : Bool) (len : ℕ)
      → Holds gap_us n (suc gap_samples) (fresh c len)
      → Settled n (fresh c len)
  Settled-fresh n true len h = (fresh true len, refl, ended-on (view_of (fresh true len)) refl, h)
  Settled-fresh n false len h =
      let v = view_of (fresh false len) in
      elim (Bool-cases (len == gap_samples)) [
        | inl e ↦ (flushed [] len, refl, ended-now v refl e, (h.0, (reached len e, tt)))
        | inr e ↦ (fresh false len, refl, ended-not v refl e, (h.0, below len h.1 e))
      ]

  Settled-waiting :
      (n : ℕ) (p : Run) (older : List Run) (c : Bool) (len : ℕ)
      → Holds gap_us n (suc gap_samples) (waiting p older c len)
      → Settled n (waiting p older c len)
  Settled-waiting n p older true len h =
      (waiting p older true len, refl, ended-on (view_of (waiting p older true len)) refl, h)
  Settled-waiting n p older false len h =
      let v = view_of (waiting p older false len) in
      elim (Bool-cases (len == gap_samples)) [
        | inl e ↦ (flushed (p ∷ older) len, refl, ended-now v refl e, (h.0, (reached len e, h.1.1)))
        | inr e ↦
            (waiting p older false len, refl, ended-not v refl e, (h.0, (below len h.1.0 e, h.1.1)))
      ]

  Settled-resumed :
      (n : ℕ) (x u : ℤ) (older : List Run) (c : Bool) (len : ℕ)
      → Holds gap_us n (suc gap_samples) (resumed x u older c len)
      → Settled n (resumed x u older c len)
  Settled-resumed n x u older true len h =
      (resumed x u older true len, refl, ended-on (view_of (resumed x u older true len)) refl, h)
  Settled-resumed n x u older false len h =
      let v = view_of (resumed x u older false len) in
      let (y, at, some_us, sum) = h.1.1.1 in
      let lets : finish_on (push_on (finish_on (gather gap_us min_edges older)) (space u))
          ≡ finish_on (gather gap_us min_edges (space x ∷ older)) =
        ap finish_on (
          push_on-resumed duration min_samples gap_samples gap_us min_edges timed some_edge older u
          ∙ sym (
              gather-gap duration min_samples gap_samples gap_us min_edges timed some_edge x older
                h.1.1.0)) in
      elim (Bool-cases (len == gap_samples)) [
        | inl e ↦ (
          flushed (space x ∷ older) len,
          refl,
          ended-now v refl e
              ∙ ap (λ g. record { on = false; len = len; pending = none; gathered = g }) lets,
          (h.0, (reached len e, (y, at, sum, inr some_us))),
        )
        | inr e ↦ (
          resumed x u older false len,
          refl,
          ended-not v refl e,
          (h.0, (below len h.1.0 e, h.1.1)),
        )
      ]

  settled : (n : ℕ) (p : Phase) → Holds gap_us n (suc gap_samples) p → Settled n p
  settled n (fresh c len) h = Settled-fresh n c len h
  settled n (waiting p older c len) h = Settled-waiting n p older c len h
  settled n (flushed out len) h = (
    flushed out len,
    refl,
    ended-not (view_of (flushed out len)) refl (passed len h.1.0),
    (h.0, (omega (arith, h.1.0), h.1.1)),
  )
  settled n (resumed x u older c len) h = Settled-resumed n x u older c len h

  -- A sample takes both paths to the same next phase.
  step_phase :
      (n : ℕ) (p : Phase) (on : Bool)
      → n < i64_max
      → Holds gap_us n gap_samples p
      → length (slicer p).out ≤ 4096
      → (p' : Phase) × (cut duration min_samples (slicer p) on ≡ slicer p')
        × (hear duration min_samples gap_samples (view_of p) on ≡ view_of p')
        × Holds gap_us (suc n) gap_samples p'
  step_phase n p on m h few =
      let turned : Follows duration min_samples gap_samples gap_us min_edges timed (suc n)
          (suc gap_samples) (cut duration min_samples (slicer p) on)
          (turn duration min_samples gap_samples (view_of p) on) =
        elim (Bool-cases (same on (slicer p).current_on)) [
          | inl e ↦ longer duration min_samples gap_samples gap_us min_edges timed n p on m h e
          | inr e ↦
              change duration min_samples gap_samples gap_us min_edges timed some_edge n p on m h
                few e
        ] in
      let (p₁, s₁, v₁, h₁) = turned in
      let (p₂, s₂, v₂, h₂) = settled (suc n) p₁ h₁ in (p₂, s₁ ∙ s₂, ap ended v₁ ∙ v₂, h₂)

  cut-grows : (s : Slicer) (on : Bool) → length s.out ≤ length (cut duration min_samples s on).out
  cut-grows s on =
      if-elim (λ (t : Slicer). length s.out ≤ length t.out) (same on s.current_on) _ _
        (λ e. omega arith)
        (λ e. push_run-grows min_samples s.out s.current_on s.len (duration s.len))

  pub cut_all-grows :
      (s : Slicer) (rest : List Bool)
      → length s.out ≤ length (cut_all duration min_samples s rest).out
  cut_all-grows s [] = omega arith
  cut_all-grows s (on ∷ rest) =
      omega (arith, cut-grows s on, cut_all-grows (cut duration min_samples s on) rest)

  -- A signal takes both paths from phase to phase, if at most 4096 runs are cut off.
  pub all_phases :
      (n : ℕ) (p : Phase) (sides : List Bool)
      → n + length sides ≤ i64_max
      → Holds gap_us n gap_samples p
      → length (cut_all duration min_samples (slicer p) sides).out ≤ 4096
      → (p' : Phase) × (cut_all duration min_samples (slicer p) sides ≡ slicer p')
        × (hear_all duration min_samples gap_samples (view_of p) sides ≡ view_of p')
        × Holds gap_us (n + length sides) gap_samples p'
  all_phases n p [] m h few =
      (p, refl, refl, subst (λ k. Holds gap_us k gap_samples p) (omega arith) h)
  all_phases n p (on ∷ rest) m h few =
      let next = cut duration min_samples (slicer p) on in
      let few_now : length (slicer p).out ≤ 4096 =
        omega (arith, few, cut-grows (slicer p) on, cut_all-grows next rest) in
      let (p₁, s₁, v₁, h₁) = step_phase n p on (omega arith) h few_now in
      let (p₂, s₂, v₂, h₂) =
        all_phases (suc n) p₁ rest (omega arith) h₁
          (subst (λ s. length (cut_all duration min_samples s rest).out ≤ 4096) s₁ few) in
      (
        p₂,
        ap (λ s. cut_all duration min_samples s rest) s₁ ∙ s₂,
        ap (λ v. hear_all duration min_samples gap_samples v rest) v₁ ∙ v₂,
        subst (λ k. Holds gap_us k gap_samples p₂) (omega arith) h₂,
      )
