-- ===== src/Ook/Detector/Offline/Phases.antt =====
-- A sample takes both paths of proxyd/src/ook.rs from phase to phase.
use hackrf_proxy.Base.{
  ℕ, suc, ◌<◌, Bool, true, false, List, [], ◌∷◌, ◌≡◌, ap, ◌∙◌, arith, same, if◌then◌else◌,
}
use hackrf_proxy.Base.Words.{add_u64}
use hackrf_proxy.Base.Int.{ℤ, i64_max}
use hackrf_proxy.Ook.Runs.{Run, Slicer, push_run}
use hackrf_proxy.Ook.Detector.View.{View, settle, turn}
use hackrf_proxy.Ook.Detector.Offline.{
  IsTimed, cut, Phase, fresh, waiting, flushed, resumed, slicer, viewer, Head, HeadOf, Quiet, Holds,
}

module _ (duration : ℕ → ℤ) (min_samples gap_samples : ℕ) (gap_us : ℤ) (min_edges : ℕ)
    (timed : IsTimed duration min_samples gap_samples gap_us) where
  abbrev pub of_phase : Phase → View
  of_phase p = viewer gap_us min_edges p

  abbrev pub turned : View → Bool → View
  turned v on = turn duration min_samples gap_samples v on

  -- The phase that follows.
  abbrev pub Follows : ℕ → ℕ → Slicer → View → Type 0
  Follows n k s v = (p : Phase) × (s ≡ slicer p) × (v ≡ of_phase p) × Holds gap_us n k p

  -- Whether the run in progress goes on or not.
  cut-longer :
      (s : Slicer) (on : Bool)
      → same on s.current_on ≡ true
      → s.len < i64_max
      → cut duration min_samples s on ≡ record s { len = suc s.len }
  cut-longer s on e h =
      let count : add_u64 s.len 1 ≡ suc s.len = omega arith in
      ap
        (λ b. if b then record s { len = add_u64 s.len 1 } else record {
          out = push_run min_samples s.out s.current_on s.len (duration s.len);
          current_on = on;
          len = 1;
        })
        e
      ∙ ap (λ l. record s { len = l }) count

  turn-longer :
      (v : View) (on : Bool)
      → same on v.on ≡ true
      → v.len < i64_max
      → turned v on ≡ record v { len = suc v.len }
  turn-longer v on e h =
      let count : add_u64 v.len 1 ≡ suc v.len = omega arith in
      ap
        (λ b.
          if b
          then record v { len = add_u64 v.len 1 }
          else record (settle min_samples v v.pending (record { on = v.on; us = duration v.len })) {
            on = on;
            len = 1;
          })
        e
      ∙ ap (λ l. record v { len = l }) count

  pub cut-change :
      (s : Slicer) (on : Bool)
      → same on s.current_on ≡ false
      → cut duration min_samples s on ≡ record {
        out = push_run min_samples s.out s.current_on s.len (duration s.len);
        current_on = on;
        len = 1;
      }
  cut-change s on e =
      ap
        (λ b. if b then record s { len = add_u64 s.len 1 } else record {
          out = push_run min_samples s.out s.current_on s.len (duration s.len);
          current_on = on;
          len = 1;
        })
        e

  pub turn-change :
      (v : View) (on : Bool)
      → same on v.on ≡ false
      → turned v on
        ≡ record (settle min_samples v v.pending (record { on = v.on; us = duration v.len })) {
          on = on;
          len = 1;
        }
  turn-change v on e =
      ap
        (λ b.
          if b
          then record v { len = add_u64 v.len 1 }
          else record (settle min_samples v v.pending (record { on = v.on; us = duration v.len })) {
            on = on;
            len = 1;
          })
        e

  Quiet-longer :
      (c : Bool) (len : ℕ) → Quiet gap_samples c len → Quiet (suc gap_samples) c (suc len)
  Quiet-longer true len q = tt
  Quiet-longer false len q = omega arith

  Head-longer :
      (n len : ℕ) (p : Run) (older : List Run) → Head n len p older → Head (suc n) (suc len) p older
  Head-longer n len p older (x, e, b, l) = (x, e, omega arith, l)

  HeadOf-longer : (n len : ℕ) (out : List Run) → HeadOf n len out → HeadOf (suc n) (suc len) out
  HeadOf-longer n len [] h = tt
  HeadOf-longer n len (p ∷ older) h = Head-longer n len p older h

  pub longer :
      (n : ℕ) (p : Phase) (on : Bool)
      → n < i64_max
      → Holds gap_us n gap_samples p
      → same on (slicer p).current_on ≡ true
      → Follows
          (suc n)
          (suc gap_samples)
          (cut duration min_samples (slicer p) on)
          (turned (of_phase p) on)
  longer n (fresh c len) on m h e = (
    fresh c (suc len),
    cut-longer (slicer (fresh c len)) on e (omega (arith, h.0)),
    turn-longer (of_phase (fresh c len)) on e (omega (arith, h.0)),
    (omega (arith, h.0), Quiet-longer c len h.1),
  )
  longer n (waiting p older c len) on m h e = (
    waiting p older c (suc len),
    cut-longer (slicer (waiting p older c len)) on e (omega (arith, h.0)),
    turn-longer (of_phase (waiting p older c len)) on e (omega (arith, h.0)),
    (omega (arith, h.0), (Quiet-longer c len h.1.0, Head-longer n len p older h.1.1)),
  )
  longer n (flushed out len) on m h e = (
    flushed out (suc len),
    cut-longer (slicer (flushed out len)) on e (omega (arith, h.0)),
    turn-longer (of_phase (flushed out len)) on e (omega (arith, h.0)),
    (omega (arith, h.0), (omega (arith, h.1.0), HeadOf-longer n len out h.1.1)),
  )
  longer n (resumed x u older c len) on m h e =
      let (y, us, some_us, sum) = h.1.1.1 in
      (
        resumed x u older c (suc len),
        cut-longer (slicer (resumed x u older c len)) on e (omega (arith, h.0)),
        turn-longer (of_phase (resumed x u older c len)) on e (omega (arith, h.0)),
        (
          omega (arith, h.0),
          (Quiet-longer c len h.1.0, (h.1.1.0, (y, us, some_us, omega (arith, sum)))),
        ),
      )
