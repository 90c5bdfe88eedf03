-- ===== src/Ook/Detector/Offline/Turning.antt =====
-- The phase that follows when a run has ended, on both paths of proxyd/src/ook.rs.
use hackrf_proxy.Base.{
  ℕ, suc, ◌+◌, ◌≤◌, ◌<◌, Bool, true, false, some, List, [], ◌∷◌, length, ◌≡◌, refl, sym, ap, ◌∙◌,
  subst, arith, ◌⊎◌, inl, inr, same, Bool-cases,
}
use hackrf_proxy.Base.Int.{ℤ, leb_ℤ, ◌+ℤ◌, wrap_i64, i64_max}
use hackrf_proxy.Ook.Runs.{Run, push_run, lengthen}
use hackrf_proxy.Ook.Bursts.Gathering.{space}
use hackrf_proxy.Ook.Detector.View.{View, settle}
use hackrf_proxy.Ook.Detector.Offline.{
  IsTimed, cut, Phase, fresh, waiting, flushed, resumed, slicer, viewer, Quiet, Holds,
}
use hackrf_proxy.Ook.Detector.Offline.Phases.{Follows, of_phase, turned, cut-change, turn-change}
use hackrf_proxy.Ook.Detector.Offline.Merging.{
  merges, push_run-merged, push_run-next, push_run-first, settle-merged, settle-next, longer_us,
  long-add, not_short, not_short_of_merges,
}
use hackrf_proxy.Ook.Detector.Offline.Gaps.{push_on-resumed, gather-gap, closes}

module _ (duration : ℕ → ℤ) (min_samples gap_samples : ℕ) (gap_us : ℤ) (min_edges : ℕ)
    (timed : IsTimed duration min_samples gap_samples gap_us) where
  abbrev pub Next : ℕ → Phase → Bool → Type 0
  Next n p on =
      Follows duration min_samples gap_samples gap_us min_edges timed (suc n) (suc gap_samples)
        (cut duration min_samples (slicer p) on)
        (turned duration min_samples gap_samples gap_us min_edges timed
          (of_phase duration min_samples gap_samples gap_us min_edges timed p) on)

  Quiet-first : (on : Bool) → Quiet (suc gap_samples) on 1
  Quiet-first true = tt
  Quiet-first false = omega (arith, timed.some_gap)

  change-fresh :
      (n : ℕ) (c on : Bool) (len : ℕ)
      → n < i64_max
      → Holds gap_us n gap_samples (fresh c len)
      → same on c ≡ false
      → Next n (fresh c len) on
  change-fresh n c on len m h e =
      let (y, us, most, some_us) = timed.lasts len in
      (
        waiting (record { on = c; us = duration len }) [] on 1,
        cut-change duration min_samples gap_samples gap_us min_edges timed (slicer (fresh c len)) on
              e
            ∙ ap (λ out. record { out = out; current_on = on; len = 1 })
                (push_run-first min_samples len c (duration len)),
        turn-change duration min_samples gap_samples gap_us min_edges timed
            (of_phase duration min_samples gap_samples gap_us min_edges timed (fresh c len)) on e,
        (omega (arith, h.0), (Quiet-first on, (y, us, omega (arith, h.0), inl refl))),
      )

  abbrev in_view : Phase → View
  in_view p = viewer gap_us min_edges p

  -- Both paths, where the run in progress ends.
  both :
      (p p' : Phase) (on : Bool)
      → same on (slicer p).current_on ≡ false
      → record {
        out =
            push_run min_samples
              (slicer p).out
              (slicer p).current_on
              (slicer p).len
              (duration (slicer p).len);
        current_on = on;
        len = 1;
      }
        ≡ slicer p'
      → same on (in_view p).on ≡ false
      → record (settle min_samples
          (in_view p)
          (in_view p).pending
          (record { on = (in_view p).on; us = duration (in_view p).len })) { on = on; len = 1 }
        ≡ in_view p'
      → (n : ℕ) → Holds gap_us (suc n) (suc gap_samples) p'
      → Next n p on
  both p p' on e s f v n h = (
    p',
    cut-change duration min_samples gap_samples gap_us min_edges timed (slicer p) on e ∙ s,
    turn-change duration min_samples gap_samples gap_us min_edges timed (in_view p) on f ∙ v,
    h,
  )

  change-waiting :
      (n : ℕ) (p : Run) (older : List Run) (c on : Bool) (len : ℕ)
      → n < i64_max
      → Holds gap_us n gap_samples (waiting p older c len)
      → same on c ≡ false
      → Next n (waiting p older c len) on
  change-waiting n p older c on len m h e =
      let (y, us, most, some_us) = timed.lasts len in
      let (x, head, sum, first) = h.1.1 in
      let run : Run = record { on = c; us = duration len } in
      let v = in_view (waiting p older c len) in
      elim (Bool-cases (merges min_samples len p c)) [
        | inl merged ↦
            let merged_us = longer_us p.us (duration len) x y head us (omega (arith, h.0)) in
            let later : (older ≡ []) ⊎ (1 ≤ x + y) = elim first [
              | inl o ↦ inl o
              | inr l ↦ inr (omega arith)
            ] in
            both (waiting p older c len) (waiting (lengthen p (duration len)) older on 1) on e
              (ap (λ out. record { out = out; current_on = on; len = 1 })
                (push_run-merged min_samples len p older c (duration len) merged))
              e
              (ap (λ (w : View). record w { on = on; len = 1 })
                (settle-merged min_samples v p run merged))
              n (omega (arith, h.0), (Quiet-first on, (x + y, merged_us, omega arith, later)))
        | inr next ↦
            let lasting =
              not_short len min_samples y (not_short_of_merges len min_samples p c next) some_us in
            both (waiting p older c len) (waiting run (p ∷ older) on 1) on e
              (ap (λ out. record { out = out; current_on = on; len = 1 })
                (push_run-next min_samples len p older c (duration len) next))
              e
              (ap (λ (w : View). record w { on = on; len = 1 })
                (settle-next min_samples v p run next))
              n (omega (arith, h.0), (Quiet-first on, (y, us, omega (arith, h.0), inr lasting)))
      ]

  module _ (some_edge : 1 ≤ min_edges) where
    change-resumed :
        (n : ℕ) (x u : ℤ) (older : List Run) (c on : Bool) (len : ℕ)
        → n < i64_max
        → Holds gap_us n gap_samples (resumed x u older c len)
        → same on c ≡ false
        → Next n (resumed x u older c len) on
    change-resumed n x u older c on len m h e =
        let (y, us, most, some_us) = timed.lasts len in
        let (z, at, some_z, sum) = h.1.1.1 in
        let run : Run = record { on = c; us = duration len } in
        let v = in_view (resumed x u older c len) in
        elim (Bool-cases (merges min_samples len (space x) c)) [
          | inl merged ↦
              let merged_us = longer_us x (duration len) z y at us (omega (arith, h.0)) in
              let x' = wrap_i64 (x +ℤ duration len) in
              let long : leb_ℤ gap_us x' ≡ true =
                subst (λ t. leb_ℤ gap_us t ≡ true) (sym merged_us)
                  (long-add gap_us z y (subst (λ t. leb_ℤ gap_us t ≡ true) at h.1.1.0)) in
              both (resumed x u older c len) (resumed x' (wrap_i64 (u +ℤ duration len)) older on 1)
                on e
                (ap (λ out. record { out = out; current_on = on; len = 1 })
                  (push_run-merged min_samples len (space x) older c (duration len) merged))
                e
                (ap (λ (w : View). record w { on = on; len = 1 })
                  (settle-merged min_samples v (space u) run merged))
                n
                (
                  omega (arith, h.0),
                  (Quiet-first on, (long, (z + y, merged_us, omega arith, omega arith))),
                )
          | inr next ↦
              let lasting =
                not_short len min_samples y (not_short_of_merges len min_samples (space x) c next)
                  some_us in
              both (resumed x u older c len) (waiting run (space x ∷ older) on 1) on e
                (ap (λ out. record { out = out; current_on = on; len = 1 })
                  (push_run-next min_samples len (space x) older c (duration len) next))
                e
                (ap (λ (w : View). record w { on = on; len = 1 })
                    (settle-next min_samples v (space u) run next)
                  ∙ ap (λ g. record { on = on; len = 1; pending = some run; gathered = g })
                      (push_on-resumed duration min_samples gap_samples gap_us min_edges timed
                          some_edge older u
                        ∙ sym (
                            gather-gap duration min_samples gap_samples gap_us min_edges timed
                              some_edge x older h.1.1.0)))
                n (omega (arith, h.0), (Quiet-first on, (y, us, omega (arith, h.0), inr lasting)))
        ]

    change-flushed :
        (n : ℕ) (out : List Run) (on : Bool) (len : ℕ)
        → n < i64_max
        → Holds gap_us n gap_samples (flushed out len)
        → length out ≤ 4096
        → same on false ≡ false
        → Next n (flushed out len) on
    change-flushed n out on len m h few e =
        let (x, y, older, ends, lets, long, at, some_us, most) =
          closes duration min_samples gap_samples gap_us min_edges timed some_edge n out len m h
            few in
        both (flushed out len) (resumed x (duration len) older on 1) on e
          (ap (λ l. record { out = l; current_on = on; len = 1 }) ends) e
          (ap
            (λ g. record { on = on; len = 1; pending = some (space (duration len)); gathered = g })
            lets)
          n (omega (arith, h.0), (Quiet-first on, (long, (y, at, some_us, omega arith))))

    -- The run in progress ends.
    pub change :
        (n : ℕ) (p : Phase) (on : Bool)
        → n < i64_max
        → Holds gap_us n gap_samples p
        → length (slicer p).out ≤ 4096
        → same on (slicer p).current_on ≡ false
        → Next n p on
    change n (fresh c len) on m h few e = change-fresh n c on len m h e
    change n (waiting p older c len) on m h few e = change-waiting n p older c on len m h e
    change n (flushed out len) on m h few e = change-flushed n out on len m h few e
    change n (resumed x u older c len) on m h few e = change-resumed n x u older c on len m h e
