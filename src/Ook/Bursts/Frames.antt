-- ===== src/Ook/Bursts/Frames.antt =====
-- What `split_bursts` and `BurstAccumulator` of proxyd/src/ook.rs promise of a burst.
use hackrf_proxy.Base.{
  ℕ, suc, ◌≤◌, ◌<◌, Bool, true, false, Option, none, some, List, [], ◌∷◌, ◌&&◌, not, ltb, leb,
  if◌then◌else◌, length, All, ◌≡◌, refl, sym, arith, Bool-cases, inl, inr, leb→le, ◌∙◌, subst, ap,
  if-elim,
}
use hackrf_proxy.Base.Words.{add_u64}
use hackrf_proxy.Base.Int.{ℤ, pos, negsuc, leb_ℤ, i64_max, wrap_i64-eq_of_InI64}
use hackrf_proxy.Ook.Runs.{Run}
use hackrf_proxy.Ook.Bursts.{
  new, BurstAccumulator, is_active, drop_spaces, finish, timing, append_edge, push, push_all,
  split_bursts, emit,
}
use hackrf_proxy.Ook.Bursts.Edges.{
  is_mark, IsInside, IsFrame, IsPositive, IsGathered, reversed-IsFrame, drop_spaces-first,
  drop_spaces-last, length-drop_spaces, drop_spaces-All, length-drop_spaces-inactive,
}

-- What an accumulator may return.
abbrev pub IsFrameIf : BurstAccumulator → Option (List ℤ) → Type 0
IsFrameIf a none = Unit
IsFrameIf a (some ts) = IsFrame a.gap_us a.min_edges a.max_edges ts

abbrev pub IsReady : BurstAccumulator → Type 0
IsReady a = IsGathered a.gap_us a.max_edges a.current

finish-IsFrame : (a : BurstAccumulator) → 1 ≤ a.min_edges → IsReady a → IsFrameIf a (finish a).1
unfolding finish
finish-IsFrame a h g =
    let long = leb→le a.min_edges (length (drop_spaces a.current)) in
    elim (Bool-cases (is_active a.current)) [
      | inl e ↦
          let frame =
            reversed-IsFrame a.gap_us a.min_edges a.max_edges (drop_spaces a.current)
              (drop_spaces-first a.current (sym g.oldest ∙ e))
              (drop_spaces-last a.current (sym g.oldest ∙ e))
              (omega (arith, length-drop_spaces a.current, g.bounded))
              (drop_spaces-All (IsInside a.gap_us) a.current g.kept) in
          elim (Bool-cases (leb a.min_edges (length (drop_spaces a.current)))) [
            | inl l ↦ let f = frame (long l) in ground arith
            | inr l ↦ ground arith
          ]
      | inr e ↦ let empty = length-drop_spaces-inactive a.current e in ground arith
    ]

finish-IsReady : (a : BurstAccumulator) → IsReady (finish a).0
unfolding finish
finish-IsReady a = record { oldest = refl; bounded = omega arith; kept = tt }

IsGathered-cons :
    (gap : ℤ) (max_edges : ℕ) (t : ℤ) (ts : List ℤ)
    → IsGathered gap max_edges ts
    → IsInside gap t
    → (is_active ts ≡ false → is_mark t ≡ true)
    → length (t ∷ ts) ≤ max_edges
    → IsGathered gap max_edges (t ∷ ts)
IsGathered-cons gap max_edges t [] g i first b = record {
  oldest = sym (first refl);
  bounded = b;
  kept = (i, tt);
}
IsGathered-cons gap max_edges t (u ∷ ts) g i first b = record {
  oldest = g.oldest;
  bounded = b;
  kept = (i, g.kept);
}

-- What the accumulator was made with.
abbrev bounds : BurstAccumulator → ℤ × ℕ × ℕ
bounds a = (a.gap_us, a.min_edges, a.max_edges)

finish-bounds : (a : BurstAccumulator) → bounds (finish a).0 ≡ bounds a
unfolding finish
finish-bounds a = refl

append_edge-IsReady :
    (a : BurstAccumulator) (t : ℤ)
    → IsReady a
    → IsInside a.gap_us t
    → (is_active a.current ≡ false → is_mark t ≡ true)
    → IsReady (append_edge a t)
unfolding append_edge
append_edge-IsReady a t g i first =
    let fresh : IsGathered a.gap_us a.max_edges [] = record {
      oldest = refl;
      bounded = omega arith;
      kept = tt;
    } in
    if-elim IsReady (ltb a.max_edges (length (t ∷ a.current)))
      (record a { current = []; overflows = add_u64 a.overflows 1 })
      (record a { current = t ∷ a.current }) (λ e. fresh)
      (λ e. IsGathered-cons a.gap_us a.max_edges t a.current g i first (ground arith))

space_timing :
    (on : Bool) (n : ℕ)
    → n < i64_max
    → on ≡ false
    → timing (record { on = on; us = pos (suc n) }) ≡ negsuc n
space_timing true n h e = ground arith
space_timing false n h e = ground (arith, wrap_i64-eq_of_InI64 (negsuc n))

timing-IsInside :
    (gap : ℤ) (on : Bool) (n : ℕ)
    → n < i64_max
    → (not on && leb_ℤ gap (pos (suc n))) ≡ false
    → IsInside gap (timing (record { on = on; us = pos (suc n) }))
timing-IsInside gap true n p h = tt
timing-IsInside gap false n p h = subst (IsInside gap) (sym (space_timing false n p refl)) h

first_edge :
    (active on : Bool) (t : ℤ)
    → (not active && not on) ≡ false
    → (on ≡ true → is_mark t ≡ true)
    → active ≡ false
    → is_mark t ≡ true
first_edge true on t h k e = ground arith
first_edge false true t h k e = k refl
first_edge false false t h k e = ground arith

timing-is_mark :
    (on : Bool) (n : ℕ) → on ≡ true → is_mark (timing (record { on = on; us = pos (suc n) })) ≡ true
timing-is_mark true n h = refl
timing-is_mark false n h = ground arith

abbrev Kept : BurstAccumulator → BurstAccumulator × Option (List ℤ) → Type 0
Kept a (b, burst) = IsReady b × IsFrameIf a burst × (bounds b ≡ bounds a)

append_edge-Kept :
    (a : BurstAccumulator) (t : ℤ) → IsReady (append_edge a t) → Kept a (append_edge a t, none)
unfolding append_edge
append_edge-Kept a t h = (
  h,
  tt,
  if-elim (λ b. bounds b ≡ bounds a) (ltb a.max_edges (length (t ∷ a.current)))
      (record a { current = []; overflows = add_u64 a.overflows 1 })
      (record a { current = t ∷ a.current }) (λ e. refl) (λ e. refl),
)

-- A run of positive duration leaves the accumulator ready, and what it returns is a frame.
push-Kept :
    (a : BurstAccumulator) (on : Bool) (n : ℕ)
    → 1 ≤ a.min_edges
    → n < i64_max
    → IsReady a
    → Kept a (push a (record { on = on; us = pos (suc n) }))
unfolding push
push-Kept a on n h p g =
    let run : Run = record { on = on; us = pos (suc n) } in
    if-elim (Kept a) (not on && leb_ℤ a.gap_us (pos (suc n))) (finish a)
      (if not (is_active a.current) && not on
        then (a, none)
        else (append_edge a (timing run), none))
      (λ e. (finish-IsReady a, finish-IsFrame a h g, finish-bounds a))
      (λ e.
        if-elim (Kept a) (not (is_active a.current) && not on) (a, none)
          (append_edge a (timing run), none) (λ s. (g, tt, refl))
          (λ s. append_edge-Kept a (timing run) (
            append_edge-IsReady a (timing run) g (timing-IsInside a.gap_us on n p e)
              (first_edge (is_active a.current) on (timing run) s (timing-is_mark on n)))))

abbrev FrameFor : ℤ × ℕ × ℕ → List ℤ → Type 0
FrameFor (gap, min_edges, max_edges) ts = IsFrame gap min_edges max_edges ts

emit-All :
    (a : BurstAccumulator) (b : Option (List ℤ)) (bs : List (List ℤ))
    → IsFrameIf a b
    → All (FrameFor (bounds a)) bs
    → All (FrameFor (bounds a)) (emit b bs)
emit-All a none bs h k = k
emit-All a (some ts) bs h k = (h, k)

push_all-IsFrame :
    (a : BurstAccumulator) (runs : List Run)
    → 1 ≤ a.min_edges
    → All IsPositive runs
    → IsReady a
    → All (FrameFor (bounds a)) (push_all a runs)
unfolding push_all
push_all-IsFrame a [] h p g = emit-All a (finish a).1 [] (finish-IsFrame a h g) tt
push_all-IsFrame a (run ∷ runs) h (p, ps) g =
    let us : run ≡ record { on = run.on; us = pos (suc p.0) } =
      ap (λ u. record run { us = u }) p.2 in
    let kept = subst (λ r. Kept a (push a r)) (sym us) (push-Kept a run.on p.0 h p.1 g) in
    let same_min : (push a run).0.min_edges ≡ a.min_edges = ap (λ b. b.1) kept.2 in
    let rest =
      push_all-IsFrame (push a run).0 runs (subst (λ m. 1 ≤ m) (sym same_min) h) ps kept.0 in
    emit-All a (push a run).1 (push_all (push a run).0 runs) kept.1
      (subst (λ b. All (FrameFor b) (push_all (push a run).0 runs)) kept.2 rest)

-- Every burst that is split off runs of positive duration starts and ends on a mark, has at least
-- `min_edges` and at most 4096 edges, and no space in it is as long as the gap, if `min_edges` is
-- at least 1.
pub split_bursts-IsFrame :
    (runs : List Run) (gap_us : ℤ) (min_edges : ℕ)
    → 1 ≤ min_edges
    → All IsPositive runs
    → All (IsFrame gap_us min_edges 4096) (split_bursts runs gap_us min_edges)
unfolding split_bursts new
split_bursts-IsFrame runs gap_us min_edges h p =
    push_all-IsFrame (new gap_us min_edges) runs h p
      (record { oldest = refl; bounded = omega arith; kept = tt })
