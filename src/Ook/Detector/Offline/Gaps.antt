-- ===== src/Ook/Detector/Offline/Gaps.antt =====
-- A silence that reaches the gap, as it ends, in `push_run` and `BurstAccumulator` of
-- proxyd/src/ook.rs.
use hackrf_proxy.Base.{
  ℕ, suc, ◌+◌, ◌≤◌, ◌<◌, Bool, true, false, List, [], ◌∷◌, length, ◌≡◌, refl, sym, ap, ◌∙◌, subst,
  arith, ◌⊎◌, inl, inr,
}
use hackrf_proxy.Base.Int.{ℤ, pos, leb_ℤ, ◌+ℤ◌, wrap_i64, i64_max}
use hackrf_proxy.Ook.Runs.{Run, push_run}
use hackrf_proxy.Ook.Bursts.{finish, new}
use hackrf_proxy.Ook.Bursts.Gathering.{
  Gathered, gather, gather-IsWithin, push_on, finish_on, space, push_on-gap, push_on-emptied,
  finish_on_idem, finish_on-space,
}
use hackrf_proxy.Ook.Detector.Offline.{IsTimed, flushed, Holds}
use hackrf_proxy.Ook.Detector.Offline.Merging.{
  merges, push_run-merged, push_run-next, push_run-first, longer_us, not_short, not_short_of_merges,
}

module _ (duration : ℕ → ℤ) (min_samples gap_samples : ℕ) (gap_us : ℤ) (min_edges : ℕ)
    (timed : IsTimed duration min_samples gap_samples gap_us) (some_edge : 1 ≤ min_edges) where
  abbrev pub let_out : List Run → Gathered
  let_out out = gather gap_us min_edges out

  gather-min : (out : List Run) → 1 ≤ (let_out out).0.min_edges
  gather-min out = omega (arith, (gather-IsWithin gap_us min_edges out).same_min)

  -- After a gap, the accumulator holds nothing, and silence changes nothing.
  pub push_on-resumed :
      (older : List Run) (us : ℤ)
      → push_on (finish_on (let_out older)) (space us) ≡ finish_on (let_out older)
  unfolding finish
  push_on-resumed older us =
      push_on-emptied (let_out older).0 (finish_on (let_out older)).1 us (gather-min older)

  pub finish_on-resumed :
      (older : List Run) → finish_on (finish_on (let_out older)) ≡ finish_on (let_out older)
  finish_on-resumed older = finish_on_idem (let_out older) (gather-min older)

  pub gather-gap :
      (x : ℤ) (older : List Run)
      → leb_ℤ gap_us x ≡ true
      → let_out (space x ∷ older) ≡ finish_on (let_out older)
  gather-gap x older long =
      let same_gap = (gather-IsWithin gap_us min_edges older).same_gap in
      push_on-gap (let_out older) x (subst (λ g. leb_ℤ g x ≡ true) (sym same_gap) long)

  -- A silence that has reached the gap ends.
  abbrev pub Closes : ℕ → List Run → ℕ → Type 0
  Closes n out len =
      (x : ℤ) × (y : ℕ) × (older : List Run) × (push_run min_samples out false len (duration len)
        ≡ space x ∷ older)
      × (finish_on (let_out out) ≡ finish_on (let_out older))
      × (leb_ℤ gap_us x ≡ true)
      × (x ≡ pos y)
      × (1 ≤ y)
      × (y ≤ n)

  last_space :
      (older : List Run) (us : ℤ) (x : ℕ)
      → us ≡ pos x
      → x ≤ i64_max
      → suc (length older) ≤ 4096
      → (older ≡ []) ⊎ (1 ≤ x)
      → finish_on (let_out (space us ∷ older)) ≡ finish_on (let_out older)
  unfolding new
  last_space older us x e fits few first =
      let within = gather-IsWithin gap_us min_edges older in
      let edge : ((let_out older).0.current ≡ []) ⊎ (1 ≤ x) = elim first [
        | inl o ↦ inl (ap (λ l. (let_out l).0.current) o)
        | inr l ↦ inr l
      ] in
      ap (λ t. finish_on (let_out (space t ∷ older))) e
      ∙ finish_on-space (let_out older) x (gather-min older) fits within.same_max
          (omega (arith, within.few)) edge

  closes_after :
      (n : ℕ) (c : Bool) (us : ℤ) (older : List Run) (len : ℕ)
      → n < i64_max
      → Holds gap_us n gap_samples (flushed (record { on = c; us = us } ∷ older) len)
      → suc (length older) ≤ 4096
      → Closes n (record { on = c; us = us } ∷ older) len
  closes_after n true us older len m h few =
      let (y, lasts, most, some_us) = timed.lasts len in
      let next : merges min_samples len (record { on = true; us = us }) false ≡ false =
        let wide = timed.wide in let reached = h.1.0 in ground arith in
      (
        duration len,
        y,
        record { on = true; us = us } ∷ older,
        push_run-next min_samples len (record { on = true; us = us }) older false (duration len)
            next,
        refl,
        timed.spans len h.1.0,
        lasts,
        not_short len min_samples y
            (not_short_of_merges len min_samples (record { on = true; us = us }) false next)
            some_us,
        omega (arith, h.0),
      )
  closes_after n false us older len m h few =
      let (y, lasts, most, some_us) = timed.lasts len in
      let (x, at, sum, first) = h.1.1 in
      let merged : merges min_samples len (space us) false ≡ true = ground arith in
      let merged_us = longer_us us (duration len) x y at lasts (omega (arith, h.0)) in
      let lasting : 1 ≤ y = let wide = timed.wide in let reached = h.1.0 in ground arith in
      let spans : leb_ℤ gap_us (pos y) ≡ true =
        subst (λ t. leb_ℤ gap_us t ≡ true) lasts (timed.spans len h.1.0) in
      let long : leb_ℤ gap_us (pos (x + y)) ≡ true = ground arith in
      (
        wrap_i64 (us +ℤ duration len),
        x + y,
        older,
        push_run-merged min_samples len (space us) older false (duration len) merged,
        last_space older us x at (omega (arith, h.0)) few first,
        subst (λ t. leb_ℤ gap_us t ≡ true) (sym merged_us) long,
        merged_us,
        omega arith,
        omega (arith, h.0),
      )

  pub closes :
      (n : ℕ) (out : List Run) (len : ℕ)
      → n < i64_max
      → Holds gap_us n gap_samples (flushed out len)
      → length out ≤ 4096
      → Closes n out len
  closes n [] len m h few =
      let (y, lasts, most, some_us) = timed.lasts len in
      let lasting : 1 ≤ y = let wide = timed.wide in let reached = h.1.0 in ground arith in
      (
        duration len,
        y,
        [],
        push_run-first min_samples len false (duration len),
        refl,
        timed.spans len h.1.0,
        lasts,
        lasting,
        omega (arith, h.0),
      )
  closes n (p ∷ older) len m h few = closes_after n p.on p.us older len m h few
