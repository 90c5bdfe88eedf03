-- ===== src/Ook/Reception/Framing.antt =====
-- The timings of a transmission of proxyd/src/ook.rs between two silences, and their runs.
use hackrf_proxy.Base.{
  ℕ, zero, suc, ◌≤◌, true, none, if-elim, List, [], ◌∷◌, ◌++◌, append_assoc, map, map-append,
  reverse, replicate, All, All-append, ◌≡◌, refl, sym, ap, ◌∙◌, subst, arith,
}
use mathlib.Core.List.{reverse-cons, reverse-reverse}
use hackrf_proxy.Base.Int.{ℤ, pos, negsuc, leb_ℤ}
use hackrf_proxy.Ook.Runs.{Run}
use hackrf_proxy.Ook.Bursts.{new, push, push_all, split_bursts, emit}
use hackrf_proxy.Ook.Bursts.Gathering.{
  gather, finish_on, space, finish-emptied, push_on-gap, finish_on_idem, gather-IsWithin,
  split_bursts-gather,
}
use hackrf_proxy.Ook.Bursts.Heard.{resent, IsSendable, split_bursts-resent}
use hackrf_proxy.Ook.Render.Hearing.{TakeTurns-join, resent-All}
use hackrf_proxy.Ook.Render.RoundTrip.{TakeTurns, run_of}

-- A silence, a frame sent `m + 1` times with gaps between, and another silence.
abbrev pub between : ℕ → ℕ → List ℤ → ℤ → ℕ → List ℤ
between a m frame gap b = negsuc a ∷ (resent m frame gap ++ negsuc b ∷ [])

module _ (gap : ℤ) (min_edges : ℕ) (some_edge : 1 ≤ min_edges) where
  gathered-min : (out : List Run) → 1 ≤ (gather gap min_edges out).0.min_edges
  gathered-min out = omega (arith, (gather-IsWithin gap min_edges out).same_min)

  -- A gap at the end of the runs makes no difference.
  split_bursts-last :
      (x : ℤ) (runs : List Run)
      → leb_ℤ gap x ≡ true
      → split_bursts (runs ++ space x ∷ []) gap min_edges ≡ split_bursts runs gap min_edges
  split_bursts-last x runs long =
      let out = reverse runs in
      let g = gather gap min_edges out in
      let long_there =
        subst (λ b. leb_ℤ b x ≡ true) (sym (gather-IsWithin gap min_edges out).same_gap) long in
      ap (λ l. split_bursts l gap min_edges)
        (sym (reverse-cons (space x) out ∙ ap (λ l. l ++ (space x) ∷ []) (reverse-reverse runs)))
      ∙ split_bursts-gather gap min_edges (space x ∷ out)
      ∙ ap (λ h. (finish_on h).1) (push_on-gap g x long_there)
      ∙ ap (λ h. h.1) (finish_on_idem g (gathered-min out))
      ∙ sym (split_bursts-gather gap min_edges out)
      ∙ ap (λ l. split_bursts l gap min_edges) (reverse-reverse runs)

  push-new : (x : ℤ) → push (new gap min_edges) (space x) ≡ (new gap min_edges, none)
  unfolding push new
  push-new x =
      if-elim (λ p. p ≡ (new gap min_edges, none)) (leb_ℤ gap x) _ _
        (λ e. finish-emptied (new gap min_edges) some_edge) (λ e. refl)

  -- Silence before the first mark makes no difference.
  split_bursts-first :
      (x : ℤ) (runs : List Run)
      → split_bursts (space x ∷ runs) gap min_edges ≡ split_bursts runs gap min_edges
  unfolding split_bursts push_all
  split_bursts-first x runs = ap (λ p. emit p.1 (push_all p.0 runs)) (push-new x)

  module _ (n : ℕ) (ts : List ℤ) (k : ℕ) (f : IsSendable gap min_edges n ts)
      (turns : TakeTurns (pos (suc n) ∷ ts)) (a b : ℕ) where
    abbrev frame : List ℤ
    frame = pos (suc n) ∷ ts

    -- A frame sent `m + 1` times, and a silence.
    abbrev ended : ℕ → List ℤ
    ended zero = frame ++ negsuc b ∷ []
    ended (suc m) = frame ++ negsuc k ∷ ended m

    ended-eq : (m : ℕ) → ended m ≡ resent m frame (negsuc k) ++ negsuc b ∷ []
    ended-eq zero = refl
    ended-eq (suc m) =
        ap (λ l. frame ++ negsuc k ∷ l) (ended-eq m)
        ∙ sym (append_assoc frame (negsuc k ∷ resent m frame (negsuc k)) (negsuc b ∷ []))

    after_space : (j m : ℕ) → TakeTurns (ended m) → TakeTurns (negsuc j ∷ ended m)
    after_space j zero h = (ground arith, h)
    after_space j (suc m) h = (ground arith, h)

    ended-TakeTurns : (m : ℕ) → TakeTurns (ended m)
    ended-TakeTurns zero =
        TakeTurns-join gap (negsuc b) (pos (suc n)) ts [] turns f.brief f.ends refl tt
    ended-TakeTurns (suc m) =
        TakeTurns-join gap (negsuc k) (pos (suc n)) ts (ended m) turns f.brief f.ends refl
          (after_space k m (ended-TakeTurns m))

    pub between-TakeTurns : (m : ℕ) → TakeTurns (between a m frame (negsuc k) b)
    between-TakeTurns m =
        subst (λ l. TakeTurns (negsuc a ∷ l)) (ended-eq m) (after_space a m (ended-TakeTurns m))

    -- The frames are found between the silences.
    pub split_bursts-between :
        (m : ℕ)
        → leb_ℤ gap (pos (suc k)) ≡ true
        → leb_ℤ gap (pos (suc b)) ≡ true
        → split_bursts (map run_of (between a m frame (negsuc k) b)) gap min_edges
          ≡ replicate (suc m) frame
    split_bursts-between m long last =
        split_bursts-first (pos (suc a)) (map run_of (resent m frame (negsuc k) ++ negsuc b ∷ []))
        ∙ ap (λ l. split_bursts l gap min_edges)
            (map-append run_of (resent m frame (negsuc k)) (negsuc b ∷ []))
        ∙ split_bursts-last (pos (suc b)) (map run_of (resent m frame (negsuc k))) last
        ∙ split_bursts-resent gap min_edges m n ts k f long

pub between-All :
    (P : ℤ → Type 0) (a m : ℕ) (frame : List ℤ) (gap : ℤ) (b : ℕ)
    → P (negsuc a)
    → All P frame
    → P gap
    → P (negsuc b)
    → All P (between a m frame gap b)
between-All P a m frame gap b first h spaced last = (
  first,
  All-append P (resent m frame gap) (negsuc b ∷ []) (resent-All P m frame gap h spaced) (last, tt),
)
