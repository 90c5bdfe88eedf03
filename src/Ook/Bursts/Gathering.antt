-- ===== src/Ook/Bursts/Gathering.antt =====
-- `BurstAccumulator` of proxyd/src/ook.rs over runs that are held newest first: what it has gathered
-- and which bursts it has let go.
use hackrf_proxy.Base.{
  ℕ, zero, suc, ◌≤◌, ◌<◌, true, false, not, ◌&&◌, Option, none, some, List, [], ◌∷◌, ◌++◌, length,
  reverse, ◌≡◌, refl, sym, ap, ◌∙◌, arith, append_assoc, append-nil, ltb, leb, if◌then◌else◌,
  if-elim, inl, inr, ◌⊎◌,
}
use mathlib.Core.List.{reverse_aux}
use hackrf_proxy.Base.Int.{ℤ, pos, negsuc, leb_ℤ, i64_max}
use hackrf_proxy.Base.Words.{add_u64}
use hackrf_proxy.Ook.Runs.{Run}
use hackrf_proxy.Ook.Bursts.{
  BurstAccumulator, is_active, drop_spaces, finish, timing, append_edge, push, emit, push_all,
  split_bursts, new,
}

-- The accumulator, and the bursts so far.
abbrev pub Gathered : Type 0
Gathered = BurstAccumulator × List (List ℤ)

-- What has been let go, and then the outcome of a `push` or a `finish`.
abbrev pub and_then_go : List (List ℤ) → BurstAccumulator × Option (List ℤ) → Gathered
and_then_go bursts (a, burst) = (a, bursts ++ emit burst [])

abbrev pub push_on : Gathered → Run → Gathered
push_on g run = and_then_go g.1 (push g.0 run)

abbrev pub finish_on : Gathered → Gathered
finish_on g = and_then_go g.1 (finish g.0)

module _ (gap_us : ℤ) (min_edges : ℕ) where
  abbrev pub gather : List Run → Gathered
  gather [] = (new gap_us min_edges, [])
  gather (run ∷ out) = push_on (gather out) run

emit-append : (b : Option (List ℤ)) (bs : List (List ℤ)) → emit b bs ≡ emit b [] ++ bs
emit-append none bs = refl
emit-append (some b) bs = refl

module _ (gap_us : ℤ) (min_edges : ℕ) where
  push_all-gather :
      (out rest : List Run)
      → push_all (new gap_us min_edges) (reverse_aux out rest)
        ≡ (gather gap_us min_edges out).1 ++ push_all (gather gap_us min_edges out).0 rest
  unfolding push_all
  push_all-gather [] rest = refl
  push_all-gather (run ∷ out) rest =
      let g = gather gap_us min_edges out in
      let p = push g.0 run in
      push_all-gather out (run ∷ rest)
      ∙ ap (λ l. g.1 ++ l) (emit-append p.1 (push_all p.0 rest))
      ∙ sym (append_assoc g.1 (emit p.1 []) (push_all p.0 rest))

  -- The bursts of a list of runs are what has been let go, and what the last `finish` lets go.
  pub split_bursts-gather :
      (out : List Run)
      → split_bursts (reverse out) gap_us min_edges ≡ (finish_on (gather gap_us min_edges out)).1
  unfolding split_bursts push_all
  split_bursts-gather out = push_all-gather out []

  -- What the accumulator keeps of its settings, and that it gathers at most one edge for each run.
  pub record IsWithin (n : ℕ) (a : BurstAccumulator) : Type 0 where
    pub same_gap : a.gap_us ≡ gap_us
    pub same_min : a.min_edges ≡ min_edges
    pub same_max : a.max_edges ≡ 4096
    pub few : length a.current ≤ n

  pub push-IsWithin :
      (n : ℕ) (a : BurstAccumulator) (run : Run) → IsWithin n a → IsWithin (suc n) (push a run).0
  unfolding push finish append_edge
  push-IsWithin n a run h =
      let few = h.few in
      record {
        same_gap = ground (arith, h.same_gap);
        same_min = ground (arith, h.same_min);
        same_max = ground (arith, h.same_max);
        few = ground (arith, few);
      }

  pub gather-IsWithin : (out : List Run) → IsWithin (length out) (gather gap_us min_edges out).0
  unfolding new
  gather-IsWithin [] = record {
    same_gap = refl;
    same_min = refl;
    same_max = refl;
    few = omega arith;
  }
  gather-IsWithin (run ∷ out) =
      push-IsWithin (length out) (gather gap_us min_edges out).0 run (gather-IsWithin out)

abbrev pub emptied : BurstAccumulator → BurstAccumulator
emptied a = record a { current = [] }

-- An accumulator that holds nothing lets nothing go.
pub finish-emptied :
    (a : BurstAccumulator) → 1 ≤ a.min_edges → finish (emptied a) ≡ (emptied a, none)
unfolding finish drop_spaces
finish-emptied a h =
    let test : leb a.min_edges 0 ≡ false = ground arith in
    ap (λ b. (emptied a, (if b then some [] else none))) test

pub finish_on-emptied :
    (a : BurstAccumulator) (bursts : List (List ℤ))
    → 1 ≤ a.min_edges
    → finish_on (emptied a, bursts) ≡ (emptied a, bursts)
finish_on-emptied a bursts h =
    ap (and_then_go bursts) (finish-emptied a h) ∙ ap (λ l. (emptied a, l)) (append-nil bursts)

-- A run of silence.
abbrev pub space : ℤ → Run
space us = record { on = false; us = us }

push-gap : (a : BurstAccumulator) (us : ℤ) → leb_ℤ a.gap_us us ≡ true → push a (space us) ≡ finish a
unfolding push
push-gap a us long =
    ap
      (λ b.
        if b
        then finish a
        else if not (is_active a.current) && true
        then (a, none)
        else (append_edge a (timing (space us)), none))
      long

pub push_on-emptied :
    (a : BurstAccumulator) (bursts : List (List ℤ)) (us : ℤ)
    → 1 ≤ a.min_edges
    → push_on (emptied a, bursts) (space us) ≡ (emptied a, bursts)
unfolding push
push_on-emptied a bursts us h =
    if-elim (λ p. and_then_go bursts p ≡ (emptied a, bursts)) (leb_ℤ a.gap_us us) _ _
      (λ e. finish_on-emptied a bursts h) (λ e. ap (λ l. (emptied a, l)) (append-nil bursts))

-- A space that is at least as long as the gap ends the burst.
pub push_on-gap :
    (g : Gathered) (us : ℤ) → leb_ℤ g.0.gap_us us ≡ true → push_on g (space us) ≡ finish_on g
push_on-gap g us long = ap (and_then_go g.1) (push-gap g.0 us long)

-- Finishing twice lets nothing more go.
pub finish_on_idem : (g : Gathered) → 1 ≤ g.0.min_edges → finish_on (finish_on g) ≡ finish_on g
unfolding finish
finish_on_idem (a, bursts) h = finish_on-emptied a (finish_on (a, bursts)).1 h

-- A space that does not fill the burst up makes no difference to how it ends.
append-space :
    (a : BurstAccumulator) (n : ℕ)
    → n < i64_max
    → a.max_edges ≡ 4096
    → length a.current < 4096
    → append_edge a (timing (space (pos (suc n)))) ≡ record a { current = negsuc n ∷ a.current }
unfolding append_edge
append-space a n fits most few =
    let back : timing (space (pos (suc n))) ≡ negsuc n = ground arith in
    let room : ltb a.max_edges (suc (length a.current)) ≡ false = ground arith in
    ap
      (λ t.
        if ltb a.max_edges (suc (length a.current))
        then record a { current = []; overflows = add_u64 a.overflows 1 }
        else record a { current = t ∷ a.current })
      back
    ∙ ap
        (λ b.
          if b
          then record a { current = []; overflows = add_u64 a.overflows 1 }
          else record a { current = negsuc n ∷ a.current })
        room

finish_on-append :
    (a : BurstAccumulator) (bursts : List (List ℤ)) (x : ℕ)
    → not (is_active a.current) && true ≡ false
    → x ≤ i64_max
    → a.max_edges ≡ 4096
    → length a.current < 4096
    → (a.current ≡ []) ⊎ (1 ≤ x)
    → finish_on (append_edge a (timing (space (pos x))), bursts ++ []) ≡ finish_on (a, bursts)
unfolding finish drop_spaces
finish_on-append a bursts zero f fits most few (inl e) = let idle = ap is_active e in ground arith
finish_on-append a bursts zero f fits most few (inr l) = absurd (omega arith)
finish_on-append a bursts (suc n) f fits most few lasts =
    ap (λ c. finish_on (c, bursts ++ [])) (append-space a n (omega arith) most few)
    ∙ ap (λ l. finish_on (a, l)) (append-nil bursts)

pub finish_on-space :
    (g : Gathered) (x : ℕ)
    → 1 ≤ g.0.min_edges
    → x ≤ i64_max
    → g.0.max_edges ≡ 4096
    → length g.0.current < 4096
    → (g.0.current ≡ []) ⊎ (1 ≤ x)
    → finish_on (push_on g (space (pos x))) ≡ finish_on g
unfolding push
finish_on-space (a, bursts) x h fits most few lasts =
    if-elim (λ p. finish_on (and_then_go bursts p) ≡ finish_on (a, bursts)) (leb_ℤ a.gap_us (pos x))
      _ _ (λ e. finish_on_idem (a, bursts) h)
      (λ e.
        if-elim (λ p. finish_on (and_then_go bursts p) ≡ finish_on (a, bursts))
          (not (is_active a.current) && true) _ _
          (λ f. ap (λ l. finish_on (a, l)) (append-nil bursts))
          (λ f. finish_on-append a bursts x f fits most few lasts))
