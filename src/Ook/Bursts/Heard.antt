-- ===== src/Ook/Bursts/Heard.antt =====
-- What `split_bursts` of proxyd/src/ook.rs makes of a frame that is sent several times.
use hackrf_proxy.Base.{
  map-append, length-reverse_aux, ℕ, zero, suc, ◌+◌, ◌≤◌, true, false, leb, if◌then◌else◌, none,
  some, List, [], ◌∷◌, ◌++◌, length, map, reverse, replicate, All, ◌≡◌, refl, sym, ap, ◌∙◌, arith,
  append-nil, le→leb,
}
use mathlib.Core.List.{reverse_aux, reverse-reverse}
use hackrf_proxy.Base.Int.{ℤ, pos, negsuc, leb_ℤ, -ℤ◌, wrap_i64, i64_max}
use hackrf_proxy.Ook.Runs.{Run}
use hackrf_proxy.Ook.Bursts.{
  BurstAccumulator, is_active, drop_spaces, finish, append_edge, push, emit, push_all, split_bursts,
  new,
}
use hackrf_proxy.Ook.Bursts.Edges.{first_is_mark, last_is_mark, first-reverse_aux}
use hackrf_proxy.Ook.Render.RoundTrip.{run_of}

-- A frame, and `n` times a gap and the frame again.
abbrev pub resent : ℕ → List ℤ → ℤ → List ℤ
resent zero ts gap = ts
resent (suc n) ts gap = ts ++ gap ∷ resent n ts gap

-- A mark, or a space that is shorter than the gap; both fit in an `i64`.
abbrev pub Brief : ℤ → ℤ → Type 0
Brief gap (pos zero) = ⊥
Brief gap (pos (suc n)) = suc n ≤ i64_max
Brief gap (negsuc n) = (n ≤ i64_max) × (leb_ℤ gap (pos (suc n)) ≡ false)

module _ (gap : ℤ) (min_edges : ℕ) where
  -- The accumulator, with the edges gathered so far.
  abbrev gathered : List ℤ → BurstAccumulator
  gathered current = record {
    gap_us = gap;
    min_edges = min_edges;
    max_edges = 4096;
    current = current;
    overflows = 0;
  }

  negated : (n : ℕ) → n ≤ i64_max → wrap_i64 (-ℤ◌ (pos (suc n))) ≡ negsuc n
  negated n h = ground arith

  push-inside :
      (t : ℤ) (current : List ℤ)
      → Brief gap t
      → is_active current ≡ true
      → length (t ∷ current) ≤ 4096
      → push (gathered current) (run_of t) ≡ (gathered (t ∷ current), none)
  unfolding push append_edge
  push-inside (pos zero) current b a h = absurd b
  push-inside (pos (suc n)) current b a h = ground arith
  push-inside (negsuc n) current b a h = let back = negated n b.0 in let short = b.1 in ground arith

  push-first :
      (n : ℕ) → push (gathered []) (run_of (pos (suc n))) ≡ (gathered (pos (suc n) ∷ []), none)
  unfolding push append_edge
  push-first n = ground arith

  absorbed :
      (ts current : List ℤ) (rest : List Run)
      → All (Brief gap) ts
      → is_active current ≡ true
      → length ts + length current ≤ 4096
      → push_all (gathered current) (map run_of ts ++ rest)
        ≡ push_all (gathered (reverse_aux ts current)) rest
  unfolding push_all
  absorbed [] current rest b a h = refl
  absorbed (t ∷ ts) current rest b a h =
      ap (λ p. emit p.1 (push_all p.0 (map run_of ts ++ rest)))
        (push-inside t current b.0 a (omega arith))
      ∙ absorbed ts (t ∷ current) rest b.1 refl (omega arith)

  drop_spaces-mark : (ts : List ℤ) → first_is_mark ts ≡ true → drop_spaces ts ≡ ts
  unfolding drop_spaces
  drop_spaces-mark [] h = refl
  drop_spaces-mark (pos n ∷ ts) h = refl
  drop_spaces-mark (negsuc n ∷ ts) h = ground arith

  finish-frame :
      (t : ℤ) (ts : List ℤ)
      → last_is_mark (t ∷ ts) ≡ true
      → min_edges ≤ length (t ∷ ts)
      → finish (gathered (reverse (t ∷ ts))) ≡ (gathered [], some (t ∷ ts))
  unfolding finish
  finish-frame t ts l h =
      let kept = drop_spaces-mark (reverse (t ∷ ts)) (first-reverse_aux t ts [] ∙ l) in
      let sized = length-reverse_aux (t ∷ ts) [] in
      let enough = le→leb min_edges (length (reverse (t ∷ ts))) (omega arith) in
      ap (λ c. (gathered [], (if leb min_edges (length c) then some (reverse c) else none))) kept
      ∙ ap (λ b. (gathered [], (if b then some (reverse (reverse (t ∷ ts))) else none))) enough
      ∙ ap (λ c. (gathered [], some c)) (reverse-reverse (t ∷ ts))

  push-gap :
      (k : ℕ) (current : List ℤ)
      → leb_ℤ gap (pos (suc k)) ≡ true
      → push (gathered current) (run_of (negsuc k)) ≡ finish (gathered current)
  unfolding push
  push-gap k current h = ground arith

  -- A frame: it starts and ends on a mark, no space in it is as long as the gap, and its length is
  -- within the bounds.
  pub record IsSendable (n : ℕ) (ts : List ℤ) : Type 0 where
    pub brief : All (Brief gap) (pos (suc n) ∷ ts)
    pub ends : last_is_mark (pos (suc n) ∷ ts) ≡ true
    pub at_least : min_edges ≤ length (pos (suc n) ∷ ts)
    pub at_most : length (pos (suc n) ∷ ts) ≤ 4096

  frame-absorbed :
      (n : ℕ) (ts : List ℤ) (rest : List Run)
      → IsSendable n ts
      → push_all (gathered []) (map run_of (pos (suc n) ∷ ts) ++ rest)
        ≡ push_all (gathered (reverse (pos (suc n) ∷ ts))) rest
  unfolding push_all
  frame-absorbed n ts rest f =
      ap (λ p. emit p.1 (push_all p.0 (map run_of ts ++ rest))) (push-first n)
      ∙ absorbed ts (pos (suc n) ∷ []) rest f.brief.1 refl (omega (arith, f.at_most))

  push_all-resent :
      (m n : ℕ) (ts : List ℤ) (k : ℕ)
      → IsSendable n ts
      → leb_ℤ gap (pos (suc k)) ≡ true
      → push_all (gathered []) (map run_of (resent m (pos (suc n) ∷ ts) (negsuc k)))
        ≡ replicate (suc m) (pos (suc n) ∷ ts)
  unfolding push_all
  push_all-resent zero n ts k f long =
      ap (push_all (gathered [])) (sym (append-nil (map run_of (pos (suc n) ∷ ts))))
      ∙ frame-absorbed n ts [] f
      ∙ ap (λ p. emit p.1 []) (finish-frame (pos (suc n)) ts f.ends f.at_least)
  push_all-resent (suc m) n ts k f long =
      let frame = pos (suc n) ∷ ts in
      let others = resent m frame (negsuc k) in
      ap (push_all (gathered [])) (map-append run_of frame (negsuc k ∷ others))
      ∙ frame-absorbed n ts (run_of (negsuc k) ∷ map run_of others) f
      ∙ ap (λ p. emit p.1 (push_all p.0 (map run_of others)))
          (push-gap k (reverse frame) long ∙ finish-frame (pos (suc n)) ts f.ends f.at_least)
      ∙ ap (λ l. frame ∷ l) (push_all-resent m n ts k f long)

  -- Runs that are a frame sent `m + 1` times, with gaps between, are split into the frame, `m + 1`
  -- times.
  pub split_bursts-resent :
      (m n : ℕ) (ts : List ℤ) (k : ℕ)
      → IsSendable n ts
      → leb_ℤ gap (pos (suc k)) ≡ true
      → split_bursts (map run_of (resent m (pos (suc n) ∷ ts) (negsuc k))) gap min_edges
        ≡ replicate (suc m) (pos (suc n) ∷ ts)
  unfolding split_bursts new
  split_bursts-resent m n ts k f long = push_all-resent m n ts k f long
