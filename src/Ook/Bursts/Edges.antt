-- ===== src/Ook/Bursts/Edges.antt =====
-- What makes a list of edges a burst, and the edges that `BurstAccumulator::finish` of
-- proxyd/src/ook.rs drops and turns round.
use hackrf_proxy.Base.{
  length-reverse_aux, ℕ, suc, ◌≤◌, ◌<◌, Bool, true, false, List, [], ◌∷◌, length, reverse, All, ◌≡◌,
  refl, arith,
}
use mathlib.Core.List.{reverse_aux}
use hackrf_proxy.Base.Int.{ℤ, pos, negsuc, leb_ℤ, i64_max}
use hackrf_proxy.Ook.Runs.{Run}
use hackrf_proxy.Ook.Bursts.{is_active, drop_spaces}

abbrev pub is_mark : ℤ → Bool
is_mark (pos n) = true
is_mark (negsuc n) = false

abbrev pub first_is_mark : List ℤ → Bool
first_is_mark [] = false
first_is_mark (t ∷ ts) = is_mark t

abbrev pub last_is_mark : List ℤ → Bool
last_is_mark [] = false
last_is_mark (t ∷ []) = is_mark t
last_is_mark (t ∷ u ∷ ts) = last_is_mark (u ∷ ts)

-- A mark, or a space that is shorter than the gap.
abbrev pub IsInside : ℤ → ℤ → Type 0
IsInside gap (pos n) = Unit
IsInside gap (negsuc n) = leb_ℤ gap (pos (suc n)) ≡ false

-- A burst: it starts and ends on a mark, its length is between the bounds, and no space in it is as
-- long as the gap.
pub record IsFrame (gap : ℤ) (min_edges max_edges : ℕ) (ts : List ℤ) : Type 0 where
  pub starts : first_is_mark ts ≡ true
  pub ends : last_is_mark ts ≡ true
  pub at_least : min_edges ≤ length ts
  pub at_most : length ts ≤ max_edges
  pub inside : All (IsInside gap) ts

-- A run whose duration is positive and fits.
abbrev pub IsPositive : Run → Type 0
IsPositive run = (n : ℕ) × (n < i64_max) × (run.us ≡ pos (suc n))

-- What holds of the edges gathered so far, newest first.
pub record IsGathered (gap : ℤ) (max_edges : ℕ) (ts : List ℤ) : Type 0 where
  pub oldest : is_active ts ≡ last_is_mark ts
  pub bounded : length ts ≤ max_edges
  pub kept : All (IsInside gap) ts

-- Turning a list round.
last-reverse_aux :
    (xs : List ℤ) (y : ℤ) (ys : List ℤ)
    → last_is_mark (reverse_aux xs (y ∷ ys)) ≡ last_is_mark (y ∷ ys)
last-reverse_aux [] y ys = refl
last-reverse_aux (x ∷ xs) y ys = last-reverse_aux xs x (y ∷ ys)

pub first-reverse_aux :
    (x : ℤ) (xs acc : List ℤ) → first_is_mark (reverse_aux (x ∷ xs) acc) ≡ last_is_mark (x ∷ xs)
first-reverse_aux x [] acc = refl
first-reverse_aux x (y ∷ xs) acc = first-reverse_aux y xs (x ∷ acc)

All-reverse_aux :
    (P : ℤ → Type 0) (xs acc : List ℤ) → All P xs → All P acc → All P (reverse_aux xs acc)
All-reverse_aux P [] acc h k = k
All-reverse_aux P (x ∷ xs) acc h k = All-reverse_aux P xs (x ∷ acc) h.1 (h.0, k)

-- Dropping the spaces at the newest end.
pub drop_spaces-first :
    (ts : List ℤ) → last_is_mark ts ≡ true → first_is_mark (drop_spaces ts) ≡ true
unfolding drop_spaces
drop_spaces-first (pos n ∷ ts) h = refl
drop_spaces-first (negsuc n ∷ []) h = ground arith
drop_spaces-first (negsuc n ∷ t ∷ ts) h = drop_spaces-first (t ∷ ts) h
drop_spaces-first [] h = ground arith

pub drop_spaces-last : (ts : List ℤ) → last_is_mark ts ≡ true → last_is_mark (drop_spaces ts) ≡ true
unfolding drop_spaces
drop_spaces-last (pos n ∷ ts) h = h
drop_spaces-last (negsuc n ∷ []) h = ground arith
drop_spaces-last (negsuc n ∷ t ∷ ts) h = drop_spaces-last (t ∷ ts) h
drop_spaces-last [] h = h

pub length-drop_spaces : (ts : List ℤ) → length (drop_spaces ts) ≤ length ts
unfolding drop_spaces
length-drop_spaces [] = omega arith
length-drop_spaces (pos n ∷ ts) = omega arith
length-drop_spaces (negsuc n ∷ ts) = omega (arith, length-drop_spaces ts)

pub drop_spaces-All : (P : ℤ → Type 0) (ts : List ℤ) → All P ts → All P (drop_spaces ts)
unfolding drop_spaces
drop_spaces-All P [] h = h
drop_spaces-All P (pos n ∷ ts) h = h
drop_spaces-All P (negsuc n ∷ ts) h = drop_spaces-All P ts h.1

pub length-drop_spaces-inactive : (ts : List ℤ) → is_active ts ≡ false → length (drop_spaces ts) ≡ 0
unfolding drop_spaces
length-drop_spaces-inactive [] h = refl
length-drop_spaces-inactive (t ∷ ts) h = ground arith

pub reversed-IsFrame :
    (gap : ℤ) (min_edges max_edges : ℕ) (ts : List ℤ)
    → first_is_mark ts ≡ true
    → last_is_mark ts ≡ true
    → length ts ≤ max_edges
    → All (IsInside gap) ts
    → min_edges ≤ length ts
    → IsFrame gap min_edges max_edges (reverse ts)
reversed-IsFrame gap min_edges max_edges [] f l b k m = ground arith
reversed-IsFrame gap min_edges max_edges (t ∷ ts) f l b k m = record {
  starts = ground (arith, first-reverse_aux t ts []);
  ends = ground (arith, last-reverse_aux ts t []);
  at_least = omega (arith, length-reverse_aux ts (t ∷ []));
  at_most = omega (arith, length-reverse_aux ts (t ∷ []));
  inside = All-reverse_aux (IsInside gap) ts (t ∷ []) k.1 (k.0, tt);
}
