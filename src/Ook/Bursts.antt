-- ===== src/Ook/Bursts.antt =====
-- Assembling runs into bursts, `BurstAccumulator` and `split_bursts` of proxyd/src/ook.rs.
-- `current` is held newest first, and is turned round when a burst is taken.
pub mod Edges
pub mod Frames
pub mod Heard
pub mod Gathering
use hackrf_proxy.Base.{
  ℕ, zero, suc, Bool, true, false, Option, none, some, List, [], ◌∷◌, ◌&&◌, not, ltb, leb,
  if◌then◌else◌, length, reverse,
}
use hackrf_proxy.Base.Words.{add_u64}
use hackrf_proxy.Base.Int.{ℤ, pos, negsuc, -ℤ◌, leb_ℤ, wrap_i64}
use hackrf_proxy.Ook.Runs.{Run}

abbrev pub max_burst_edges : ℕ
max_burst_edges = 4096

pub record BurstAccumulator : Type 0 where
  pub gap_us : ℤ
  pub min_edges : ℕ
  pub max_edges : ℕ
  pub current : List ℤ
  pub overflows : ℕ

unfoldable pub new : ℤ → ℕ → BurstAccumulator
new gap_us min_edges = record {
  gap_us = gap_us;
  min_edges = min_edges;
  max_edges = max_burst_edges;
  current = [];
  overflows = 0;
}

abbrev pub is_active : List ℤ → Bool
is_active [] = false
is_active (t ∷ ts) = true

-- `while self.current.last().is_some_and(|&t| t < 0) { self.current.pop() }`
unfoldable pub drop_spaces : List ℤ → List ℤ
drop_spaces [] = []
drop_spaces (pos n ∷ ts) = pos n ∷ ts
drop_spaces (negsuc n ∷ ts) = drop_spaces ts

unfoldable pub finish : BurstAccumulator → BurstAccumulator × Option (List ℤ)
unfolding drop_spaces
finish a =
    let current = drop_spaces a.current in
    (
      record a { current = [] },
      if leb a.min_edges (length current) then some (reverse current) else none,
    )

-- `if run.on { run.us } else { -run.us }`
abbrev pub timing : Run → ℤ
timing run = if run.on then run.us else wrap_i64 (-ℤ◌ run.us)

-- Another edge, unless that makes more than `max_edges`.
unfoldable pub append_edge : BurstAccumulator → ℤ → BurstAccumulator
append_edge a t =
    if ltb a.max_edges (length (t ∷ a.current))
    then record a { current = []; overflows = add_u64 a.overflows 1 }
    else record a { current = t ∷ a.current }

unfoldable pub push : BurstAccumulator → Run → BurstAccumulator × Option (List ℤ)
unfolding finish append_edge
push a run =
    if not run.on && leb_ℤ a.gap_us run.us
    then finish a
    else if not (is_active a.current) && not run.on
    then (a, none)
    else (append_edge a (timing run), none)

abbrev pub emit : Option (List ℤ) → List (List ℤ) → List (List ℤ)
emit none bursts = bursts
emit (some b) bursts = b ∷ bursts

-- The `filter_map` over the runs, and the last `finish`.
unfoldable pub push_all : BurstAccumulator → List Run → List (List ℤ)
unfolding push finish
push_all a [] = emit (finish a).1 []
push_all a (run ∷ runs) = let (a', burst) = push a run in emit burst (push_all a' runs)

unfoldable pub split_bursts : List Run → ℤ → ℕ → List (List ℤ)
unfolding push_all new
split_bursts runs gap_us min_edges = push_all (new gap_us min_edges) runs
