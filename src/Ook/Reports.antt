-- ===== src/Ook/Reports.antt =====
-- Comparing and measuring bursts for a report: `compare_bursts`, `duration_us` and
-- `width_histogram` of proxyd/src/ook.rs.
pub mod Agreement
pub mod Widths
use hackrf_proxy.Base.{
  ℕ, zero, suc, ◌+◌, ◌-◌, ◌*◌, ◌/◌, ◌==◌, Bool, true, false, Option, none, some, List, [], ◌∷◌,
  ◌&&◌, not, if◌then◌else◌, length,
}
use hackrf_proxy.Base.Words.{add_u64}
use hackrf_proxy.Base.Int.{
  ℤ, pos, negsuc, ◌+ℤ◌, -ℤ◌, leb_ℤ, ltb_ℤ, unsigned_abs, wrap_i64, eq_ℤ, ◌*ℤ◌, i64_max,
}

pub record BurstAgreement : Type 0 where
  pub same_edge_count : Bool
  pub max_deviation_us : ℤ

-- `i64::abs`, which wraps at the least value, and `-`.
abbrev pub abs_i64 : ℤ → ℤ
abs_i64 a = wrap_i64 (pos (unsigned_abs a))

abbrev pub sub_i64 : ℤ → ℤ → ℤ
sub_i64 a b = wrap_i64 (a +ℤ (-ℤ◌ b))

abbrev pub max_ℤ : ℤ → ℤ → ℤ
max_ℤ a b = if leb_ℤ a b then b else a

-- The inner loop, over `first.iter().zip(other)`.
unfoldable pub deviation : ℤ → List ℤ → List ℤ → ℤ
deviation d [] bs = d
deviation d (a ∷ rest) [] = d
deviation d (a ∷ rest) (b ∷ bs) = deviation (max_ℤ d (abs_i64 (sub_i64 a b))) rest bs

unfoldable pub compare_rest : List ℤ → BurstAgreement → List (List ℤ) → BurstAgreement
unfolding deviation
compare_rest first result [] = result
compare_rest first result (other ∷ rest) =
    if length other == length first
    then compare_rest first
        (record result { max_deviation_us = deviation result.max_deviation_us first other }) rest
    else compare_rest first (record result { same_edge_count = false }) rest

unfoldable pub compare_bursts : List (List ℤ) → Option BurstAgreement
unfolding compare_rest
compare_bursts [] = none
compare_bursts (first ∷ rest) =
    some (compare_rest first (record { same_edge_count = true; max_deviation_us = pos 0 }) rest)

-- The `sum` of `map`, from a total on.
unfoldable pub add_durations : ℤ → List ℤ → ℤ
add_durations total [] = total
add_durations total (t ∷ ts) = add_durations (wrap_i64 (total +ℤ abs_i64 t)) ts

unfoldable pub duration_us : List ℤ → ℤ
unfolding add_durations
duration_us ts = add_durations (pos 0) ts

-- `i64::div_euclid`, by a divisor that is not zero: the remainder is not negative.
abbrev pub div_euclid : ℤ → ℤ → ℤ
div_euclid (pos a) (pos b) = pos (a / b)
div_euclid (negsuc a) (pos b) = negsuc (a / b)
div_euclid (pos a) (negsuc b) = -ℤ◌ (pos (a / suc b))
div_euclid (negsuc a) (negsuc b) = pos (a / suc b + 1)

unfoldable pub bucket_of : ℤ → ℤ → ℤ
bucket_of bucket_us t = wrap_i64 (wrap_i64 (div_euclid t bucket_us) *ℤ bucket_us)

-- `*hist.entry(bucket).or_default() += 1`, on the map as a list in the order of its keys.
unfoldable pub bump_key : ℤ → List (ℤ × ℕ) → List (ℤ × ℕ)
bump_key k [] = (k, 1) ∷ []
bump_key k ((j, n) ∷ m) =
    if eq_ℤ k j
    then (j, add_u64 n 1) ∷ m
    else if ltb_ℤ k j
    then (k, 1) ∷ (j, n) ∷ m
    else (j, n) ∷ bump_key k m

unfoldable pub add_widths : ℤ → List (ℤ × ℕ) → List ℤ → List (ℤ × ℕ)
unfolding bump_key bucket_of
add_widths bucket_us m [] = m
add_widths bucket_us m (t ∷ ts) = add_widths bucket_us (bump_key (bucket_of bucket_us t) m) ts

-- Division by zero, and of the least value by -1, panics: `none`.
abbrev pub divides : ℤ → ℤ → Bool
divides bucket_us t =
    not (eq_ℤ bucket_us (pos 0)) && not (eq_ℤ bucket_us (negsuc 0) && eq_ℤ t (negsuc i64_max))

unfoldable pub all_divide : ℤ → List ℤ → Bool
all_divide bucket_us [] = true
all_divide bucket_us (t ∷ ts) = divides bucket_us t && all_divide bucket_us ts

unfoldable pub width_histogram : List ℤ → ℤ → Option (List (ℤ × ℕ))
unfolding add_widths all_divide
width_histogram timings bucket_us =
    if all_divide bucket_us timings then some (add_widths bucket_us [] timings) else none
