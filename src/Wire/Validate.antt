-- ===== src/Wire/Validate.antt =====
-- What `Transmit::validate` of proxyd/src/wire.rs lets through.
use hackrf_proxy.Base.{
  ℕ, zero, suc, ◌+◌, ◌*◌, ◌≤◌, ◌<◌, ◌≡◌, ◌≢◌, ◌↔◌, refl, true, false, Option, none, some, List, [],
  ◌∷◌, arith, All, min, length,
}
use hackrf_proxy.Base.Int.{ℤ, pos, negsuc, ◌≤ℤ◌, i64_max, two64}
use hackrf_proxy.Base.Results.{ok}
use hackrf_proxy.Wire.{
  Transmit, IsTyped, air_time_us, max_air_time_us, max_timings, is_zero, contains_zero, is_empty,
  in_tuning_range, excess_gain, validate,
}
use hackrf_proxy.Wire.AirTime.{exact_air_time, air_time_us-eq-saturate, air_time_us-le_of_overflow}

-- All that a request must satisfy but for its air time.
pub record IsWellFormed (r : Transmit) : Type 0 where
  pub some_timings : r.timings ≢ []
  pub few_timings : length r.timings ≤ max_timings
  pub no_zero : All (λ t. t ≢ pos 0) r.timings
  pub tunable : (1_000_000 ≤ r.frequency) × (r.frequency ≤ 6_000_000_000)
  pub gain_possible : (g : ℕ) → r.txvga_db ≡ some g → g ≤ 47

contains_zero_iff : (ts : List ℤ) → (contains_zero ts ≡ false) ↔ All (λ t. t ≢ pos 0) ts
unfolding contains_zero is_zero
contains_zero_iff [] = (λ _. tt, λ _. refl)
contains_zero_iff (pos zero ∷ ts) = (λ h. cc, λ h. absurd (h.0 refl))
contains_zero_iff (pos (suc n) ∷ ts) =
    (λ h. (λ e. cc, (contains_zero_iff ts).0 h), λ h. (contains_zero_iff ts).1 h.1)
contains_zero_iff (negsuc n ∷ ts) =
    (λ h. (λ e. cc, (contains_zero_iff ts).0 h), λ h. (contains_zero_iff ts).1 h.1)

excess_gain_iff : (o : Option ℕ) → (excess_gain o ≡ none) ↔ ((g : ℕ) → o ≡ some g → g ≤ 47)
unfolding excess_gain
excess_gain_iff none = (λ h g e. cc, λ h. refl)
excess_gain_iff (some g) = (λ h g' e. ground arith, λ h. ground (arith, h g refl))

is_empty_iff : (ts : List ℤ) → (is_empty ts ≡ false) ↔ (ts ≢ [])
unfolding is_empty
is_empty_iff [] = (λ h. cc, λ h. absurd (h refl))
is_empty_iff (t ∷ ts) = (λ h e. cc, λ h. refl)

-- The tests of `validate`, all passed.
abbrev Passes : Transmit → Type 0
Passes r =
    (is_empty r.timings ≡ false)
    × (length r.timings ≤ max_timings)
    × (contains_zero r.timings ≡ false)
    × (in_tuning_range r.frequency ≡ true)
    × (excess_gain r.txvga_db ≡ none)
    × (air_time_us r ≤ℤ pos max_air_time_us)

Passes-of_ok : (r : Transmit) → validate r ≡ ok tt → Passes r
unfolding validate
Passes-of_ok r h = ground arith

ok-of_Passes : (r : Transmit) → Passes r → validate r ≡ ok tt
unfolding validate
ok-of_Passes r p = ground arith

in_tuning_range_iff : (f : ℕ) → (in_tuning_range f ≡ true) ↔ ((1_000_000 ≤ f) × (f ≤ 6_000_000_000))
unfolding in_tuning_range
in_tuning_range_iff f = ground arith

IsWellFormed-of_Passes : (r : Transmit) → Passes r → IsWellFormed r
IsWellFormed-of_Passes r p = record {
  some_timings = (is_empty_iff r.timings).0 p.0;
  few_timings = p.1;
  no_zero = (contains_zero_iff r.timings).0 p.2;
  tunable = (in_tuning_range_iff r.frequency).0 p.3;
  gain_possible = (excess_gain_iff r.txvga_db).0 p.4;
}

Passes-of_IsWellFormed :
    (r : Transmit) → IsWellFormed r → air_time_us r ≤ℤ pos max_air_time_us → Passes r
Passes-of_IsWellFormed r w h = (
  (is_empty_iff r.timings).1 w.some_timings,
  w.few_timings,
  (contains_zero_iff r.timings).1 w.no_zero,
  (in_tuning_range_iff r.frequency).1 w.tunable,
  (excess_gain_iff r.txvga_db).1 w.gain_possible,
  h,
)

-- A request is accepted exactly when it is well formed and its reported air time is in the limit.
pub validate_iff :
    (r : Transmit)
    → (validate r ≡ ok tt) ↔ (IsWellFormed r × (air_time_us r ≤ℤ pos max_air_time_us))
validate_iff r = (
  λ h. (IsWellFormed-of_Passes r (Passes-of_ok r h), (Passes-of_ok r h).5),
  λ (w, h). ok-of_Passes r (Passes-of_IsWellFormed r w h),
)

bound_of : (n : ℕ) → pos (min n i64_max) ≤ℤ pos max_air_time_us → n ≤ max_air_time_us
bound_of n h = omega arith

-- When the product of the repetitions and the gap fits in an `i64`, a request is accepted exactly
-- when it is well formed and its exact air time, with no bound, is at most 30 seconds.
pub validate_exact :
    (r : Transmit)
    → r.repeat * r.gap_us ≤ i64_max
    → (validate r ≡ ok tt) ↔ (IsWellFormed r × (exact_air_time r ≤ max_air_time_us))
validate_exact r h =
    let e : air_time_us r ≡ pos (min (exact_air_time r) i64_max) = air_time_us-eq-saturate r h in
    (
      λ v. (
        ((validate_iff r).0 v).0,
        bound_of (exact_air_time r) (rw e at (((validate_iff r).0 v).1)),
      ),
      λ (w, k). (validate_iff r).1 (w, rw e (omega arith)),
    )

-- A well-formed request whose product of repetitions and gap exceeds `i64::MAX`, and whose exact
-- air time is at most 2^64 us and the limit, is accepted, although the exact air time is more than
-- 2^63 us.
pub validate_accepts_overflow :
    (r : Transmit)
    → IsTyped r
    → IsWellFormed r
    → i64_max < r.repeat * r.gap_us
    → exact_air_time r ≤ two64 + max_air_time_us
    → (validate r ≡ ok tt) × (i64_max < exact_air_time r)
validate_accepts_overflow r t w h k =
    ((validate_iff r).1 (w, air_time_us-le_of_overflow r t h k), omega arith)
