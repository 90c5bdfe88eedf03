-- ===== src/Wire/Refusals.antt =====
-- Why `Transmit::validate` of proxyd/src/wire.rs refuses a request.
use hackrf_proxy.Base.{
  zero, suc, ◌<◌, true, some, List, [], ◌∷◌, ◌≡◌, refl, ◌⊎◌, inl, inr, arith, length,
}
use hackrf_proxy.Base.Int.{ℤ, pos, negsuc, ltb_ℤ}
use hackrf_proxy.Base.Results.{err}
use hackrf_proxy.Wire.{
  Transmit, Invalid, empty, zero_timing, too_many_timings, frequency_out_of_range,
  air_time_too_long, gain_too_high, validate, check_air_time, air_time_us, excess_gain,
  in_tuning_range, contains_zero, is_zero, is_empty, max_timings, max_air_time_us,
}

abbrev pub HasZero : List ℤ → Type 0
HasZero [] = ⊥
HasZero (t ∷ ts) = (t ≡ pos 0) ⊎ HasZero ts

-- What is wrong with a request, with the value that the refusal names.
abbrev pub Reason : Transmit → Invalid → Type 0
Reason r empty = r.timings ≡ []
Reason r (too_many_timings n) = (length r.timings ≡ n) × (max_timings < n)
Reason r zero_timing = HasZero r.timings
Reason r (frequency_out_of_range f) = (r.frequency ≡ f) × ((f < 1_000_000) ⊎ (6_000_000_000 < f))
Reason r (gain_too_high g) = (r.txvga_db ≡ some g) × (47 < g)
Reason r (air_time_too_long t) = (air_time_us r ≡ t) × (ltb_ℤ (pos max_air_time_us) t ≡ true)

contains_zero-HasZero : (ts : List ℤ) → contains_zero ts ≡ true → HasZero ts
unfolding contains_zero is_zero
contains_zero-HasZero [] h = ground arith
contains_zero-HasZero (pos zero ∷ ts) h = inl refl
contains_zero-HasZero (pos (suc n) ∷ ts) h = inr (contains_zero-HasZero ts h)
contains_zero-HasZero (negsuc n ∷ ts) h = inr (contains_zero-HasZero ts h)

is_empty-eq : (ts : List ℤ) → is_empty ts ≡ true → ts ≡ []
unfolding is_empty
is_empty-eq [] h = refl
is_empty-eq (t ∷ ts) h = ground arith

-- A request that is refused has the fault that the refusal names, with the number of timings, the
-- frequency, the gain or the air time that is out of bounds.
pub validate-Reason : (r : Transmit) (e : Invalid) → validate r ≡ err e → Reason r e
unfolding validate check_air_time in_tuning_range excess_gain
validate-Reason r empty h = ground (arith, is_empty-eq r.timings)
validate-Reason r zero_timing h = contains_zero-HasZero r.timings (ground arith)
validate-Reason r (too_many_timings n) h = ground arith
validate-Reason r (frequency_out_of_range f) h = ground arith
validate-Reason r (gain_too_high g) h = ground arith
validate-Reason r (air_time_too_long t) h = ground arith
