-- ===== src/Ook/Histogram/Quantile.antt =====
-- What the histogram of proxyd/src/ook.rs counts, and which magnitude a quantile of it is.
use hackrf_proxy.Base.{
  ℕ, zero, suc, ◌+◌, ◌-◌, ◌≤◌, ◌<◌, ◌≡◌, refl, ◌∙◌, ap, List, [], ◌∷◌, arith, All, length, min, ltb,
  leb, if◌then◌else◌, leb→le, lt→leb_false, leb_false→lt, subst, sym, replicate, Bool-cases, inl,
  inr,
}
use hackrf_proxy.Base.Int.{two64}
use native.Mathlib.Numerals.{add-one}
use hackrf_proxy.Base.Words.{add_u64, add_u64-eq}
use hackrf_proxy.Ook.Histogram.{
  AmplitudeHistogram, bump, scan, new, add_magnitude, add_all, mag_levels, target_count, percentile,
}
use hackrf_proxy.Base.Floats.{F64}

-- How many of the magnitudes are below `v`.
abbrev pub count_below : ℕ → List ℕ → ℕ
count_below v [] = 0
count_below v (m ∷ ms) = (if ltb m v then 1 else 0) + count_below v ms

abbrev sum : List ℕ → ℕ
sum [] = 0
sum (c ∷ cs) = c + sum cs

-- The first `k` buckets together.
abbrev prefix : ℕ → List ℕ → ℕ
prefix zero cs = 0
prefix (suc k) [] = 0
prefix (suc k) (c ∷ cs) = c + prefix k cs

length-bump : (cs : List ℕ) (i : ℕ) → length (bump cs i) ≡ length cs
unfolding bump
length-bump [] i = refl
length-bump (c ∷ cs) zero = refl
length-bump (c ∷ cs) (suc i) = ap suc (length-bump cs i)

sum-bump : (cs : List ℕ) (i : ℕ) → sum cs + 1 < two64 → i < length cs → sum (bump cs i) ≡ sum cs + 1
unfolding bump
sum-bump [] i h k = absurd (omega arith)
sum-bump (c ∷ cs) zero h k = omega arith
sum-bump (c ∷ cs) (suc i) h k = omega (arith, sum-bump cs i (omega arith) (omega arith))

prefix-bump :
    (k : ℕ) (cs : List ℕ) (i : ℕ)
    → sum cs + 1 < two64
    → i < length cs
    → prefix k (bump cs i) ≡ (if ltb i k then 1 else 0) + prefix k cs
unfolding bump
prefix-bump zero cs i h l = ground arith
prefix-bump (suc k) [] i h l = absurd (omega arith)
prefix-bump (suc k) (c ∷ cs) zero h l = ground arith
prefix-bump (suc k) (c ∷ cs) (suc i) h l =
    ground (arith, prefix-bump k cs i (omega arith) (omega arith))

prefix-zeros : (k n : ℕ) → prefix k (replicate n 0) ≡ 0
prefix-zeros zero n = refl
prefix-zeros (suc k) zero = refl
prefix-zeros (suc k) (suc n) = omega (arith, prefix-zeros k n)

-- The buckets hold the magnitudes seen so far.
record Counts (h : AmplitudeHistogram) (seen : ℕ → ℕ) (n : ℕ) : Type 0 where
  buckets : length h.counts ≡ mag_levels
  all_seen : sum h.counts ≡ n
  counted : h.total ≡ n
  below : (k : ℕ) → prefix k h.counts ≡ seen k

add_magnitude-Counts :
    (m : ℕ) (h : AmplitudeHistogram) (seen : ℕ → ℕ) (n : ℕ)
    → m < mag_levels
    → n + 1 < two64
    → Counts h seen n
    → Counts (add_magnitude h m) (λ k. (if ltb m k then 1 else 0) + seen k) (n + 1)
unfolding add_magnitude
add_magnitude-Counts m h seen n small fits c =
    let e : min m (mag_levels - 1) ≡ m = omega arith in
    let room : m < length h.counts = omega (arith, c.buckets) in
    let low : sum h.counts + 1 < two64 = omega (arith, c.all_seen) in
    record {
      buckets = length-bump h.counts (min m (mag_levels - 1)) ∙ c.buckets;
      all_seen = rw e (omega (arith, sum-bump h.counts m low room, c.all_seen));
      counted = omega (arith, c.counted);
      below = λ k. rw e (omega (arith, prefix-bump k h.counts m low room, c.below k));
    }

add_all-Counts :
    (ms : List ℕ) (h : AmplitudeHistogram) (seen : ℕ → ℕ) (n j : ℕ)
    → All (λ m. m < mag_levels) ms
    → n + length ms ≡ j
    → j < two64
    → Counts h seen n
    → Counts (add_all h ms) (λ k. count_below k ms + seen k) j
unfolding add_all
add_all-Counts [] h seen n j small e fits c = record {
  buckets = c.buckets;
  all_seen = omega (arith, c.all_seen);
  counted = omega (arith, c.counted);
  below = λ k. omega (arith, c.below k);
}
add_all-Counts (m ∷ ms) h seen n j small e fits c =
    let rest =
      add_all-Counts ms (add_magnitude h m) (λ k. (if ltb m k then 1 else 0) + seen k) (n + 1) j
        small.1 (omega arith) fits (add_magnitude-Counts m h seen n small.0 (omega arith) c) in
    record {
      buckets = rest.buckets;
      all_seen = rest.all_seen;
      counted = rest.counted;
      below = λ k. omega (arith, rest.below k);
    }

scan_past :
    (cs : List ℕ) (target acc v c : ℕ)
    → acc + c < two64
    → acc + c < target
    → scan target acc v (c ∷ cs) ≡ scan target (acc + c) (v + 1) cs
unfolding scan
scan_past cs target acc v c fits past =
    let e : add_u64 acc c ≡ acc + c = add_u64-eq acc c fits in
    rw e (rw (lt→leb_false target (acc + c) past))

scan_lem :
    (cs : List ℕ) (target acc v : ℕ)
    → acc + sum cs < two64
    → acc < target
    → target ≤ acc + sum cs
    → (k : ℕ) × (scan target acc v cs ≡ v + k)
      × (acc + prefix k cs < target)
      × (target ≤ acc + prefix (suc k) cs)
unfolding scan
scan_lem [] target acc v fits lo hi = absurd (omega arith)
scan_lem (c ∷ cs) target acc v fits lo hi = elim (Bool-cases (leb target (add_u64 acc c))) [
  | inl here ↦ (0, rw here (omega arith), omega arith, le_here (leb→le _ _ here))
  | inr on ↦
      let e : add_u64 acc c ≡ acc + c = add_u64-eq acc c (omega arith) in
      let past : acc + c < target = subst (λ t. t < target) e (leb_false→lt _ _ on) in
      let (k, found, lo', hi') =
        scan_lem cs target (acc + c) (v + 1) (omega arith) past (omega arith) in
      (
        suc k,
        scan_past cs target acc v c (omega arith) past ∙ found ∙ omega arith,
        omega arith,
        omega arith,
      )
]
  where
    le_here : target ≤ add_u64 acc c → target ≤ acc + prefix 1 (c ∷ cs)
    le_here h = omega arith

new-Counts : Counts new (λ k. 0) 0
unfolding new
new-Counts = record {
  buckets = refl;
  all_seen = refl;
  counted = refl;
  below = λ k. prefix-zeros k mag_levels;
}

scan_quantile :
    (ms : List ℕ) (target : ℕ)
    → All (λ m. m < mag_levels) ms
    → length ms < two64
    → 0 < target
    → target ≤ length ms
    → let v = scan target 0 0 (add_all new ms).counts in
      (count_below v ms < target) × (target ≤ count_below (v + 1) ms)
scan_quantile ms target small fits lo hi =
    let c : Counts (add_all new ms) (λ k. count_below k ms + 0) (length ms) =
      add_all-Counts ms new (λ k. 0) 0 (length ms) small (omega arith) fits new-Counts in
    let (k, found, lo', hi') =
      scan_lem (add_all new ms).counts target 0 0 (omega (arith, c.all_seen)) lo
        (omega (arith, c.all_seen)) in
    let e : scan target 0 0 (add_all new ms).counts ≡ k = found ∙ omega arith in
    subst (λ v. (count_below v ms < target) × (target ≤ count_below (v + 1) ms)) (sym e)
      (omega (arith, c.below k), le_next k (c.below (suc k)) hi')
  where
    le_next :
        (k : ℕ)
        → prefix (suc k) (add_all new ms).counts ≡ count_below (suc k) ms + 0
        → target ≤ 0 + prefix (suc k) (add_all new ms).counts
        → target ≤ count_below (k + 1) ms
    le_next k b h = rw add-one (omega arith)

module _ (fp : F64) where
  open fp use {Float}

  percentile-eq-scan :
      (counts : List ℕ) (total n : ℕ) (p : Float)
      → total ≡ n
      → 0 < n
      → percentile fp counts total p ≡ scan (target_count fp n p) 0 0 counts
  unfolding percentile
  percentile-eq-scan counts total n p e h = rw e (ground arith)

  -- Of at least one and fewer than 2^64 magnitudes, all in the histogram's range, the quantile `p` is
  -- the magnitude such that fewer than the target count of them are below it, and at least the target
  -- count are not above it, if the target is at least 1 and at most their number.
  pub percentile_quantile :
      (ms : List ℕ) (p : Float)
      → All (λ m. m < mag_levels) ms
      → length ms < two64
      → 0 < target_count fp (length ms) p
      → target_count fp (length ms) p ≤ length ms
      → let h = add_all new ms in
        let v = percentile fp h.counts h.total p in
        let target = target_count fp (length ms) p in
        (count_below v ms < target) × (target ≤ count_below (v + 1) ms)
  percentile_quantile ms p small fits lo hi =
      let c : Counts (add_all new ms) (λ k. count_below k ms + 0) (length ms) =
        add_all-Counts ms new (λ k. 0) 0 (length ms) small (omega arith) fits new-Counts in
      rw
        (percentile-eq-scan (add_all new ms).counts (add_all new ms).total (length ms) p c.counted
          (omega arith))
        (scan_quantile ms (target_count fp (length ms) p) small fits lo hi)
