-- ===== src/Ook/Reports/Widths.antt =====
-- What `width_histogram` of proxyd/src/ook.rs counts.
use native.Mathlib.Nat
use hackrf_proxy.Base.{
  ltb, ltb→lt, ℕ, suc, ◌+◌, ◌-◌, ◌*◌, ◌/◌, ◌%◌, ◌≤◌, ◌<◌, ◌∙◌, Bool, ◌&&◌, ◌==◌, true, false, some,
  List, [], ◌∷◌, subst, ◌≡◌, sym, ap, arith, length, All, if◌then◌else◌, if-elim,
}
use hackrf_proxy.Base.Int.{
  ℤ, pos, negsuc, eq_ℤ, ltb_ℤ, leb_ℤ, ◌+ℤ◌, ◌*ℤ◌, two64, i64_max, unsigned_abs, InI64, wrap_i64,
  wrap_i64-eq_of_InI64, sub_ℕ,
}
use hackrf_proxy.Base.Words.{add_u64}
use hackrf_proxy.Ook.Reports.{bucket_of, bump_key, add_widths, width_histogram}

-- The count under a key, the sum if there were several entries.
abbrev pub count_at : ℤ → List (ℤ × ℕ) → ℕ
count_at k [] = 0
count_at k ((j, n) ∷ m) = (if eq_ℤ k j then n else 0) + count_at k m

-- A width is in the bucket of `w` from `k` on: `k` is a multiple of `w`, and k ≤ t < k + w.
abbrev pub lies_in : ℕ → ℤ → ℤ → Bool
lies_in w k t = (unsigned_abs k % w == 0) && leb_ℤ k t && ltb_ℤ t (k +ℤ pos w)

-- How many widths are in it.
abbrev pub widths_in : ℕ → ℤ → List ℤ → ℕ
widths_in w k [] = 0
widths_in w k (t ∷ ts) = (if lies_in w k t then 1 else 0) + widths_in w k ts

-- More than a bucket away from the ends of an `i64`.
abbrev pub Central : ℕ → ℤ → Type 0
Central w t = unsigned_abs t + w ≤ i64_max

-- The multiple of `w` that begins the bucket of `a`.
floor_unique : (w m a : ℕ) → 0 < w → m % w ≡ 0 → m ≤ a → a < m + w → a / w * w ≡ m
floor_unique w m a h e l u =
    let whole : m / w * w ≡ m = omega (arith, Nat.div-add-mod m w, Nat.mul_comm (m / w) w) in
    let split : m / w * w + (a - m) ≡ a = omega arith in
    let same : a / w ≡ m / w =
      ap (λ x. x / w) (sym split)
      ∙ Nat.mul-add-div_right h (m / w) (a - m)
      ∙ ap (λ x. m / w + x) (Nat.div-eq_of_lt {n = a - m} {m = w} (omega arith))
      ∙ omega arith in
    ap (λ x. x * w) same ∙ whole

bucket_of-pos : (n a : ℕ) → a ≤ i64_max → bucket_of (pos (suc n)) (pos a) ≡ pos (a / suc n * suc n)
unfolding bucket_of
bucket_of-pos n a h =
    let fits : InI64 (pos (a / suc n)) = omega (arith, Nat.div-le_self a (suc n)) in
    let small : InI64 (pos (a / suc n * suc n)) = omega (arith, Nat.div-mul-le_self a (suc n)) in
    ap (λ q. wrap_i64 (q *ℤ pos (suc n))) (wrap_i64-eq_of_InI64 (pos (a / suc n)) fits)
    ∙ wrap_i64-eq_of_InI64 (pos (a / suc n * suc n)) small

negated : (a : ℕ) → sub_ℕ 0 (suc a) ≡ negsuc a
negated a = ground arith

negative_multiple : (n q : ℕ) → negsuc q *ℤ pos (suc n) ≡ negsuc (q * suc n + n)
negative_multiple n q =
    let whole : suc q * suc n ≡ suc (q * suc n + n) = omega arith in
    ap (sub_ℕ 0) whole ∙ negated (q * suc n + n)

bucket_of-negsuc :
    (n a : ℕ)
    → a + suc n ≤ i64_max
    → bucket_of (pos (suc n)) (negsuc a) ≡ negsuc (a / suc n * suc n + n)
unfolding bucket_of
bucket_of-negsuc n a h =
    let fits : InI64 (negsuc (a / suc n)) = omega (arith, Nat.div-le_self a (suc n)) in
    let small : InI64 (negsuc (a / suc n * suc n + n)) =
      omega (arith, Nat.div-mul-le_self a (suc n)) in
    ap (λ q. wrap_i64 (q *ℤ pos (suc n))) (wrap_i64-eq_of_InI64 (negsuc (a / suc n)) fits)
    ∙ ap wrap_i64 (negative_multiple n (a / suc n))
    ∙ wrap_i64-eq_of_InI64 (negsuc (a / suc n * suc n + n)) small

same_truth : {a b : Bool} → (a ≡ true → b ≡ true) → (b ≡ true → a ≡ true) → a ≡ b
same_truth h k = grind arith

-- A positive multiple of `w` is at least `w`.
multiple-le : (w m : ℕ) → 0 < m → m % w ≡ 0 → w ≤ m
multiple-le w m h e =
    if-elim (λ (u : Unit {0}). w ≤ m) (ltb m w) tt tt
      (λ l. absurd (omega (arith, Nat.mod-eq_of_lt (ltb→lt m w l)))) (λ l. ground arith)

lies_in-pos : (n a : ℕ) (k : ℤ) → eq_ℤ k (pos (a / suc n * suc n)) ≡ lies_in (suc n) k (pos a)
lies_in-pos n a (pos m) =
    let floor = a / suc n * suc n in
    same_truth
      (λ h.
        let same : m ≡ floor = ground arith in
        let whole : m % suc n ≡ 0 =
          ap (λ x. x % suc n) same ∙ Nat.mul-mod_left (a / suc n) (suc n) in
        let low = Nat.div-mul-le_self a (suc n) in
        let high = Nat.lt-div-mul-add {a = a} {b = suc n} (omega arith) in ground arith)
      (λ h.
        let same =
          floor_unique (suc n) m a (omega arith) (ground arith) (ground arith) (ground arith) in
        ground arith)
lies_in-pos n a (negsuc m) =
    same_truth (λ h. ground arith)
      (λ h. let wide = multiple-le (suc n) (suc m) (omega arith) (ground arith) in ground arith)

lies_in-negsuc :
    (n a : ℕ) (k : ℤ) → eq_ℤ k (negsuc (a / suc n * suc n + n)) ≡ lies_in (suc n) k (negsuc a)
lies_in-negsuc n a (pos m) = same_truth (λ h. ground arith) (λ h. ground arith)
lies_in-negsuc n a (negsuc m) =
    let floor = a / suc n * suc n in
    same_truth
      (λ h.
        let same : suc m ≡ floor + suc n = ground arith in
        let whole : suc m % suc n ≡ 0 =
          ap (λ x. x % suc n) same
          ∙ Nat.add-mod_right floor (suc n)
          ∙ Nat.mul-mod_left (a / suc n) (suc n) in
        let low = Nat.div-mul-le_self a (suc n) in
        let high = Nat.lt-div-mul-add {a = a} {b = suc n} (omega arith) in ground arith)
      (λ h.
        let whole : suc m % suc n ≡ 0 = ground arith in
        let wide = multiple-le (suc n) (suc m) (omega arith) whole in
        let same =
          floor_unique (suc n) (suc m - suc n) a (omega arith)
            (sym (Nat.mod-eq-sub-mod wide) ∙ whole) (ground arith) (ground arith) in
        ground arith)

-- The bucket of the code is the one that the width lies in.
bucket_of-lies_in :
    (n : ℕ) (k t : ℤ) → Central (suc n) t → eq_ℤ k (bucket_of (pos (suc n)) t) ≡ lies_in (suc n) k t
bucket_of-lies_in n k (pos a) h = ap (eq_ℤ k) (bucket_of-pos n a (omega arith)) ∙ lies_in-pos n a k
bucket_of-lies_in n k (negsuc a) h =
    ap (eq_ℤ k) (bucket_of-negsuc n a (omega arith)) ∙ lies_in-negsuc n a k

-- The keys rise.
abbrev Above : ℤ → List (ℤ × ℕ) → Type 0
Above k [] = Unit
Above k ((j, n) ∷ m) = ltb_ℤ k j ≡ true

abbrev pub Rises : List (ℤ × ℕ) → Type 0
Rises [] = Unit
Rises ((j, n) ∷ m) = Above j m × Rises m

abbrev Small : ℕ → List (ℤ × ℕ) → Type 0
Small s m = All (λ e. e.1 + s < two64) m

eq_ℤ-eq : (a b : ℤ) → eq_ℤ a b ≡ true → a ≡ b
eq_ℤ-eq (pos a) (pos b) h = ap pos (ground arith)
eq_ℤ-eq (negsuc a) (negsuc b) h = ap negsuc (ground arith)
eq_ℤ-eq (pos a) (negsuc b) h = ground arith
eq_ℤ-eq (negsuc a) (pos b) h = ground arith

eq_ℤ_self : (a : ℤ) → eq_ℤ a a ≡ true
eq_ℤ_self (pos a) = ground arith
eq_ℤ_self (negsuc a) = ground arith

above_next : (k j : ℤ) → eq_ℤ k j ≡ false → ltb_ℤ k j ≡ false → ltb_ℤ j k ≡ true
above_next (pos a) (pos b) h k = ground arith
above_next (negsuc a) (negsuc b) h k = ground arith
above_next (pos a) (negsuc b) h k = ground arith
above_next (negsuc a) (pos b) h k = ground arith

bump_key-count :
    (s : ℕ) (q k : ℤ) (m : List (ℤ × ℕ))
    → Small (s + 1) m
    → s + 1 < two64
    → count_at q (bump_key k m) ≡ count_at q m + (if eq_ℤ q k then 1 else 0)
unfolding bump_key
bump_key-count s q k [] h b = ground arith
bump_key-count s q k ((j, n) ∷ m) h b =
    let rest = bump_key-count s q k m h.1 b in
    let small : n + (s + 1) < two64 = h.0 in
    if-elim (λ x. count_at q x ≡ count_at q ((j, n) ∷ m) + (if eq_ℤ q k then 1 else 0)) (eq_ℤ k j) _
      _
      (λ e.
        let same = eq_ℤ-eq k j e in
        subst
          (λ x.
            count_at q ((j, add_u64 n 1) ∷ m)
            ≡ count_at q ((j, n) ∷ m) + (if eq_ℤ q x then 1 else 0))
          (sym same) (ground arith))
      (λ e.
        if-elim (λ x. count_at q x ≡ count_at q ((j, n) ∷ m) + (if eq_ℤ q k then 1 else 0))
          (ltb_ℤ k j) _ _ (λ l. omega arith) (λ l. omega arith))

Small-weaken : (s : ℕ) (m : List (ℤ × ℕ)) → Small (s + 1) m → Small s m
Small-weaken s [] h = tt
Small-weaken s ((j, n) ∷ m) h =
    let here : n + (s + 1) < two64 = h.0 in (omega arith, Small-weaken s m h.1)

bump_key-Small :
    (s : ℕ) (k : ℤ) (m : List (ℤ × ℕ)) → Small (s + 1) m → s + 1 < two64 → Small s (bump_key k m)
unfolding bump_key
bump_key-Small s k [] h b = (omega arith, tt)
bump_key-Small s k ((j, n) ∷ m) h b =
    let rest = bump_key-Small s k m h.1 b in
    let looser = Small-weaken s m h.1 in
    let here : n + (s + 1) < two64 = h.0 in
    if-elim (Small s) (eq_ℤ k j) _ _ (λ e. (ground arith, looser))
      (λ e.
        if-elim (Small s) (ltb_ℤ k j) _ _ (λ l. (omega arith, (omega arith, looser)))
          (λ l. (omega arith, rest)))

bump_key-Above :
    (i k : ℤ) (m : List (ℤ × ℕ)) → Above i m → ltb_ℤ i k ≡ true → Above i (bump_key k m)
unfolding bump_key
bump_key-Above i k [] h l = l
bump_key-Above i k ((j, n) ∷ m) h l =
    if-elim (Above i) (eq_ℤ k j) _ _ (λ e. h)
      (λ e. if-elim (Above i) (ltb_ℤ k j) _ _ (λ f. l) (λ f. h))

bump_key-Rises : (k : ℤ) (m : List (ℤ × ℕ)) → Rises m → Rises (bump_key k m)
unfolding bump_key
bump_key-Rises k [] h = (tt, tt)
bump_key-Rises k ((j, n) ∷ m) h =
    let rest = bump_key-Rises k m h.1 in
    if-elim Rises (eq_ℤ k j) _ _ (λ e. h)
      (λ e.
        if-elim Rises (ltb_ℤ k j) _ _ (λ f. (f, h))
          (λ f. (bump_key-Above j k m h.0 (above_next k j e f), rest)))

add_widths-counts :
    (n s : ℕ) (q : ℤ) (m : List (ℤ × ℕ)) (ts : List ℤ)
    → All (Central (suc n)) ts
    → Small (s + length ts) m
    → s + length ts < two64
    → count_at q (add_widths (pos (suc n)) m ts) ≡ count_at q m + widths_in (suc n) q ts
unfolding add_widths
add_widths-counts n s q m [] c h b = omega arith
add_widths-counts n s q m (t ∷ ts) c h b =
    let k = bucket_of (pos (suc n)) t in
    let room : Small (s + length ts + 1) m = subst (λ x. Small x m) (omega arith) h in
    let now = bump_key-count (s + length ts) q k m room (omega arith) in
    let rest =
      add_widths-counts n s q (bump_key k m) ts c.1
        (bump_key-Small (s + length ts) k m room (omega arith)) (omega arith) in
    let fell = ap {B = ℕ} (λ x. if x then 1 else 0) (bucket_of-lies_in n q t c.0) in
    omega (arith, now, rest, fell)

add_widths-Rises : (w : ℤ) (m : List (ℤ × ℕ)) (ts : List ℤ) → Rises m → Rises (add_widths w m ts)
unfolding add_widths
add_widths-Rises w m [] h = h
add_widths-Rises w m (t ∷ ts) h =
    add_widths-Rises w (bump_key (bucket_of w t) m) ts (bump_key-Rises (bucket_of w t) m h)

-- A width histogram, of fewer than 2^64 widths and with a positive bucket, lists its buckets in
-- rising order, each with the number of the widths in it: those from its beginning, a multiple of
-- the bucket, up to the next one, negative widths too. No width is within a bucket of the ends of an
-- `i64`.
pub width_histogram-counts :
    (timings : List ℤ) (n : ℕ) (m : List (ℤ × ℕ))
    → width_histogram timings (pos (suc n)) ≡ some m
    → All (Central (suc n)) timings
    → length timings < two64
    → Rises m × ((k : ℤ) → count_at k m ≡ widths_in (suc n) k timings)
unfolding width_histogram
width_histogram-counts timings n m h c b =
    let w = pos (suc n) in
    let made : add_widths w [] timings ≡ m = ground arith in
    subst (λ x. Rises x × ((k : ℤ) → count_at k x ≡ widths_in (suc n) k timings)) made
      (
        add_widths-Rises w [] timings tt,
        λ k. omega (arith, add_widths-counts n 0 k [] timings c tt (omega arith)),
      )
