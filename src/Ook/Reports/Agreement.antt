-- ===== src/Ook/Reports/Agreement.antt =====
-- What `compare_bursts` of proxyd/src/ook.rs says when the repeats of a keypress agree.
use hackrf_proxy.Base.{
  ℕ, ◌+◌, ◌-◌, max, ◌≤◌, ◌<◌, ◌==◌, Bool, true, false, some, List, [], ◌∷◌, ◌≡◌, ◌↔◌, refl, sym, ap,
  ◌∙◌, arith, length, All, if◌then◌else◌, Bool-cases, inl, inr,
}
use hackrf_proxy.Base.Int.{ℤ, pos, negsuc, unsigned_abs, pos_part, neg_part}
use hackrf_proxy.Ook.Reports.{
  BurstAgreement, abs_i64, sub_i64, max_ℤ, deviation, compare_rest, compare_bursts,
}

-- Timings whose differences fit in an `i64`: less than 2^61 us.
abbrev pub IsSmall : ℤ → Type 0
IsSmall t = unsigned_abs t < 2_305_843_009_213_693_952

-- |a - b|
abbrev gap : ℤ → ℤ → ℕ
gap a b =
    (pos_part a + neg_part b - (pos_part b + neg_part a))
    + (pos_part b + neg_part a - (pos_part a + neg_part b))

abs_sub : (a b : ℤ) → IsSmall a → IsSmall b → abs_i64 (sub_i64 a b) ≡ pos (gap a b)
abs_sub (pos a) (pos b) h k = ground arith
abs_sub (pos a) (negsuc b) h k = ground arith
abs_sub (negsuc a) (pos b) h k = ground arith
abs_sub (negsuc a) (negsuc b) h k = ground arith

gap-zero : (a b : ℤ) → gap a b ≡ 0 → a ≡ b
gap-zero (pos a) (pos b) h = ap pos (omega arith)
gap-zero (pos a) (negsuc b) h = absurd (omega arith)
gap-zero (negsuc a) (pos b) h = absurd (omega arith)
gap-zero (negsuc a) (negsuc b) h = ap negsuc (omega arith)

gap_self : (a : ℤ) → gap a a ≡ 0
gap_self (pos a) = omega arith
gap_self (negsuc a) = omega arith

-- The deviation, over the natural numbers.
abbrev spread : ℕ → List ℤ → List ℤ → ℕ
spread d [] ys = d
spread d (x ∷ xs) [] = d
spread d (x ∷ xs) (y ∷ ys) = spread (max d (gap x y)) xs ys

deviation-eq-spread :
    (d : ℕ) (xs ys : List ℤ)
    → All IsSmall xs
    → All IsSmall ys
    → deviation (pos d) xs ys ≡ pos (spread d xs ys)
unfolding deviation
deviation-eq-spread d [] ys h k = refl
deviation-eq-spread d (x ∷ xs) [] h k = refl
deviation-eq-spread d (x ∷ xs) (y ∷ ys) h k =
    ap (λ t. deviation t xs ys) (ap (max_ℤ (pos d)) (abs_sub x y h.0 k.0) ∙ max-pos d (gap x y))
    ∙ deviation-eq-spread (max d (gap x y)) xs ys h.1 k.1
  where
    max-pos : (a b : ℕ) → max_ℤ (pos a) (pos b) ≡ pos (max a b)
    max-pos a b = ground arith

spread-grows : (d : ℕ) (xs ys : List ℤ) → d ≤ spread d xs ys
spread-grows d [] ys = omega arith
spread-grows d (x ∷ xs) [] = omega arith
spread-grows d (x ∷ xs) (y ∷ ys) = omega (arith, spread-grows (max d (gap x y)) xs ys)

spread-zero : (d : ℕ) (xs ys : List ℤ) → length ys ≡ length xs → spread d xs ys ≡ 0 → ys ≡ xs
spread-zero d [] [] e h = refl
spread-zero d [] (y ∷ ys) e h = absurd (omega arith)
spread-zero d (x ∷ xs) [] e h = absurd (omega arith)
spread-zero d (x ∷ xs) (y ∷ ys) e h =
    let same_head = gap-zero x y (omega (arith, spread-grows (max d (gap x y)) xs ys)) in
    let same_tail = spread-zero (max d (gap x y)) xs ys (omega arith) h in
    ap (λ t. t ∷ ys) (sym same_head) ∙ ap (λ t. x ∷ t) same_tail

spread_self : (d : ℕ) (xs : List ℤ) → spread d xs xs ≡ d
spread_self d [] = refl
spread_self d (x ∷ xs) = ap (λ t. spread t xs xs) (omega (arith, gap_self x)) ∙ spread_self d xs

abbrev agreement : Bool → ℕ → BurstAgreement
agreement same d = record { same_edge_count = same; max_deviation_us = pos d }

-- One burst more against the first.
abbrev weigh : List ℤ → Bool × ℕ → List ℤ → Bool × ℕ
weigh first (same, d) other =
    if length other == length first then (same, spread d first other) else (false, d)

abbrev verdict : List ℤ → Bool × ℕ → List (List ℤ) → Bool × ℕ
verdict first v [] = v
verdict first v (other ∷ rest) = verdict first (weigh first v other) rest

compare_rest-eq :
    (first : List ℤ) (v : Bool × ℕ) (rest : List (List ℤ))
    → All IsSmall first
    → All (All IsSmall) rest
    → compare_rest first (agreement v.0 v.1) rest
      ≡ agreement (verdict first v rest).0 (verdict first v rest).1
unfolding compare_rest
compare_rest-eq first v [] h k = refl
compare_rest-eq first v (other ∷ rest) h k =
    let fits = deviation-eq-spread v.1 first other h k.0 in
    let next = compare_rest-eq first (weigh first v other) rest h k.1 in
    elim (Bool-cases (length other == length first)) [ inl e ↦ ground arith | inr e ↦ ground arith ]

verdict_sound :
    (first : List ℤ) (v : Bool × ℕ) (rest : List (List ℤ))
    → (verdict first v rest).0 ≡ true
    → (verdict first v rest).1 ≡ 0
    → (v.0 ≡ true) × (v.1 ≡ 0) × All (λ other. other ≡ first) rest
verdict_sound first v [] h k = (h, k, tt)
verdict_sound first v (other ∷ rest) h k =
    let later = verdict_sound first (weigh first v other) rest h k in
    let equal = spread-zero v.1 first other in
    let grown = spread-grows v.1 first other in
    elim (Bool-cases (length other == length first)) [
      | inl e ↦
          let flat : spread v.1 first other ≡ 0 = ground arith in
          (ground arith, omega arith, (equal (ground arith) flat, later.2))
      | inr e ↦ absurd (ground arith)
    ]

verdict_complete :
    (first : List ℤ) (rest : List (List ℤ))
    → All (λ other. other ≡ first) rest
    → verdict first (true, 0) rest ≡ (true, 0)
verdict_complete first [] h = refl
verdict_complete first (other ∷ rest) h =
    ap (λ v. verdict first v rest) (ap (weigh first (true, 0)) h.0 ∙ weigh_self)
    ∙ verdict_complete first rest h.1
  where
    weigh_self : weigh first (true, 0) first ≡ (true, 0)
    weigh_self = ground (arith, spread_self 0 first)

-- The repeats of a keypress, of timings below 2^61 us, are reported to agree, with the same number
-- of edges and no deviation, exactly when each of them is equal to the first.
pub compare_bursts-agree :
    (first : List ℤ) (rest : List (List ℤ))
    → All IsSmall first
    → All (All IsSmall) rest
    → (compare_bursts (first ∷ rest)
        ≡ some (record { same_edge_count = true; max_deviation_us = pos 0 }))
      ↔ All (λ other. other ≡ first) rest
unfolding compare_bursts
compare_bursts-agree first rest h k =
    let e = compare_rest-eq first (true, 0) rest h k in
    let v = verdict first (true, 0) rest in
    (
      λ a. (verdict_sound first (true, 0) rest (ground arith) (ground arith)).2,
      λ a. ap some (e ∙ ap (λ w. agreement w.0 w.1) (verdict_complete first rest a)),
    )
