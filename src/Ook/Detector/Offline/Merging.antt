-- ===== src/Ook/Detector/Offline/Merging.antt =====
-- `push_run` and `emit_run` of proxyd/src/ook.rs, by whether the run that ends is merged.
use hackrf_proxy.Base.{
  ℕ, ◌+◌, ◌≤◌, ◌<◌, Bool, true, false, ◌||◌, some, List, [], ◌∷◌, ◌≡◌, refl, ap, ◌∙◌, arith, ◌⊎◌,
  inl, inr, ltb, same, if◌then◌else◌,
}
use hackrf_proxy.Base.Int.{ℤ, pos, leb_ℤ, ◌+ℤ◌, wrap_i64, i64_max}
use hackrf_proxy.Ook.Runs.{Run, push_run, lengthen}
use hackrf_proxy.Ook.Detector.View.{View, settle, hand_over}

-- Whether a run that ends is merged into the one before.
abbrev pub merges : ℕ → ℕ → Run → Bool → Bool
merges min_samples len p c = ltb len min_samples || same p.on c

pub push_run-merged :
    (min_samples len : ℕ) (p : Run) (older : List Run) (c : Bool) (us : ℤ)
    → merges min_samples len p c ≡ true
    → push_run min_samples (p ∷ older) c len us ≡ lengthen p us ∷ older
unfolding push_run
push_run-merged min_samples len p older c us e = ground arith

pub push_run-next :
    (min_samples len : ℕ) (p : Run) (older : List Run) (c : Bool) (us : ℤ)
    → merges min_samples len p c ≡ false
    → push_run min_samples (p ∷ older) c len us ≡ record { on = c; us = us } ∷ p ∷ older
unfolding push_run
push_run-next min_samples len p older c us e = ground arith

pub push_run-first :
    (min_samples len : ℕ) (c : Bool) (us : ℤ)
    → push_run min_samples [] c len us ≡ record { on = c; us = us } ∷ []
unfolding push_run
push_run-first min_samples len c us = refl

pub settle-merged :
    (min_samples : ℕ) (v : View) (p run : Run)
    → merges min_samples v.len p run.on ≡ true
    → settle min_samples v (some p) run ≡ record v { pending = some (lengthen p run.us) }
settle-merged min_samples v p run e =
    ap
      (λ b.
        if b
        then record v { pending = some (lengthen p run.us) }
        else hand_over (record v { pending = some run }) p)
      e

pub settle-next :
    (min_samples : ℕ) (v : View) (p run : Run)
    → merges min_samples v.len p run.on ≡ false
    → settle min_samples v (some p) run ≡ hand_over (record v { pending = some run }) p
settle-next min_samples v p run e =
    ap
      (λ b.
        if b
        then record v { pending = some (lengthen p run.us) }
        else hand_over (record v { pending = some run }) p)
      e

fits-add : (x y : ℕ) → x + y ≤ i64_max → wrap_i64 (pos x +ℤ pos y) ≡ pos (x + y)
fits-add x y h = ground arith

-- The duration of a run that takes in another.
pub longer_us :
    (a b : ℤ) (x y : ℕ) → a ≡ pos x → b ≡ pos y → x + y ≤ i64_max → wrap_i64 (a +ℤ b) ≡ pos (x + y)
longer_us a b x y e f h =
    ap (λ t. wrap_i64 (t +ℤ b)) e ∙ ap (λ t. wrap_i64 (pos x +ℤ t)) f ∙ fits-add x y h

-- A gap that gets longer is one.
pub long-add : (gap : ℤ) (x y : ℕ) → leb_ℤ gap (pos x) ≡ true → leb_ℤ gap (pos (x + y)) ≡ true
long-add gap x y h = ground arith

pub not_short : (len m x : ℕ) → ltb len m ≡ false → (len < m) ⊎ (1 ≤ x) → 1 ≤ x
not_short len m x e (inl l) = ground arith
not_short len m x e (inr l) = l

pub not_short_of_merges :
    (len m : ℕ) (p : Run) (c : Bool) → merges m len p c ≡ false → ltb len m ≡ false
not_short_of_merges len m p c e = ground arith
