-- ===== src/Base/Text.antt =====
-- Text as its code points, and what Rust's `str` does to it.
use Prim.Native.Nat.{ℕ, ◌+◌}
use mathlib.Core.Path.{◌≡◌, refl, ap, ◌∙◌}
use mathlib.Core.Bool.{Bool, true, false, ◌&&◌, ◌||◌}
use mathlib.Core.Option.{Option, none, some}
use mathlib.Core.List.{List, [], ◌∷◌, ◌++◌, map}
use native.Mathlib.Omega.{arith}
use hackrf_proxy.Base.Tests.{leb, ◌==◌, if◌then◌else◌}
use hackrf_proxy.Base.Lists.{All}

-- `char::is_whitespace`
unfoldable pub is_whitespace : ℕ → Bool
is_whitespace c =
    (leb 9 c && leb c 13)
    || (c == 32)
    || (c == 133)
    || (c == 160)
    || (c == 5760)
    || (leb 8192 c && leb c 8202)
    || (c == 8232)
    || (c == 8233)
    || (c == 8239)
    || (c == 8287)
    || (c == 12288)

-- `char::to_ascii_lowercase`
unfoldable pub lower_char : ℕ → ℕ
lower_char c = if leb b'A' c && leb c b'Z' then c + 32 else c

abbrev pub to_ascii_lowercase : List ℕ → List ℕ
to_ascii_lowercase t = map lower_char t

abbrev pub is_nil : List ℕ → Bool
is_nil [] = true
is_nil (c ∷ cs) = false

unfoldable pub trim_start : List ℕ → List ℕ
trim_start [] = []
trim_start (c ∷ cs) = let rest = trim_start cs in if is_whitespace c then rest else c ∷ cs

unfoldable pub trim_end : List ℕ → List ℕ
trim_end [] = []
trim_end (c ∷ cs) =
    let rest = trim_end cs in if is_whitespace c && is_nil rest then [] else c ∷ rest

unfoldable pub trim : List ℕ → List ℕ
unfolding trim_start trim_end
trim t = trim_start (trim_end t)

abbrev pub same_text : List ℕ → List ℕ → Bool
same_text [] [] = true
same_text [] (b ∷ ys) = false
same_text (a ∷ xs) [] = false
same_text (a ∷ xs) (b ∷ ys) = (a == b) && same_text xs ys

abbrev pub prepend : ℕ → Option (List ℕ) → Option (List ℕ)
prepend c none = none
prepend c (some t) = some (c ∷ t)

-- `str::strip_suffix`, for a suffix that is not empty.
unfoldable pub strip_suffix : List ℕ → List ℕ → Option (List ℕ)
strip_suffix suffix [] = none
strip_suffix suffix (c ∷ cs) =
    let rest = strip_suffix suffix cs in
    if same_text suffix (c ∷ cs) then some [] else prepend c rest

is_whitespace-lower_char : (c : ℕ) → is_whitespace (lower_char c) ≡ is_whitespace c
unfolding is_whitespace lower_char
is_whitespace-lower_char c = ground arith

is_nil-map : (t : List ℕ) → is_nil (map lower_char t) ≡ is_nil t
is_nil-map [] = refl
is_nil-map (c ∷ cs) = refl

-- Case does not change what is trimmed.
trim_start-lower : (t : List ℕ) → trim_start (map lower_char t) ≡ map lower_char (trim_start t)
unfolding trim_start
trim_start-lower [] = refl
trim_start-lower (c ∷ cs) =
    let rest = trim_start-lower cs in let same = is_whitespace-lower_char c in ground arith

trim_end-lower : (t : List ℕ) → trim_end (map lower_char t) ≡ map lower_char (trim_end t)
unfolding trim_end
trim_end-lower [] = refl
trim_end-lower (c ∷ cs) =
    let rest = trim_end-lower cs in
    let same = is_whitespace-lower_char c in let empty = is_nil-map (trim_end cs) in ground arith

pub trim-lower : (t : List ℕ) → trim (map lower_char t) ≡ map lower_char (trim t)
unfolding trim
trim-lower t = ap trim_start (trim_end-lower t) ∙ trim_start-lower (trim_end t)

abbrev pub IsSpace : ℕ → Type 0
IsSpace c = is_whitespace c ≡ true

trim_end-spaces : (vs : List ℕ) → All IsSpace vs → trim_end vs ≡ []
unfolding trim_end
trim_end-spaces [] h = refl
trim_end-spaces (v ∷ vs) h =
    let rest = trim_end-spaces vs h.1 in let space : is_whitespace v ≡ true = h.0 in ground arith

trim_end-append : (t vs : List ℕ) → All IsSpace vs → trim_end (t ++ vs) ≡ trim_end t
unfolding trim_end
trim_end-append [] vs h = trim_end-spaces vs h
trim_end-append (c ∷ cs) vs h = let rest = trim_end-append cs vs h in cc

after_space :
    (w : ℕ) (e : List ℕ)
    → is_whitespace w ≡ true
    → trim_start (if is_whitespace w && is_nil e then [] else w ∷ e) ≡ trim_start e
unfolding trim_start
after_space w [] h = ground arith
after_space w (c ∷ cs) h = ground arith

trim-prepend : (ws t : List ℕ) → All IsSpace ws → trim (ws ++ t) ≡ trim t
unfolding trim trim_start trim_end
trim-prepend [] t h = refl
trim-prepend (w ∷ ws) t h = after_space w (trim_end (ws ++ t)) (h.0) ∙ trim-prepend ws t h.1

-- White space around a text does not matter once it is trimmed.
pub trim-spaces :
    (ws t vs : List ℕ) → All IsSpace ws → All IsSpace vs → trim (ws ++ (t ++ vs)) ≡ trim t
unfolding trim
trim-spaces ws t vs hw hv = trim-prepend ws (t ++ vs) hw ∙ ap trim_start (trim_end-append t vs hv)
