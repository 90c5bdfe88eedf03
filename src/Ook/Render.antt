-- ===== src/Ook/Render.antt =====
-- Rendering timings as baseband, `synthesize` and `render_transmission` of proxyd/src/ook.rs.
pub mod RoundTrip
pub mod Length
pub mod Hearing
use hackrf_proxy.Base.{
  ℕ, zero, suc, ◌+◌, ◌-◌, ◌<◌, Bool, true, false, List, [], ◌∷◌, ◌++◌, ltb, if◌then◌else◌,
}
use hackrf_proxy.Base.Int.{ℤ, pos, negsuc, unsigned_abs, -ℤ◌}
use hackrf_proxy.Base.Floats.{F64}

-- `amplitude as u8`, of an `i8`
abbrev pub to_u8 : ℤ → ℕ
to_u8 (pos n) = n
to_u8 (negsuc n) = 255 - n

abbrev pub is_mark : ℤ → Bool
is_mark (pos n) = ltb 0 n
is_mark (negsuc n) = false

-- `for _ in 0..count { out.push(i); out.push(0) }`
unfoldable pub fill : ℕ → ℕ → List ℕ
fill zero i = []
fill (suc count) i = i ∷ 0 ∷ fill count i

module _ (fp : F64) where
  open fp use {literal, of_ℕ, mul, div, round, to_u64}

  -- `(t.unsigned_abs() as f64 * samples_per_us).round() as usize`
  unfoldable pub sample_count : ℕ → ℤ → ℕ
  sample_count rate t =
      let samples_per_us = div (of_ℕ rate) (literal 1_000_000 0) in
      to_u64 (round (mul (of_ℕ (unsigned_abs t)) samples_per_us))

  unfoldable pub synthesize : List ℤ → ℕ → ℤ → List ℕ
  unfolding fill sample_count
  synthesize [] rate amplitude = []
  synthesize (t ∷ ts) rate amplitude =
      fill (sample_count rate t) (if is_mark t then to_u8 amplitude else 0)
      ++ synthesize ts rate amplitude

-- `for iteration in 0..=repeat`, with the rounds that are left.
unfoldable pub repeat_frame : ℕ → ℕ → ℕ → List ℕ → List ℕ → List ℕ
repeat_frame zero iteration repeat frame gap = []
repeat_frame (suc left) iteration repeat frame gap =
    frame
    ++ ((if ltb iteration repeat then gap else [])
        ++ repeat_frame left (iteration + 1) repeat frame gap)

unfoldable pub render_transmission : F64 → List ℤ → ℕ → ℕ → ℕ → ℤ → List ℕ
unfolding repeat_frame
render_transmission fp timings repeat gap_us rate amplitude =
    repeat_frame (repeat + 1) 0 repeat (synthesize fp timings rate amplitude)
      (synthesize fp (-ℤ◌ (pos gap_us) ∷ []) rate amplitude)
