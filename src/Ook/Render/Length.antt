-- ===== src/Ook/Render/Length.antt =====
-- The shape and the length of a rendered transmission, over `render_transmission` of
-- proxyd/src/ook.rs.
use hackrf_proxy.Base.{
  ℕ, zero, suc, ◌+◌, ◌*◌, true, false, List, [], ◌∷◌, ◌++◌, ◌≡◌, refl, ◌∙◌, ap, arith, ltb,
  if◌then◌else◌, length, append-nil, length-append,
}
use native.Mathlib.Numerals.{add-one}
use hackrf_proxy.Base.Int.{ℤ, pos, -ℤ◌}
use hackrf_proxy.Base.Floats.{F64}
use hackrf_proxy.Ook.Render.{
  fill, sample_count, is_mark, to_u8, synthesize, repeat_frame, render_transmission,
}

-- A frame, and `n` times a gap and the frame again.
abbrev pub spaced : ℕ → List ℕ → List ℕ → List ℕ
spaced zero frame gap = frame
spaced (suc n) frame gap = frame ++ (gap ++ spaced n frame gap)

repeat_frame-eq :
    (n i repeat : ℕ) (frame gap : List ℕ)
    → i + n ≡ repeat
    → repeat_frame (suc n) i repeat frame gap ≡ spaced n frame gap
unfolding repeat_frame
repeat_frame-eq zero i repeat frame gap e =
    let last : ltb i repeat ≡ false = ground arith in rw last (append-nil frame)
repeat_frame-eq (suc n) i repeat frame gap e =
    let more : ltb i repeat ≡ true = ground arith in
    rw more (
      ap (λ rest. frame ++ (gap ++ rest))
        (repeat_frame-eq n (i + 1) repeat frame gap (omega arith)))

-- The samples that the timings take.
abbrev pub sample_total : F64 → ℕ → List ℤ → ℕ
sample_total fp rate [] = 0
sample_total fp rate (t ∷ ts) = sample_count fp rate t + sample_total fp rate ts

length-fill : (n i : ℕ) → length (fill n i) ≡ 2 * n
unfolding fill
length-fill zero i = refl
length-fill (suc n) i = omega (arith, length-fill n i)

pub length-synthesize :
    (fp : F64) (ts : List ℤ) (rate : ℕ) (amplitude : ℤ)
    → length (synthesize fp ts rate amplitude) ≡ 2 * sample_total fp rate ts
unfolding synthesize
length-synthesize fp [] rate amplitude = refl
length-synthesize fp (t ∷ ts) rate amplitude =
    let wave = fill (sample_count fp rate t) (if is_mark t then to_u8 amplitude else 0) in
    length-append wave (synthesize fp ts rate amplitude)
    ∙ omega (
      arith,
      length-fill (sample_count fp rate t) (if is_mark t then to_u8 amplitude else 0),
      length-synthesize fp ts rate amplitude,
    )

length-spaced :
    (n : ℕ) (frame gap : List ℕ)
    → length (spaced n frame gap) ≡ (n + 1) * length frame + n * length gap
length-spaced zero frame gap = omega arith
length-spaced (suc n) frame gap =
    length-append frame (gap ++ spaced n frame gap)
    ∙ omega (arith, length-append gap (spaced n frame gap), length-spaced n frame gap)

twice : (m n a b : ℕ) {x y : ℕ} → x ≡ 2 * a → y ≡ 2 * b → m * x + n * y ≡ 2 * (m * a + n * b)
twice m n a b p q = rw (p, q) (omega arith)

-- A transmission is the frame, and for each repetition the gap and the frame again; so its length is
-- two bytes for every sample of the repeated frame and of the gaps between.
pub render_transmission-eq :
    (fp : F64) (ts : List ℤ) (repeat gap_us rate : ℕ) (amplitude : ℤ)
    → let waveform = render_transmission fp ts repeat gap_us rate amplitude in
      let gap = -ℤ◌ (pos gap_us) ∷ [] in
      (waveform
        ≡ spaced repeat (synthesize fp ts rate amplitude) (synthesize fp gap rate amplitude))
      × (length waveform
          ≡ 2 * ((repeat + 1) * sample_total fp rate ts + repeat * sample_total fp rate gap))
unfolding render_transmission
render_transmission-eq fp ts repeat gap_us rate amplitude =
    let frame = synthesize fp ts rate amplitude in
    let gap = synthesize fp (-ℤ◌ (pos gap_us) ∷ []) rate amplitude in
    let shape : repeat_frame (repeat + 1) 0 repeat frame gap ≡ spaced repeat frame gap =
      rw add-one (repeat_frame-eq repeat 0 repeat frame gap (omega arith)) in
    (
      shape,
      ap length shape
          ∙ length-spaced repeat frame gap
          ∙ twice (repeat + 1) repeat (sample_total fp rate ts)
              (sample_total fp rate (-ℤ◌ (pos gap_us) ∷ []))
              (length-synthesize fp ts rate amplitude)
              (length-synthesize fp (-ℤ◌ (pos gap_us) ∷ []) rate amplitude),
    )
