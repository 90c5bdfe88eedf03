-- ===== src/Radio/Align/Padding.antt =====
-- What padding adds, over `pad_to_alignment` of proxyd/src/radio.rs.
use hackrf_proxy.Base.{
  false, ℕ, ◌+◌, ◌-◌, ◌%◌, ◌<◌, List, ◌++◌, ◌≡◌, ◌⊎◌, arith, ◌==◌, length, replicate, append-nil,
  length-append, length-replicate, inl, inr,
}
use hackrf_proxy.Radio.Align.{xfer_align, pad_to_alignment}

pad_amount :
    (n : ℕ) → (n % 512 ≡ 0) ⊎ (((n % 512 == 0) ≡ false) × ((n + (512 - n % 512)) % 512 ≡ 0))
pad_amount n = ground arith

abbrev zeros : ℕ → List ℕ
zeros k = replicate k 0

-- Padding brings the length to a multiple of 512 with fewer than 512 bytes, all of them zero and
-- behind the samples.
pub pad_to_alignment_lem :
    (xs : List ℕ)
    → (k : ℕ) × (pad_to_alignment xs ≡ xs ++ replicate k 0)
      × (k < xfer_align)
      × (length (pad_to_alignment xs) % xfer_align ≡ 0)
unfolding pad_to_alignment
pad_to_alignment_lem xs = elim (pad_amount (length xs)) [
  | inl aligned ↦ (0, ground (arith, append-nil xs), omega arith, ground arith)
  | inr (short, whole) ↦ (
    512 - length xs % 512,
    rw short,
    ground arith,
    rw short (
        rw (length-append xs (zeros (512 - length xs % 512)))
          (rw (length-replicate {A = ℕ} (512 - length xs % 512) 0) whole)),
  )
]
