-- ===== src/Radio/Align.antt =====
-- Padding to whole USB transfers, `pad_to_alignment` of proxyd/src/radio.rs.
pub mod Padding
use hackrf_proxy.Base.{ℕ, ◌-◌, ◌%◌, List, ◌++◌, ◌==◌, if◌then◌else◌, length, replicate}

abbrev pub xfer_align : ℕ
xfer_align = 512

unfoldable pub pad_to_alignment : List ℕ → List ℕ
pad_to_alignment samples =
    let remainder = length samples % xfer_align in
    if remainder == 0 then samples else samples ++ replicate (xfer_align - remainder) 0
