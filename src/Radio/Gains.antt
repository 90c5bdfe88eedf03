-- ===== src/Radio/Gains.antt =====
-- The settings that the hardware can represent, `validate_rx_gains`, `validate_tx_gain` and
-- `validate_sample_rate` of proxyd/src/radio.rs. The texts of the refusals are not modelled.
use hackrf_proxy.Base.{ℕ, ◌%◌, Bool, ◌&&◌, leb, ◌==◌, if◌then◌else◌, not}
use hackrf_proxy.Base.Results.{Result, ok, err}

pub data Refusal : Type 0 where
  lna_gain vga_gain tx_gain sample_rate : ℕ → Refusal

unfoldable pub ensure : Bool → Refusal → Result Refusal (Unit {0})
ensure test refusal = if test then ok tt else err refusal

unfoldable pub validate_rx_gains : ℕ → ℕ → Result Refusal (Unit {0})
unfolding ensure
validate_rx_gains lna_db vga_db =
    if not (leb lna_db 40 && (lna_db % 8 == 0))
    then err (lna_gain lna_db)
    else ensure (leb vga_db 62 && (vga_db % 2 == 0)) (vga_gain vga_db)

unfoldable pub validate_tx_gain : ℕ → Result Refusal (Unit {0})
unfolding ensure
validate_tx_gain txvga_db = ensure (leb txvga_db 47) (tx_gain txvga_db)

unfoldable pub validate_sample_rate : ℕ → Result Refusal (Unit {0})
unfolding ensure
validate_sample_rate rate = ensure (leb 2_000_000 rate && leb rate 20_000_000) (sample_rate rate)
