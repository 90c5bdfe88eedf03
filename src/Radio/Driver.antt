-- ===== src/Radio/Driver.antt =====
-- The driver of the HackRF (seify_hackrfone), a parameter over the state `W` of the world, and what
-- proxyd/src/radio.rs does with it wherever it opens or feeds a radio.
use hackrf_proxy.Base.{
  ℕ, zero, suc, ◌+◌, Bool, Option, none, some, List, [], ◌∷◌, String, length, replicate, take, drop,
}
use hackrf_proxy.Base.Results.{Error, Result, ok, err}
use hackrf_proxy.Radio.Gains.{Refusal}

abbrev pub transfer_size : ℕ
transfer_size = 32_768

abbrev pub in_flight_transfers : ℕ
in_flight_transfers = 3

-- `seify_hackrfone::Config`
pub record DriverConfig : Type 0 where
  pub lna_db : ℕ
  pub vga_db : ℕ
  pub txvga_db : ℕ
  pub amp_enable : Bool
  pub antenna_enable : Bool
  pub frequency_hz : ℕ
  pub sample_rate_hz : ℕ
  pub sample_rate_div : ℕ

-- The calls of the driver. `scan` lists the bus and the address of every HackRF, if the enumeration
-- works; `identify` is `board_id` and `version`, put together as the description. A stream is dropped
-- by forgetting it. The last four are the texts of errors, of which `no_radio` and `no_access` wrap
-- the driver's own.
pub record Driver (Handle Stream W : Type 0) : Type 0 where
  pub open_first : W → Result Error Handle × W
  pub scan : W → Option (List (ℕ × ℕ)) × W
  pub set_freq : Handle → ℕ → W → Result Error (Unit {0}) × W
  pub start_rx : Handle → DriverConfig → W → Result Error (Unit {0}) × W
  pub start_rx_stream : Handle → ℕ → W → Result Error Stream × W
  pub read_sync : Stream → ℕ → W → Result Error (List ℕ) × W
  pub start_tx : Handle → DriverConfig → W → Result Error (Unit {0}) × W
  pub start_tx_stream : Handle → W → Result Error Stream × W
  pub write_sync : Stream → List ℕ → W → Result Error (Unit {0}) × W
  pub stop : Handle → W → Result Error (Unit {0}) × W
  pub identify : Handle → W → Result Error String × W
  pub refusal_text : Refusal → Error
  pub not_receiving : Error
  pub no_radio : Error → Error
  pub no_access : Error → ℕ → ℕ → Error

-- `samples.chunks(TRANSFER_SIZE)`, on fuel of one for each chunk.
unfoldable pub chunks : ℕ → ℕ → List ℕ → List (List ℕ)
chunks zero size samples = []
chunks (suc fuel) size [] = []
chunks (suc fuel) size (x ∷ xs) = take size (x ∷ xs) ∷ chunks fuel size (drop size (x ∷ xs))

-- What is written to the transmit stream: the samples, then four transfers of silence.
unfoldable pub transfers : List ℕ → List (List ℕ) × List (List ℕ)
unfolding chunks
transfers samples = (
  chunks (length samples) transfer_size samples,
  replicate (in_flight_transfers + 1) (replicate transfer_size 0),
)

-- `HackRf::scan().unwrap_or_default().first()`
abbrev pub first_present : Option (List (ℕ × ℕ)) → Option (ℕ × ℕ)
first_present none = none
first_present (some []) = none
first_present (some (p ∷ ps)) = some p

module _ {Handle Stream W : Type 0} (drv : Driver Handle Stream W) where
  -- Why the radio could not be opened.
  abbrev pub open_error : Error → Option (ℕ × ℕ) → Error
  open_error e none = drv.no_radio e
  open_error e (some (bus, address)) = drv.no_access e bus address

  -- `radio::open`
  unfoldable pub open_radio : W → Result Error Handle × W
  open_radio w =
      let (opened, w₁) = drv.open_first w in
      elim opened [
        | ok h ↦ (ok h, w₁)
        | err e ↦
            let (present, w₂) = drv.scan w₁ in (err (open_error e (first_present present)), w₂)
      ]

  -- `stream.write_sync` of each transfer in turn, up to the first failure.
  unfoldable pub write_all : Stream → List (List ℕ) → W → Result Error (Unit {0}) × W
  write_all stream [] w = (ok tt, w)
  write_all stream (t ∷ ts) w =
      let (written, w') = drv.write_sync stream t w in
      elim written [ ok u ↦ write_all stream ts w' | err e ↦ (err e, w') ]
