-- ===== src/Radio/Device.antt =====
-- The HackRF behind the arbiter's `Transceiver`, `Device` of proxyd/src/radio.rs. The driver
-- (seify_hackrfone) is a parameter, over the state `W` of the world.
pub mod Transmission
pub mod Failure
use hackrf_proxy.Base.{
  ℕ, zero, suc, ◌+◌, Bool, true, false, Option, none, some, List, [], ◌∷◌, String, length,
  replicate, take, drop,
}
use hackrf_proxy.Base.Results.{Error, Result, ok, err}
use hackrf_proxy.Radio.Gains.{Refusal, validate_tx_gain, validate_rx_gains, validate_sample_rate}
use hackrf_proxy.Radio.Driver.{
  Driver, DriverConfig, open_radio, write_all, transfers, transfer_size, in_flight_transfers,
}
use hackrf_proxy.Engine.World.{Transceiver, TxParams}

pub record DeviceSettings : Type 0 where
  pub sample_rate : ℕ
  pub lna_db : ℕ
  pub vga_db : ℕ
  pub rx_amp : Bool

pub record Device (Handle Stream : Type 0) : Type 0 where
  pub settings : DeviceSettings
  pub radio : Option Handle
  pub rx : Option Stream

module _ {Handle Stream : Type 0} where
  unfoldable pub new : DeviceSettings → Result Refusal (Device Handle Stream)
  new settings = elim (validate_rx_gains settings.lna_db settings.vga_db) [
    | err e ↦ err e
    | ok u ↦ elim (validate_sample_rate settings.sample_rate) [
      | err e ↦ err e
      | ok v ↦ ok (record { settings = settings; radio = none; rx = none })
    ]
  ]

  unfoldable pub invalidate : Device Handle Stream → Device Handle Stream
  invalidate d = record d { radio = none; rx = none }

  unfoldable pub config : Device Handle Stream → ℕ → ℕ → Bool → DriverConfig
  config d frequency_hz txvga_db amp_enable = record {
    lna_db = d.settings.lna_db;
    vga_db = d.settings.vga_db;
    txvga_db = txvga_db;
    amp_enable = amp_enable;
    antenna_enable = false;
    frequency_hz = frequency_hz;
    sample_rate_hz = d.settings.sample_rate;
    sample_rate_div = 1;
  }

module _ {Handle Stream W : Type 0} (drv : Driver Handle Stream W) where
  -- The handle, opened if there is none.
  unfoldable pub handle : Device Handle Stream × W → Result Error Handle × Device Handle Stream × W
  handle (d, w) = elim d.radio [
    | some h ↦ (ok h, d, w)
    | none ↦
        let (opened, w') = open_radio drv w in
        elim opened [ ok h ↦ (ok h, record d { radio = some h }, w') | err e ↦ (err e, d, w') ]
  ]

  -- The closure in `start_rx`.
  unfoldable pub open_rx_stream : Handle → DriverConfig → W → Result Error Stream × W
  open_rx_stream h c w =
      let (started, w') = drv.start_rx h c w in
      elim started [ err e ↦ (err e, w') | ok u ↦ drv.start_rx_stream h transfer_size w' ]

  unfoldable pub start_rx :
      ℕ → Device Handle Stream × W → Result Error (Unit {0}) × (Device Handle Stream × W)
  unfolding handle open_rx_stream config invalidate
  start_rx frequency_hz s =
      let (opened, d, w) = handle s in
      elim opened [
        | err e ↦ (err e, (d, w))
        | ok h ↦
            let (result, w') = open_rx_stream h (config d frequency_hz 0 d.settings.rx_amp) w in
            elim result [
              | ok stream ↦ (ok tt, (record d { rx = some stream }, w'))
              | err e ↦ (err e, (invalidate d, w'))
            ]
      ]

  unfoldable pub read :
      List ℕ
      → Device Handle Stream × W
      → Result Error (Unit {0}) × List ℕ × (Device Handle Stream × W)
  unfolding invalidate
  read out (d, w) = elim d.rx [
    | none ↦ (err drv.not_receiving, out, (d, w))
    | some stream ↦
        let (chunk, w') = drv.read_sync stream transfer_size w in
        elim chunk [ ok bytes ↦ (ok tt, bytes, (d, w')) | err e ↦ (err e, out, (invalidate d, w')) ]
  ]

  unfoldable pub stop :
      Device Handle Stream × W → Result Error (Unit {0}) × (Device Handle Stream × W)
  unfolding invalidate
  stop (d, w) =
      let d' = record d { rx = none } in
      elim d.radio [
        | none ↦ (ok tt, (d', w))
        | some h ↦
            let (stopped, w') = drv.stop h w in
            elim stopped [ ok u ↦ (ok tt, (d', w')) | err e ↦ (err e, (invalidate d', w')) ]
      ]

  -- The closure in `transmit`.
  unfoldable pub send_samples : Handle → DriverConfig → List ℕ → W → Result Error (Unit {0}) × W
  unfolding write_all
  send_samples h c samples w =
      let (started, w₁) = drv.start_tx h c w in
      elim started [
        | err e ↦ (err e, w₁)
        | ok u ↦
            let (opened, w₂) = drv.start_tx_stream h w₁ in
            elim opened [
              | err e ↦ (err e, w₂)
              | ok stream ↦
                  let (sent, w₃) = write_all drv stream (transfers samples).0 w₂ in
                  elim sent [
                    | err e ↦ (err e, w₃)
                    | ok v ↦ write_all drv stream (transfers samples).1 w₃
                  ]
            ]
      ]

  -- The end of `transmit`: the transmitter is stopped, whatever the outcome.
  unfoldable pub stop_transmitter :
      Handle
      → Result Error (Unit {0})
      → Device Handle Stream × W
      → Result Error (Unit {0}) × (Device Handle Stream × W)
  unfolding invalidate
  stop_transmitter h result (d, w) =
      let (stopped, w') = drv.stop h w in
      elim stopped [
        | err e ↦ (err e, (invalidate d, w'))
        | ok u ↦ elim result [ ok v ↦ (ok tt, (d, w')) | err e ↦ (err e, (invalidate d, w')) ]
      ]

  unfoldable pub transmit :
      TxParams
      → List ℕ
      → Device Handle Stream × W
      → Result Error (Unit {0}) × (Device Handle Stream × W)
  unfolding handle send_samples stop_transmitter config
  transmit params samples s = elim (validate_tx_gain params.txvga_db) [
    | err e ↦ (err (drv.refusal_text e), s)
    | ok u ↦
        let (opened, d, w) = handle s in
        elim opened [
          | err e ↦ (err e, (d, w))
          | ok h ↦
              let c = config d params.frequency_hz params.txvga_db params.amp_enable in
              let (result, w') = send_samples h c samples w in stop_transmitter h result (d, w')
        ]
  ]

  unfoldable pub describe :
      Device Handle Stream × W → Result Error String × (Device Handle Stream × W)
  unfolding handle invalidate
  describe s =
      let (opened, d, w) = handle s in
      elim opened [
        | err e ↦ (err e, (d, w))
        | ok h ↦
            let (answer, w') = drv.identify h w in
            elim answer [ ok text ↦ (ok text, (d, w')) | err e ↦ (err e, (invalidate d, w')) ]
      ]

  -- `impl Transceiver for Device`
  abbrev pub device_transceiver : Transceiver (Device Handle Stream × W)
  device_transceiver = record {
    start_rx = start_rx;
    read = read;
    stop = stop;
    transmit = transmit;
    describe = describe;
  }
