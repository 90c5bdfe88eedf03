-- ===== src/Cli/Commands/Replay.antt =====
-- `transmit` of proxyd/src/main.rs sends what the daemon sends.
use hackrf_proxy.Base.{ℕ, List, [], ◌∷◌, ◌≡◌, subst}
use hackrf_proxy.Base.Results.{Error, Result, ok}
use hackrf_proxy.Base.Programs.{EndsIn}
use hackrf_proxy.Base.Int.{ℤ, pos}
use hackrf_proxy.Base.Floats.{F64}
use hackrf_proxy.Wire.{Transmit}
use hackrf_proxy.Engine.World.{Transceiver, TxParams}
use hackrf_proxy.Engine.State.{Config, config_new}
use hackrf_proxy.Engine.Commands.{tx_params, waveform}
use hackrf_proxy.Ook.Render.{render_transmission}
use hackrf_proxy.Radio.Align.{pad_to_alignment}
use hackrf_proxy.Radio.Driver.{Driver}
use hackrf_proxy.Radio.Device
use hackrf_proxy.Radio.Device.{Device}
use hackrf_proxy.Radio.Device.Transmission.{Call, logged, written}
use hackrf_proxy.Radio.Send.Sameness.{send-same}
use hackrf_proxy.Cli.Options.{TransmitOptions, ServeOptions}
use hackrf_proxy.Cli.Commands.{Shell, transmit_timings, transmit_params, serve_config}

module _ {Handle Stream W : Type 0} (drv : Driver Handle Stream W) (fp : F64)
    {Listener Arrivals : Type 0}
    (sh : Shell (Device Handle Stream) (Config fp.Float) Listener Arrivals (List Call × W))
    (d : Device Handle Stream) (l : List Call) (w w' : W) where
  -- What the daemon's radio makes of a buffer.
  abbrev pub sent :
      TxParams → List ℕ → Result Error (Unit {0}) × (Device Handle Stream × (List Call × W))
  sent params samples = Device.transmit (logged drv) params samples (d, (l, w'))

  frame-same :
      (o : TransmitOptions) (params : TxParams) (ts : List ℤ) (samples : List ℕ)
      → pad_to_alignment (render_transmission fp ts o.repeat o.gap_us o.rate (pos 100)) ≡ samples
      → (sent params samples).0 ≡ ok tt
      → EndsIn
          (λ u s. written s.0 ≡ written (sent params samples).1.1.0)
          (transmit_timings (logged drv) fp sh ts o (l, w))
  unfolding transmit_timings
  frame-same o params [] samples h e = tt
  frame-same o params (t ∷ ts) samples h e =
      subst
        (λ x.
          (sent params x).0 ≡ ok tt
          → EndsIn (λ u s. written s.0 ≡ written (sent params x).1.1.0)
              (transmit_timings (logged drv) fp sh (t ∷ ts) o (l, w)))
        h
        (send-same drv sh.nothing_to_send (transmit_params o) params
          (pad_to_alignment (render_transmission fp (t ∷ ts) o.repeat o.gap_us o.rate (pos 100))) d
          l w w')
        e

  -- Repeating a frame from the command line writes the same bytes to the radio as the daemon writes
  -- for a request with the same timings, repetitions and gap, if the two run at the same sample rate
  -- and neither fails.
  pub transmit_timings-same :
      (tr : Transceiver (Device Handle Stream × (List Call × W))) (o : TransmitOptions)
      (so : ServeOptions) (r : Transmit)
      → o.rate ≡ so.rate
      → o.repeat ≡ r.repeat
      → o.gap_us ≡ r.gap_us
      → let config = serve_config fp so in
        let answer = sent (tx_params r config) (waveform fp tr r config) in
        answer.0 ≡ ok tt
        → EndsIn
            (λ u s. written s.0 ≡ written answer.1.1.0)
            (transmit_timings (logged drv) fp sh r.timings o (l, w))
  unfolding waveform serve_config config_new
  transmit_timings-same tr o so r rate repeat gap e =
      frame-same o _ r.timings _ (cc (rate, repeat, gap)) e
