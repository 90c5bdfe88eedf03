-- ===== src/Engine/Arbiter/Stale.antt =====
-- The one case in which what `State::transmit` of proxyd/src/engine.rs announced is left standing.
use hackrf_proxy.Base.{◌<◌, true, false, some, ◌≡◌, refl, arith}
use hackrf_proxy.Base.Int.{ℤ}
use hackrf_proxy.Base.Floats.{F64}
use hackrf_proxy.Base.Results.{Error, Result, ok, err}
use hackrf_proxy.Wire.{event, Transmit, air_time_us, transmitting, faulted}
use hackrf_proxy.Engine.World.{Transceiver, Os}
use hackrf_proxy.Engine.State.{Sys, current_state, announce}
use hackrf_proxy.Engine.Commands.{
  transmit, stop_receiver, send_frame, send_if_stopped, transmit_request, conclude, handle_transmit,
  handle, tx_params, waveform,
}
use hackrf_proxy.Engine.Receive.{retry}
use hackrf_proxy.Engine.Arbiter.{received, drive, round}
use hackrf_proxy.Engine.Arbiter.Told.{told}

module _ (fp : F64) {W : Type 0} (tr : Transceiver W) (os : Os W) where
  open fp use {Float}

  retry_early :
      (s : Sys Float W)
      → (os.instant_now s.world).0 < s.state.retry_at
      → ((retry fp tr os s).state ≡ s.state) × ((retry fp tr os s).events ≡ s.events)
  unfolding retry
  retry_early s early = (ground arith, ground arith)

  stop_receiver-eq :
      (s : Sys Float W) → s.state.rx_running ≡ false → stop_receiver tr s ≡ (ok tt, s)
  unfolding stop_receiver
  stop_receiver-eq s n = ground arith

  conclude-eq :
      (p : Result Error ℤ × Sys Float W) {d : ℤ}
      → p.0 ≡ ok d
      → ((conclude fp tr os p).state ≡ (p.1).state) × ((conclude fp tr os p).events ≡ (p.1).events)
  unfolding conclude
  conclude-eq (ok x, s) e = (refl, refl)
  conclude-eq (err x, s) e = cc

  send_frame-eq :
      (r : Transmit) (s : Sys Float W)
      → s.state.rx_enabled ≡ true
      → (tr.transmit (tx_params r s.state.config) (waveform fp tr r s.state.config) s.world).0
        ≡ ok tt
      → let (outcome, s') = send_frame fp tr r s in
        (outcome ≡ ok (air_time_us r))
        × (told s'.events ≡ some transmitting)
        × (s'.state.is_faulted ≡ s.state.is_faulted)
        × (s'.state.rx_enabled ≡ true)
  unfolding send_frame announce event
  send_frame-eq r s e sent = ground arith

  sent_while_faulted :
      (r : Transmit) (s : Sys Float W)
      → s.state.rx_running ≡ false
      → s.state.rx_enabled ≡ true
      → (tr.transmit (tx_params r s.state.config) (waveform fp tr r s.state.config) s.world).0
        ≡ ok tt
      → let s' = handle_transmit fp tr os r s in
        (told s'.events ≡ some transmitting)
        × (s'.state.is_faulted ≡ s.state.is_faulted)
        × (s'.state.rx_enabled ≡ true)
  unfolding handle_transmit transmit_request send_if_stopped
  sent_while_faulted r s n e sent =
      let (outcome, heard, kept, enabled) = send_frame-eq r s e sent in
      rw (stop_receiver-eq s n) (
        rw
          (
            (conclude-eq (send_frame fp tr r s) outcome).0,
            (conclude-eq (send_frame fp tr r s) outcome).1,
          )
          (heard, kept, enabled))

  -- A transmission that succeeds on a radio that is faulted and wanted for receiving leaves an event
  -- that it is transmitting as the last one on its state while it is faulted, at the end of the round in which it is served,
  -- if the retry is not due by then.
  pub transmit_while_faulted :
      (r : Transmit) (s : Sys Float W)
      → s.state.is_faulted ≡ true
      → s.state.rx_enabled ≡ true
      → s.state.rx_running ≡ false
      → (tr.transmit (tx_params r s.state.config) (waveform fp tr r s.state.config) s.world).0
        ≡ ok tt
      → (os.instant_now (handle fp tr os (transmit r) s).world).0
        < (handle fp tr os (transmit r) s).state.retry_at
      → let s'' = round fp tr os (received (transmit r)) s in
        (told s''.events ≡ some transmitting) × (current_state s''.state ≡ faulted)
  unfolding round drive handle current_state
  transmit_while_faulted r s f e n sent early =
      let s' : Sys Float W = handle_transmit fp tr os r s in
      ground (arith, sent_while_faulted r s n e sent, retry_early s' early)
