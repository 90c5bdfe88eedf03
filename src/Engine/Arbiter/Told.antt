-- ===== src/Engine/Arbiter/Told.antt =====
-- What clients were last told of the radio's state, in the events that proxyd/src/engine.rs sends, and
-- the field `published` that it keeps of it.
use hackrf_proxy.Base.{
  ℕ, Bool, true, false, Option, none, some, List, [], ◌∷◌, ◌≡◌, refl, arith, if-elim, inl, inr,
}
use hackrf_proxy.Base.Int.{ℤ}
use hackrf_proxy.Base.Words.{add_u64}
use hackrf_proxy.Base.Results.{Error, Result, ok, err, Result-cases}
use hackrf_proxy.Base.Floats.{F64}
use hackrf_proxy.Wire.{Transmit, DeviceState, Message, MessagePayload, event, transmitting}
use hackrf_proxy.Ook.Detector.{Burst}
use hackrf_proxy.Engine.World.{Transceiver, Os}
use hackrf_proxy.Engine.State.{
  Config, Sys, is_published, current_state, publish, announce, back_off, fault,
}
use hackrf_proxy.Engine.Commands.{
  Command, transmit, configure_rx, status, device_arrived, stop_receiver, send_frame,
  send_if_stopped, transmit_request, conclude, handle_transmit, retune_state, start_receiver,
  handle_configure, handle_arrival, handle, send_reply, set_running, transmit_succeeded, tx_params,
  waveform,
}
use hackrf_proxy.Engine.Receive.{
  publish_burst, publish_bursts, prove_receiving, detect, read_transfer, pump, reopen, retry,
}
use hackrf_proxy.Engine.Arbiter.{
  Inbox, received, empty, disconnected, drive, round, start, run_from, run,
}

-- The state that an event announces, or else what was told before.
abbrev pub told_by : MessagePayload → Option DeviceState → Option DeviceState
told_by (MessagePayload.device_state state) before = some state
told_by (MessagePayload.rx_frame frame) before = before
told_by (MessagePayload.transmitted d) before = before
told_by (MessagePayload.error e) before = before
told_by (MessagePayload.status s) before = before

-- The state that the last event of its kind announces; events are newest first.
abbrev pub told : List Message → Option DeviceState
told [] = none
told (m ∷ events) = told_by m.payload (told events)

module _ {F W : Type 0} where
  abbrev pub Recorded : Sys F W → Type 0
  Recorded s = told s.events ≡ s.state.published

  announce-Recorded : (d : DeviceState) (s : Sys F W) → Recorded (announce d s)
  unfolding announce event
  announce-Recorded d s = refl

  pub publish-Recorded : (s : Sys F W) → Recorded s → Recorded (publish s)
  unfolding publish
  publish-Recorded s h =
      if-elim Recorded (is_published s.state.published (current_state s.state)) s
        (announce (current_state s.state) s) (λ e. h)
        (λ e. announce-Recorded (current_state s.state) s)

module _ (fp : F64) {W : Type 0} (tr : Transceiver W) (os : Os W) where
  open fp use {Float}

  fault-Recorded : (s : Sys Float W) → Recorded s → Recorded (fault os s)
  unfolding fault back_off
  fault-Recorded s h =
      let counters = record (s.state.counters) {
        device_faults = add_u64 s.state.counters.device_faults 1;
      } in
      let state = record (s.state) {
        is_faulted = true;
        rx_running = false;
        receiving_proven = false;
        counters = counters;
      } in
      let s' : Sys Float W = record s { state = state } in publish-Recorded (back_off os s') h

  transmit_succeeded-Recorded :
      (r : Transmit) (s : Sys Float W) → Recorded s → Recorded (transmit_succeeded fp tr r s).1
  unfolding transmit_succeeded
  transmit_succeeded-Recorded r s h =
      let counters = record (s.state.counters) {
        transmissions = add_u64 s.state.counters.transmissions 1;
      } in
      let s' : Sys Float W = record s { state = record (s.state) { counters = counters } } in
      if-elim Recorded s.state.rx_enabled s' (publish s') (λ e. h) (λ e. publish-Recorded s' h)

  send_frame-Recorded : (r : Transmit) (s : Sys Float W) → Recorded (send_frame fp tr r s).1
  unfolding send_frame
  send_frame-Recorded r s =
      let s' = announce transmitting s in
      let sent =
        tr.transmit (tx_params r s'.state.config) (waveform fp tr r s'.state.config) s'.world in
      let w = (tr.stop sent.1).1 in
      let here = announce-Recorded transmitting s in
      let told_then = transmit_succeeded-Recorded r (record s' { world = w }) here in
      elim (Result-cases sent.0) [ inl (u, e) ↦ ground arith | inr (x, e) ↦ ground arith ]

  send_if_stopped-Recorded :
      (r : Transmit) (p : Result Error (Unit {0}) × Sys Float W)
      → Recorded p.1
      → Recorded (send_if_stopped fp tr r p).1
  unfolding send_if_stopped
  send_if_stopped-Recorded r (ok u, s) h = send_frame-Recorded r s
  send_if_stopped-Recorded r (err e, s) h = h

  stop_receiver-Recorded : (s : Sys Float W) → Recorded s → Recorded (stop_receiver tr s).1
  unfolding stop_receiver set_running
  stop_receiver-Recorded s h = ground arith

  transmit_request-Recorded :
      (r : Transmit) (s : Sys Float W) → Recorded s → Recorded (transmit_request fp tr r s).1
  unfolding transmit_request
  transmit_request-Recorded r s h =
      send_if_stopped-Recorded r (stop_receiver tr s) (stop_receiver-Recorded s h)

  conclude-Recorded :
      (p : Result Error ℤ × Sys Float W) → Recorded p.1 → Recorded (conclude fp tr os p)
  unfolding conclude
  conclude-Recorded (ok d, s) h = h
  conclude-Recorded (err e, s) h = fault-Recorded s h

  start_receiver-Recorded : (s : Sys Float W) → Recorded s → Recorded (start_receiver fp tr os s).1
  unfolding start_receiver set_running
  start_receiver-Recorded s h =
      let (outcome, w) = tr.start_rx s.state.rx_frequency s.world in
      let faulty = fault-Recorded (record s { world = w }) h in ground arith

  retune_state-Recorded :
      (f : Option ℕ) (b : Bool) (s : Sys Float W)
      → Recorded s
      → Recorded (retune_state fp tr os f b s)
  unfolding retune_state
  retune_state-Recorded f b s h = h

  handle_configure-Recorded :
      (f : Option ℕ) (b : Bool) (s : Sys Float W)
      → Recorded s
      → Recorded (handle_configure fp tr os f b s)
  unfolding handle_configure send_reply
  handle_configure-Recorded f true s h =
      let s' = retune_state fp tr os f true s in
      publish-Recorded (start_receiver fp tr os s').1
        (start_receiver-Recorded s' (retune_state-Recorded f true s h))
  handle_configure-Recorded f false s h =
      publish-Recorded (retune_state fp tr os f false s) (retune_state-Recorded f false s h)

  handle-Recorded : (c : Command) (s : Sys Float W) → Recorded s → Recorded (handle fp tr os c s)
  unfolding handle handle_transmit handle_arrival
  handle-Recorded (transmit r) s h =
      conclude-Recorded (transmit_request fp tr r s) (transmit_request-Recorded r s h)
  handle-Recorded (configure_rx f b) s h = handle_configure-Recorded f b s h
  handle-Recorded status s h = h
  handle-Recorded device_arrived s h = ground arith

  publish_bursts-Recorded :
      (s : Sys Float W) (bs : List Burst) → Recorded s → Recorded (publish_bursts os s bs)
  unfolding publish_bursts publish_burst event
  publish_bursts-Recorded s [] h = h
  publish_bursts-Recorded s (b ∷ bs) h = publish_bursts-Recorded (publish_burst os s b) bs h

  detect-Recorded : (s : Sys Float W) → Recorded s → Recorded (detect fp tr os s)
  unfolding detect
  detect-Recorded s h = publish_bursts-Recorded _ _ h

  read_transfer-Recorded : (s : Sys Float W) → Recorded s → Recorded (read_transfer fp tr os s)
  unfolding read_transfer prove_receiving
  read_transfer-Recorded s h =
      let (outcome, buffer, w) = tr.read s.buffer s.world in
      let s' : Sys Float W = record s { buffer = buffer; world = w } in
      ground (arith, fault-Recorded s' h, detect-Recorded (prove_receiving os s'))

  pump-Recorded : (s : Sys Float W) → Recorded s → Recorded (pump fp tr os s)
  unfolding pump set_running
  pump-Recorded s h =
      let (outcome, w) = tr.start_rx s.state.rx_frequency s.world in
      let s' : Sys Float W = record s { world = w } in
      let started = publish (set_running true s') in
      let faulty = fault-Recorded s' h in
      let running = read_transfer-Recorded s h in
      let fresh = read_transfer-Recorded started (publish-Recorded (set_running true s') h) in
      ground arith

  reopen-Recorded : (s : Sys Float W) → Recorded s → Recorded (reopen fp tr os s)
  unfolding reopen back_off
  reopen-Recorded s h =
      let answer = tr.describe (tr.stop s.world).1 in
      elim (Result-cases answer.0) [
        | inl (text, e) ↦
            let s' : Sys Float W = record s {
              state = record (s.state) { device = some text; is_faulted = false };
              world = answer.1;
            } in
            let published = publish-Recorded s' h in ground arith
        | inr (x, e) ↦ ground arith
      ]

  retry-Recorded : (s : Sys Float W) → Recorded s → Recorded (retry fp tr os s)
  unfolding retry
  retry-Recorded s h =
      let (now, w) = os.instant_now s.world in
      let reopened = reopen-Recorded (record s { world = w }) h in ground arith

  drive-Recorded : (s : Sys Float W) → Recorded s → Recorded (drive fp tr os s)
  unfolding drive
  drive-Recorded s h =
      let retried = retry-Recorded s h in let pumped = pump-Recorded s h in ground arith

  pub round-Recorded : (i : Inbox) (s : Sys Float W) → Recorded s → Recorded (round fp tr os i s)
  unfolding round
  round-Recorded (received c) s h = drive-Recorded (handle fp tr os c s) (handle-Recorded c s h)
  round-Recorded empty s h = let driven = drive-Recorded s h in ground arith
  round-Recorded disconnected s h = h

  run_from-Recorded :
      (inbox : List Inbox) (s : Sys Float W) → Recorded s → Recorded (run_from fp tr os inbox s)
  unfolding run_from
  run_from-Recorded [] s h = h
  run_from-Recorded (received c ∷ inbox) s h =
      run_from-Recorded inbox (round fp tr os (received c) s) (round-Recorded (received c) s h)
  run_from-Recorded (empty ∷ inbox) s h =
      run_from-Recorded inbox (round fp tr os empty s) (round-Recorded empty s h)
  run_from-Recorded (disconnected ∷ inbox) s h = h

  pub run-Recorded :
      (config : Config Float) (w : W) (inbox : List Inbox) → Recorded (run fp tr os config w inbox)
  unfolding run start
  run-Recorded config w inbox = run_from-Recorded inbox (start fp tr os config w) refl
