-- ===== src/Engine/Arbiter/Availability.antt =====
-- Whether what clients were last told of the radio is what it does, over `publish` and the rounds
-- of `run` in proxyd/src/engine.rs.
use hackrf_proxy.Base.{
  ℕ, Bool, true, false, Option, none, some, List, [], ◌∷◌, ◌≡◌, ◌⊎◌, inl, inr, refl, ◌∙◌, arith,
}
use hackrf_proxy.Base.Int.{ℤ}
use hackrf_proxy.Base.Floats.{F64}
use hackrf_proxy.Base.Results.{Error, Result, ok, err}
use hackrf_proxy.Wire.{Transmit, idle}
use hackrf_proxy.Ook.Detector
use hackrf_proxy.Ook.Detector.{Burst}
use hackrf_proxy.Engine.World.{Transceiver, Os}
use hackrf_proxy.Engine.State.{
  Config, Sys, current_state, publish, announce, back_off, fault, is_receiving,
}
use hackrf_proxy.Engine.Commands.{
  transmit, configure_rx, status, device_arrived, stop_receiver, send_frame, send_if_stopped,
  transmit_request, conclude, handle_transmit, handle_configure, handle_arrival, handle, send_reply,
  set_running,
}
use hackrf_proxy.Engine.Receive.{
  publish_burst, publish_bursts, prove_receiving, detect, read_transfer, pump, retry,
}
use hackrf_proxy.Engine.Arbiter.{
  Inbox, received, empty, disconnected, start, drive, round, run_from, run,
}
use hackrf_proxy.Engine.Arbiter.Told.{told, run-Recorded}

module _ {F W : Type 0} where
  -- The state that is kept as the last one announced is the current one; before the first announcement it is idle.
  abbrev pub Honest : Sys F W → Type 0
  Honest s =
      (s.state.published ≡ some (current_state s.state))
      ⊎ ((s.state.published ≡ none) × (current_state s.state ≡ idle))

  -- A receiver that is wanted and not faulted, and that the next round has to start.
  abbrev ToStart : Sys F W → Type 0
  ToStart s =
      (s.state.rx_running ≡ false) × (s.state.is_faulted ≡ false) × (s.state.rx_enabled ≡ true)

  publish-Honest : (s : Sys F W) → Honest (publish s)
  unfolding publish current_state
  publish-Honest s = ground arith

module _ (fp : F64) {W : Type 0} (tr : Transceiver W) (os : Os W) where
  open fp use {Float}

  fault-Honest : (s : Sys Float W) → Honest (fault os s)
  unfolding fault current_state
  fault-Honest s = ground arith

  Keeps : Sys Float W → Sys Float W → Type 0
  Keeps s s' =
      (s'.state.published ≡ s.state.published)
      × (s'.state.rx_running ≡ s.state.rx_running)
      × (s'.state.is_faulted ≡ s.state.is_faulted)

  publish_bursts-Keeps : (s : Sys Float W) (bs : List Burst) → Keeps s (publish_bursts os s bs)
  unfolding publish_bursts publish_burst Keeps
  publish_bursts-Keeps s [] = (refl, refl, refl)
  publish_bursts-Keeps s (b ∷ bs) = ground (arith, publish_bursts-Keeps (publish_burst os s b) bs)

  Keeps-Honest : (s s' : Sys Float W) → Keeps s s' → Honest s → Honest s'
  unfolding Keeps current_state
  Keeps-Honest s s' k h = ground arith

  detect-Honest : (s : Sys Float W) → Honest s → Honest (detect fp tr os s)
  unfolding detect
  detect-Honest s h =
      let (d, bursts) = Detector.push fp s.detector s.buffer in
      let s' : Sys Float W = record s { detector = d } in
      Keeps-Honest s' (publish_bursts os s' bursts) (publish_bursts-Keeps s' bursts) h

  read_transfer-Honest : (s : Sys Float W) → Honest s → Honest (read_transfer fp tr os s)
  unfolding read_transfer prove_receiving current_state
  read_transfer-Honest s h =
      let (outcome, buffer, w) = tr.read s.buffer s.world in
      let s' : Sys Float W = record s { buffer = buffer; world = w } in
      ground (arith, fault-Honest s', detect-Honest (prove_receiving os s'))

  pump-Honest :
      (s : Sys Float W)
      → s.state.is_faulted ≡ false
      → Honest s ⊎ (s.state.rx_running ≡ false)
      → Honest (pump fp tr os s)
  unfolding pump set_running
  pump-Honest s f h =
      let (outcome, w) = tr.start_rx s.state.rx_frequency s.world in
      let s' : Sys Float W = record s { world = w } in
      ground (
        arith,
        fault-Honest s',
        read_transfer-Honest s,
        read_transfer-Honest (publish (set_running true s')),
        publish-Honest (set_running true s'),
      )

  retry-Honest : (s : Sys Float W) → Honest s → Honest (retry fp tr os s)
  unfolding retry publish back_off current_state
  retry-Honest s h = ground arith

  drive-Honest : (s : Sys Float W) → Honest s ⊎ ToStart s → Honest (drive fp tr os s)
  unfolding drive is_receiving
  drive-Honest s h = ground (arith, retry-Honest s, pump-Honest s)

  -- A transmission that succeeds ends honestly, or with a receiver to start, unless a faulted radio
  -- is wanted for receiving.
  abbrev EndsWell : Result Error ℤ × Sys Float W → Type 0
  EndsWell (ok d, s) = Honest s ⊎ ToStart s
  EndsWell (err e, s) = Unit

  send_frame-EndsWell :
      (r : Transmit) (s : Sys Float W)
      → s.state.rx_running ≡ false
      → (s.state.is_faulted ≡ true → s.state.rx_enabled ≡ false)
      → EndsWell (send_frame fp tr r s)
  unfolding send_frame announce publish current_state
  send_frame-EndsWell r s n f = ground arith

  transmit_request-EndsWell :
      (r : Transmit) (s : Sys Float W)
      → (s.state.is_faulted ≡ true → s.state.rx_enabled ≡ false)
      → EndsWell (transmit_request fp tr r s)
  unfolding transmit_request send_if_stopped stop_receiver set_running
  transmit_request-EndsWell r s f =
      let (outcome, w) = tr.stop s.world in
      ground (
        arith,
        send_frame-EndsWell r s,
        send_frame-EndsWell r (set_running false (record s { world = w })),
      )

  conclude-EndsWell :
      (p : Result Error ℤ × Sys Float W)
      → EndsWell p
      → Honest (conclude fp tr os p) ⊎ ToStart (conclude fp tr os p)
  unfolding conclude current_state
  conclude-EndsWell (ok d, s) h = h
  conclude-EndsWell (err e, s) h = inl (fault-Honest s)

  handle_transmit-Honest :
      (r : Transmit) (s : Sys Float W)
      → (s.state.is_faulted ≡ true → s.state.rx_enabled ≡ false)
      → Honest (handle_transmit fp tr os r s) ⊎ ToStart (handle_transmit fp tr os r s)
  unfolding handle_transmit
  handle_transmit-Honest r s f =
      conclude-EndsWell (transmit_request fp tr r s) (transmit_request-EndsWell r s f)

  handle_configure-Honest :
      (f : Option ℕ) (b : Bool) (s : Sys Float W) → Honest (handle_configure fp tr os f b s)
  unfolding handle_configure send_reply publish current_state
  handle_configure-Honest f b s = ground arith

  handle_arrival-Honest : (s : Sys Float W) → Honest s → Honest (handle_arrival fp tr os s)
  unfolding handle_arrival current_state
  handle_arrival-Honest s h = ground arith

  -- What the theorem asks of a round: no transmission is requested while the radio is faulted and
  -- wanted for receiving.
  abbrev pub IsQuiet : Inbox → Sys Float W → Type 0
  IsQuiet (received (transmit r)) s = s.state.is_faulted ≡ true → s.state.rx_enabled ≡ false
  IsQuiet (received (configure_rx f b)) s = Unit
  IsQuiet (received status) s = Unit
  IsQuiet (received device_arrived) s = Unit
  IsQuiet empty s = Unit
  IsQuiet disconnected s = Unit

  round-Honest :
      (i : Inbox) (s : Sys Float W) → IsQuiet i s → Honest s → Honest (round fp tr os i s)
  unfolding round handle
  round-Honest (received (transmit r)) s q h = drive-Honest _ (handle_transmit-Honest r s q)
  round-Honest (received (configure_rx f b)) s q h =
      drive-Honest _ (inl (handle_configure-Honest f b s))
  round-Honest (received status) s q h = drive-Honest _ (inl h)
  round-Honest (received device_arrived) s q h = drive-Honest _ (inl (handle_arrival-Honest s h))
  round-Honest empty s q h = ground (arith, drive-Honest s (inl h))
  round-Honest disconnected s q h = h

  -- Every round of a run is quiet.
  abbrev pub AllQuiet : List Inbox → Sys Float W → Type 0
  AllQuiet [] s = Unit
  AllQuiet (i ∷ inbox) s = IsQuiet i s × AllQuiet inbox (round fp tr os i s)

  run_from-Honest :
      (inbox : List Inbox) (s : Sys Float W)
      → AllQuiet inbox s
      → Honest s
      → Honest (run_from fp tr os inbox s)
  unfolding run_from
  run_from-Honest [] s q h = h
  run_from-Honest (received c ∷ inbox) s q h =
      run_from-Honest inbox (round fp tr os (received c) s) q.1 (round-Honest (received c) s q.0 h)
  run_from-Honest (empty ∷ inbox) s q h =
      run_from-Honest inbox (round fp tr os empty s) q.1 (round-Honest empty s q.0 h)
  run_from-Honest (disconnected ∷ inbox) s q h = round-Honest disconnected s q.0 h

  -- After any number of rounds the last event on the radio's state that was sent says what the state
  -- is (no such event was sent, and it is idle, before the first), if no transmission is requested
  -- while the radio is faulted and wanted for receiving.
  pub run_announces_state :
      (config : Config Float) (w : W) (inbox : List Inbox)
      → AllQuiet inbox (start fp tr os config w)
      → let s = run fp tr os config w inbox in
        (told s.events ≡ some (current_state s.state))
        ⊎ ((told s.events ≡ none) × (current_state s.state ≡ idle))
  unfolding run start current_state
  run_announces_state config w inbox q =
      let s = run fp tr os config w inbox in
      let recorded = run-Recorded fp tr os config w inbox in
      elim (run_from-Honest inbox (start fp tr os config w) q (inr (refl, refl))) [
        | inl now ↦ inl (recorded ∙ now)
        | inr (never, idle_now) ↦ inr (recorded ∙ never, idle_now)
      ]
