-- ===== src/Engine/Arbiter/Backoff.antt =====
-- How long the arbiter waits before it asks a failed radio again, over `back_off`, `fault`, `pump`
-- and `retry` of proxyd/src/engine.rs.
use hackrf_proxy.Base.{
  ℕ, ◌+◌, ◌*◌, ◌≤◌, Bool, true, false, Option, List, [], ◌∷◌, All, ◌≡◌, ◌≢◌, refl, arith, min,
}
use hackrf_proxy.Base.Int.{ℤ}
use hackrf_proxy.Base.Floats.{F64}
use hackrf_proxy.Base.Results.{Error, Result, ok, err}
use hackrf_proxy.Wire.{Transmit}
use hackrf_proxy.Ook.Detector
use hackrf_proxy.Ook.Detector.{Burst}
use hackrf_proxy.Engine.World.{Transceiver, Os}
use hackrf_proxy.Engine.State.{
  Config, Sys, publish, announce, back_off, fault, fault_backoff, max_fault_backoff,
}
use hackrf_proxy.Engine.Commands.{
  Command, transmit, configure_rx, status, device_arrived, stop_receiver, send_frame,
  send_if_stopped, transmit_request, conclude, retune_state, start_receiver, handle_configure,
  handle, send_reply, set_running,
}
use hackrf_proxy.Engine.Receive.{
  publish_burst, publish_bursts, prove_receiving, detect, read_transfer, pump, retry,
}
use hackrf_proxy.Engine.Arbiter.{
  Inbox, received, empty, disconnected, start, drive, round, run_from, run,
}

module _ (fp : F64) {W : Type 0} (os : Os W) where
  open fp use {Float}

  -- After a fault the radio is not asked again until twice the interval that was current, or a minute
  -- if that is less, has passed since the clock was read.
  pub fault_waits :
      (s : Sys Float W)
      → let s' = fault os s in
        (s'.state.retry_at
          ≡ (os.instant_now s.world).0 + min (s.state.backoff * 2) max_fault_backoff)
        × (s'.state.backoff ≡ min (s.state.backoff * 2) max_fault_backoff)
  unfolding fault
  fault_waits s = ground arith

module _ (fp : F64) {W : Type 0} (tr : Transceiver W) (os : Os W) where
  open fp use {Float}

  send_frame-backoff :
      (r : Transmit) (s : Sys Float W) → (send_frame fp tr r s).1.state.backoff ≡ s.state.backoff
  unfolding send_frame announce publish
  send_frame-backoff r s = ground arith

  transmit_request-backoff :
      (r : Transmit) (s : Sys Float W)
      → (transmit_request fp tr r s).1.state.backoff ≡ s.state.backoff
  unfolding transmit_request send_if_stopped stop_receiver set_running
  transmit_request-backoff r s =
      let (outcome, w) = tr.stop s.world in
      ground (
        arith,
        send_frame-backoff r s,
        send_frame-backoff r (set_running false (record s { world = w })),
      )

  publish-backoff : (s : Sys Float W) → (publish s).state.backoff ≡ s.state.backoff
  unfolding publish
  publish-backoff s = ground arith

  publish_bursts-backoff :
      (s : Sys Float W) (bs : List Burst) → (publish_bursts os s bs).state.backoff ≡ s.state.backoff
  unfolding publish_bursts
  publish_bursts-backoff s [] = refl
  publish_bursts-backoff s (b ∷ bs) = publish_bursts-backoff (publish_burst os s b) bs

-- The interval is at least `low` and at most a minute. What resets it to two seconds, a transfer that
-- arrives or a radio that does, must not happen unless `low` allows it.
module _ (fp : F64) {W : Type 0} (tr : Transceiver W) (os : Os W) (low : ℕ) where
  open fp use {Float}

  abbrev Bounded : Sys Float W → Type 0
  Bounded s = (low ≤ s.state.backoff) × (s.state.backoff ≤ max_fault_backoff)

  abbrev MayRead : Type 0
  MayRead = (out : List ℕ) (w : W) → (tr.read out w).0 ≡ ok tt → low ≤ fault_backoff

  abbrev MayArrive : Inbox → Type 0
  MayArrive (received device_arrived) = low ≤ fault_backoff
  MayArrive (received (transmit r)) = Unit
  MayArrive (received (configure_rx f b)) = Unit
  MayArrive (received status) = Unit
  MayArrive empty = Unit
  MayArrive disconnected = Unit

  abbrev AllMayArrive : List Inbox → Type 0
  AllMayArrive [] = Unit
  AllMayArrive (i ∷ inbox) = MayArrive i × AllMayArrive inbox

  fault-Bounded : (s : Sys Float W) → Bounded s → Bounded (fault os s)
  fault-Bounded s h = omega (arith, fault_waits fp os s)

  conclude-Bounded :
      (p : Result Error ℤ × Sys Float W) → Bounded p.1 → Bounded (conclude fp tr os p)
  unfolding conclude
  conclude-Bounded (ok d, s) h = h
  conclude-Bounded (err e, s) h = fault-Bounded s h

  start_receiver-Bounded : (s : Sys Float W) → Bounded s → Bounded (start_receiver fp tr os s).1
  unfolding start_receiver set_running
  start_receiver-Bounded s h =
      let (outcome, w) = tr.start_rx s.state.rx_frequency s.world in
      ground (arith, fault-Bounded (record s { world = w }))

  handle_configure-Bounded :
      (f : Option ℕ) (b : Bool) (s : Sys Float W)
      → Bounded s
      → Bounded (handle_configure fp tr os f b s)
  unfolding handle_configure send_reply
  handle_configure-Bounded f true s h =
      let s' : Sys Float W = retune_state fp tr os f true s in
      omega (
        arith,
        publish-backoff fp tr os (start_receiver fp tr os s').1,
        start_receiver-Bounded s' h,
      )
  handle_configure-Bounded f false s h =
      omega (arith, publish-backoff fp tr os (retune_state fp tr os f false s))

  handle-Bounded :
      (c : Command) (s : Sys Float W)
      → MayArrive (received c)
      → Bounded s
      → Bounded (handle fp tr os c s)
  unfolding handle
  handle-Bounded (transmit r) s m h =
      conclude-Bounded (transmit_request fp tr r s)
        (omega (arith, transmit_request-backoff fp tr os r s))
  handle-Bounded (configure_rx f b) s m h = handle_configure-Bounded f b s h
  handle-Bounded status s m h = h
  handle-Bounded device_arrived s m h = ground arith

  read_transfer-Bounded :
      (s : Sys Float W) → MayRead → Bounded s → Bounded (read_transfer fp tr os s)
  unfolding read_transfer detect prove_receiving
  read_transfer-Bounded s m h =
      let (outcome, buffer, w) = tr.read s.buffer s.world in
      let s' : Sys Float W = record s { buffer = buffer; world = w } in
      let p : Sys Float W = prove_receiving os s' in
      let (d, bursts) = Detector.push fp p.detector p.buffer in
      ground (
        arith,
        m s.buffer s.world,
        fault-Bounded s',
        publish_bursts-backoff fp tr os (record p { detector = d }) bursts,
      )

  pump-Bounded : (s : Sys Float W) → MayRead → Bounded s → Bounded (pump fp tr os s)
  unfolding pump set_running
  pump-Bounded s m h =
      let (outcome, w) = tr.start_rx s.state.rx_frequency s.world in
      let s' : Sys Float W = record s { world = w } in
      let up : Sys Float W = publish (set_running true s') in
      ground (
        arith,
        fault-Bounded s',
        read_transfer-Bounded s m h,
        read_transfer-Bounded up m,
        publish-backoff fp tr os (set_running true s'),
      )

  retry-Bounded : (s : Sys Float W) → Bounded s → Bounded (retry fp tr os s)
  unfolding retry publish back_off
  retry-Bounded s h = ground arith

  drive-Bounded : (s : Sys Float W) → MayRead → Bounded s → Bounded (drive fp tr os s)
  unfolding drive
  drive-Bounded s m h = ground (arith, retry-Bounded s h, pump-Bounded s m h)

  round-Bounded :
      (i : Inbox) (s : Sys Float W)
      → MayRead
      → MayArrive i
      → Bounded s
      → Bounded (round fp tr os i s)
  unfolding round
  round-Bounded (received c) s m a h =
      drive-Bounded (handle fp tr os c s) m (handle-Bounded c s a h)
  round-Bounded empty s m a h = ground (arith, drive-Bounded s m h)
  round-Bounded disconnected s m a h = h

  run_from-Bounded :
      (inbox : List Inbox) (s : Sys Float W)
      → MayRead
      → AllMayArrive inbox
      → Bounded s
      → Bounded (run_from fp tr os inbox s)
  unfolding run_from
  run_from-Bounded [] s m a h = h
  run_from-Bounded (received c ∷ inbox) s m a h =
      run_from-Bounded inbox (round fp tr os (received c) s) m a.1
        (round-Bounded (received c) s m a.0 h)
  run_from-Bounded (empty ∷ inbox) s m a h =
      run_from-Bounded inbox (round fp tr os empty s) m a.1 (round-Bounded empty s m a.0 h)
  run_from-Bounded (disconnected ∷ inbox) s m a h = round-Bounded disconnected s m a.0 h

module _ (fp : F64) {W : Type 0} (tr : Transceiver W) (os : Os W) where
  open fp use {Float}

  any_arrival : (inbox : List Inbox) → AllMayArrive fp tr os fault_backoff inbox
  any_arrival [] = tt
  any_arrival (received device_arrived ∷ inbox) = (omega arith, any_arrival inbox)
  any_arrival (received (transmit r) ∷ inbox) = (tt, any_arrival inbox)
  any_arrival (received (configure_rx f b) ∷ inbox) = (tt, any_arrival inbox)
  any_arrival (received status ∷ inbox) = (tt, any_arrival inbox)
  any_arrival (empty ∷ inbox) = (tt, any_arrival inbox)
  any_arrival (disconnected ∷ inbox) = (tt, any_arrival inbox)

  -- In every run the retry interval stays between two seconds and a minute.
  pub run_backoff_bounded :
      (config : Config Float) (w : W) (inbox : List Inbox)
      → let s = run fp tr os config w inbox in
        (fault_backoff ≤ s.state.backoff) × (s.state.backoff ≤ max_fault_backoff)
  unfolding run start
  run_backoff_bounded config w inbox =
      run_from-Bounded fp tr os fault_backoff inbox (start fp tr os config w)
        (λ out w' e. omega arith) (any_arrival inbox) (omega arith)

  abbrev pub is_arrival : Inbox → Bool
  is_arrival (received device_arrived) = true
  is_arrival (received (transmit r)) = false
  is_arrival (received (configure_rx f b)) = false
  is_arrival (received status) = false
  is_arrival empty = false
  is_arrival disconnected = false

  no_arrival :
      (low : ℕ) (inbox : List Inbox)
      → All (λ i. is_arrival i ≡ false) inbox
      → AllMayArrive fp tr os low inbox
  no_arrival low [] n = tt
  no_arrival low (received device_arrived ∷ inbox) n = absurd (cc)
  no_arrival low (received (transmit r) ∷ inbox) n = (tt, no_arrival low inbox n.1)
  no_arrival low (received (configure_rx f b) ∷ inbox) n = (tt, no_arrival low inbox n.1)
  no_arrival low (received status ∷ inbox) n = (tt, no_arrival low inbox n.1)
  no_arrival low (empty ∷ inbox) n = (tt, no_arrival low inbox n.1)
  no_arrival low (disconnected ∷ inbox) n = (tt, no_arrival low inbox n.1)

  -- While no transfer arrives and no radio appears on the bus, the retry interval never shrinks,
  -- whatever else clients ask and however often the radio answers other calls.
  pub run_backoff_widens :
      (inbox : List Inbox) (s : Sys Float W)
      → ((out : List ℕ) (w : W) → (tr.read out w).0 ≢ ok tt)
      → All (λ i. is_arrival i ≡ false) inbox
      → s.state.backoff ≤ max_fault_backoff
      → s.state.backoff ≤ (run_from fp tr os inbox s).state.backoff
  run_backoff_widens inbox s deaf n h =
      (run_from-Bounded fp tr os s.state.backoff inbox s (λ out w e. absurd (deaf out w e))
        (no_arrival s.state.backoff inbox n) (omega arith)).0
