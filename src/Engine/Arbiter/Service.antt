-- ===== src/Engine/Arbiter/Service.antt =====
-- What clients get back: replies, frames, and what a transmission does, over `handle`, `transmit` and
-- `pump` of proxyd/src/engine.rs.
use hackrf_proxy.Base.{
  ℕ, suc, ◌<◌, true, false, List, [], ◌∷◌, ◌++◌, ◌≡◌, ◌⊎◌, inl, inr, refl, ◌∙◌, ap, arith, length,
  map, append_assoc, append-nil,
}
use hackrf_proxy.Base.Int.{ℤ, two64}
use hackrf_proxy.Base.Words.{add_u64}
use hackrf_proxy.Base.Floats.{F64}
use hackrf_proxy.Base.Results.{Error, Result, ok, err}
use hackrf_proxy.Wire.{Transmit, Message, MessagePayload, Counters, event, air_time_us}
use hackrf_proxy.Ook.Detector
use hackrf_proxy.Ook.Detector.{Burst}
use hackrf_proxy.Engine.World.{Transceiver, Os}
use hackrf_proxy.Engine.State.{Sys, transmit_done, publish, announce, fault}
use hackrf_proxy.Engine.Commands.{
  transmit, stop_receiver, send_frame, send_if_stopped, transmit_request, conclude, handle_transmit,
  handle, set_running,
}
use hackrf_proxy.Engine.Receive.{
  publish_burst, publish_bursts, prove_receiving, detect, read_transfer, pump,
}

-- The timings and the peak that an event carries, if it is a frame.
abbrev pub frame_of : MessagePayload → List (List ℤ × ℕ)
frame_of (MessagePayload.rx_frame f) = (f.timings, f.rssi) ∷ []
frame_of (MessagePayload.transmitted d) = []
frame_of (MessagePayload.error e) = []
frame_of (MessagePayload.status t) = []
frame_of (MessagePayload.device_state d) = []

-- The frames in a log of events, oldest first.
abbrev pub frames : List Message → List (List ℤ × ℕ)
frames [] = []
frames (m ∷ ms) = frames ms ++ frame_of m.payload

abbrev pub burst_pair : Burst → List ℤ × ℕ
burst_pair b = (b.timings, b.peak)

module _ (fp : F64) {W : Type 0} (tr : Transceiver W) (os : Os W) where
  open fp use {Float}

  publish_bursts-frames :
      (s : Sys Float W) (bs : List Burst)
      → frames (publish_bursts os s bs).events ≡ frames s.events ++ map burst_pair bs
  unfolding publish_bursts publish_burst event
  publish_bursts-frames s [] = rw append-nil
  publish_bursts-frames s (b ∷ bs) =
      publish_bursts-frames (publish_burst os s b) bs
      ∙ append_assoc (frames s.events) (burst_pair b ∷ []) (map burst_pair bs)

  add_u64_comm : (n k : ℕ) → add_u64 (add_u64 n 1) k ≡ add_u64 n (suc k)
  add_u64_comm n k = omega arith

  publish_bursts-rest :
      (s : Sys Float W) (bs : List Burst)
      → s.state.counters.rx_frames < two64
      → let s' = publish_bursts os s bs in
        (s'.state.counters.rx_frames ≡ add_u64 s.state.counters.rx_frames (length bs))
        × (s'.replies ≡ s.replies)
        × (s'.detector ≡ s.detector)
  unfolding publish_bursts publish_burst
  publish_bursts-rest s [] h = (omega arith, refl, refl)
  publish_bursts-rest s (b ∷ bs) h =
      let (counted, answered, kept) = publish_bursts-rest (publish_burst os s b) bs (omega arith) in
      (counted ∙ add_u64_comm _ (length bs), answered, kept)

  pub fault-replies : (s : Sys Float W) → (fault os s).replies ≡ s.replies
  unfolding fault
  fault-replies s = ground arith

  send_frame-replies :
      (r : Transmit) (s : Sys Float W) → (send_frame fp tr r s).1.replies ≡ s.replies
  unfolding send_frame announce publish
  send_frame-replies r s = ground arith

  pub transmit_request-replies :
      (r : Transmit) (s : Sys Float W) → (transmit_request fp tr r s).1.replies ≡ s.replies
  unfolding transmit_request send_if_stopped stop_receiver set_running
  transmit_request-replies r s =
      let (outcome, w) = tr.stop s.world in
      ground (
        arith,
        send_frame-replies r s,
        send_frame-replies r (set_running false (record s { world = w })),
      )

  -- What a transmission that has been tried leaves behind.
  abbrev Settled : Transmit → Sys Float W → Result Error ℤ × Sys Float W → Type 0
  Settled r s (ok d, s') =
      (d ≡ air_time_us r)
      × (s'.state.counters.transmissions ≡ add_u64 s.state.counters.transmissions 1)
      × (s'.state.is_faulted ≡ s.state.is_faulted)
  Settled r s (err e, s') = s'.state.counters.transmissions ≡ s.state.counters.transmissions

  send_frame-Settled : (r : Transmit) (s : Sys Float W) → Settled r s (send_frame fp tr r s)
  unfolding send_frame announce publish
  send_frame-Settled r s = ground arith

  transmit_request-Settled :
      (r : Transmit) (s : Sys Float W) → Settled r s (transmit_request fp tr r s)
  unfolding transmit_request send_if_stopped stop_receiver set_running
  transmit_request-Settled r s =
      let (outcome, w) = tr.stop s.world in
      ground (
        arith,
        send_frame-Settled r s,
        send_frame-Settled r (set_running false (record s { world = w })),
      )

  -- A transmission is answered with its air time, counted, and leaves the radio as faulted as it was;
  -- or it is answered with the error, not counted, and leaves the radio faulted.
  pub transmit_outcome :
      (r : Transmit) (s : Sys Float W)
      → let s' = handle fp tr os (transmit r) s in
        ((s'.replies ≡ transmit_done (ok (air_time_us r)) ∷ s.replies)
          × (s'.state.counters.transmissions ≡ add_u64 s.state.counters.transmissions 1)
          × (s'.state.is_faulted ≡ s.state.is_faulted))
        ⊎ ((e : Error) × (s'.replies ≡ transmit_done (err e) ∷ s.replies)
            × (s'.state.counters.transmissions ≡ s.state.counters.transmissions)
            × (s'.state.is_faulted ≡ true))
  unfolding handle handle_transmit fault
  transmit_outcome r s =
      settle (transmit_request fp tr r s) (transmit_request-Settled r s)
        (transmit_request-replies r s)
    where
      settle :
          (p : Result Error ℤ × Sys Float W)
          → Settled r s p
          → p.1.replies ≡ s.replies
          → ((((conclude fp tr os p).replies) ≡ transmit_done (ok (air_time_us r)) ∷ s.replies)
              × ((conclude fp tr os p).state.counters.transmissions
                  ≡ add_u64 s.state.counters.transmissions 1)
              × ((conclude fp tr os p).state.is_faulted ≡ s.state.is_faulted))
            ⊎ ((e : Error) × ((conclude fp tr os p).replies ≡ transmit_done (err e) ∷ s.replies)
                × ((conclude fp tr os p).state.counters.transmissions
                    ≡ s.state.counters.transmissions)
                × ((conclude fp tr os p).state.is_faulted ≡ true))
      settle (ok d, s') h k = inl (cc, h.1, h.2)
      settle (err e, s') h k = inr (e, ground arith, ground arith, ground arith)

  detect_delivers :
      (s : Sys Float W)
      → s.state.counters.rx_frames < two64
      → let (d, bursts) = Detector.push fp s.detector s.buffer in
        let s' = detect fp tr os s in
        (frames s'.events ≡ frames s.events ++ map burst_pair bursts)
        × (s'.detector ≡ d)
        × (s'.state.counters.rx_frames ≡ add_u64 s.state.counters.rx_frames (length bursts))
  unfolding detect
  detect_delivers s fits =
      let (d, bursts) = Detector.push fp s.detector s.buffer in
      let s' : Sys Float W = record s { detector = d } in
      let (counted, answered, kept) = publish_bursts-rest s' bursts fits in
      (publish_bursts-frames s' bursts, kept, counted)

  prove_receiving-rest :
      (s : Sys Float W)
      → let s' = prove_receiving os s in
        (s'.detector ≡ s.detector)
        × (s'.buffer ≡ s.buffer)
        × (s'.events ≡ s.events)
        × (s'.state.counters ≡ s.state.counters)
  unfolding prove_receiving
  prove_receiving-rest s = ground arith

  pump-eq :
      (s : Sys Float W) → s.state.rx_running ≡ true → pump fp tr os s ≡ read_transfer fp tr os s
  unfolding pump
  pump-eq s r = ground arith

  read_transfer-eq :
      (s : Sys Float W) (out : List ℕ) (w : W)
      → tr.read s.buffer s.world ≡ (ok tt, out, w)
      → read_transfer fp tr os s
        ≡ detect fp tr os (prove_receiving os (record s { buffer = out; world = w }))
  unfolding read_transfer
  read_transfer-eq s out w e = ground arith

  detect_given :
      (p : Sys Float W) {d : Detector.Detector Float} {out : List ℕ} {log : List Message} {n : ℕ}
      → p.detector ≡ d
      → p.buffer ≡ out
      → p.events ≡ log
      → p.state.counters.rx_frames ≡ n
      → n < two64
      → let (d', bursts) = Detector.push fp d out in
        let s' = detect fp tr os p in
        (frames s'.events ≡ frames log ++ map burst_pair bursts)
        × (s'.detector ≡ d')
        × (s'.state.counters.rx_frames ≡ add_u64 n (length bursts))
  detect_given p a b c e fits = rw (← a, ← b, ← c, ← e) (detect_delivers p (omega arith))

  -- A transfer that arrives on a running receiver is sliced by the detector, and every burst that it
  -- completes is published as a frame, in order, with its timings and peak, and counted.
  pub pump_delivers :
      (s : Sys Float W) (out : List ℕ) (w : W)
      → s.state.rx_running ≡ true
      → s.state.counters.rx_frames < two64
      → tr.read s.buffer s.world ≡ (ok tt, out, w)
      → let (d, bursts) = Detector.push fp s.detector out in
        let s' = pump fp tr os s in
        (frames s'.events ≡ frames s.events ++ map burst_pair bursts)
        × (s'.detector ≡ d)
        × (s'.state.counters.rx_frames ≡ add_u64 s.state.counters.rx_frames (length bursts))
  pump_delivers s out w r fits e =
      let read : Sys Float W = record s { buffer = out; world = w } in
      let (same_detector, same_buffer, same_events, same_counters) = prove_receiving-rest read in
      rw (pump-eq s r ∙ read_transfer-eq s out w e) (
        detect_given (prove_receiving os read) same_detector same_buffer same_events
          (ap (λ (c : Counters). c.rx_frames) same_counters) fits)
