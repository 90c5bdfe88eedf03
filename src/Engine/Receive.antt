-- ===== src/Engine/Receive.antt =====
-- Receiving and recovering, `Recorder::write`, `State::pump` and `State::retry` of
-- proxyd/src/engine.rs.
use hackrf_proxy.Base.{ℕ, true, false, Option, none, some, List, [], ◌∷◌, ltb, if◌then◌else◌}
use hackrf_proxy.Base.Words.{add_u64}
use hackrf_proxy.Base.Results.{ok, err}
use hackrf_proxy.Base.Floats.{F64}
use hackrf_proxy.Ook.Detector
use hackrf_proxy.Ook.Detector.{Burst}
use hackrf_proxy.Wire.{RxFrame, rx_frame, event}
use hackrf_proxy.Engine.World.{Transceiver, Os}
use hackrf_proxy.Engine.State.{Recorder, Sys, publish, fault, back_off, fault_backoff, fault_poll}
use hackrf_proxy.Engine.Commands.{set_running}

module _ {W : Type 0} (os : Os W) where
  -- The line is written if the file is open; a failed write closes it.
  unfoldable pub write_open : Recorder → RxFrame → W → Recorder × W
  write_open r frame w =
      let (outcome, w') = os.write_line r.path frame w in
      elim outcome [ ok u ↦ (r, w') | err e ↦ (record r { is_open = false }, w') ]

  unfoldable pub write : Recorder → RxFrame → W → Recorder × W
  unfolding write_open
  write r frame w = elim r.is_open [
    | true ↦ write_open r frame w
    | false ↦
        let (outcome, w') = os.open_append r.path w in
        elim outcome [ ok u ↦ write_open (record r { is_open = true }) frame w' | err e ↦ (r, w') ]
  ]

  -- `if let Some(recorder) = recorder`
  unfoldable pub record_frame : Option Recorder → RxFrame → W → Option Recorder × W
  unfolding write
  record_frame none frame w = (none, w)
  record_frame (some r) frame w = let (r', w') = write r frame w in (some r', w')

  abbrev pub or_zero : Option ℕ → ℕ
  or_zero none = 0
  or_zero (some n) = n

  unfoldable pub now_ms : W → ℕ × W
  now_ms w = let (t, w') = os.system_now w in (or_zero t, w')

  module _ {F : Type 0} where
    -- One round of the loop over the bursts.
    unfoldable pub publish_burst : Sys F W → Burst → Sys F W
    unfolding record_frame now_ms
    publish_burst s b =
        let (now, w) = now_ms s.world in
        let frame : RxFrame = record {
          frequency = s.state.rx_frequency;
          timings = b.timings;
          rssi = b.peak;
          timestamp_ms = now;
        } in
        let (recorder, w') = record_frame s.recorder frame w in
        let counters = record (s.state.counters) {
          rx_frames = add_u64 s.state.counters.rx_frames 1;
        } in
        record s {
          state = record (s.state) { counters = counters };
          recorder = recorder;
          world = w';
          events = event (rx_frame frame) ∷ s.events;
        }

    unfoldable pub publish_bursts : Sys F W → List Burst → Sys F W
    unfolding publish_burst
    publish_bursts s [] = s
    publish_bursts s (b ∷ bs) = publish_bursts (publish_burst s b) bs

    -- The first transfer after a fault proves the radio, and only it resets the backoff.
    unfoldable pub prove_receiving : Sys F W → Sys F W
    prove_receiving s = elim s.state.receiving_proven [
      | true ↦ s
      | false ↦ record s {
        state = record (s.state) { receiving_proven = true; backoff = fault_backoff };
      }
    ]

module _ (fp : F64) {W : Type 0} (tr : Transceiver W) (os : Os W) where
  open fp use {Float}

  unfoldable pub detect : Sys Float W → Sys Float W
  detect s =
      let (d, bursts) = Detector.push fp s.detector s.buffer in
      publish_bursts os (record s { detector = d }) bursts

  -- Reading one transfer, and what it holds.
  unfoldable pub read_transfer : Sys Float W → Sys Float W
  unfolding detect prove_receiving
  read_transfer s =
      let (outcome, buffer, w) = tr.read s.buffer s.world in
      let s' = record s { buffer = buffer; world = w } in
      elim outcome [ ok u ↦ detect (prove_receiving os s') | err e ↦ fault os s' ]

  unfoldable pub pump : Sys Float W → Sys Float W
  unfolding read_transfer
  pump s = elim s.state.rx_running [
    | true ↦ read_transfer s
    | false ↦
        let (outcome, w) = tr.start_rx s.state.rx_frequency s.world in
        let s' = record s { world = w } in
        elim outcome [ ok u ↦ read_transfer (publish (set_running true s')) | err e ↦ fault os s' ]
  ]

  -- A retry that is due: the radio is stopped and asked who it is.
  unfoldable pub reopen : Sys Float W → Sys Float W
  reopen s =
      let (_, w) = tr.stop s.world in
      let (description, w') = tr.describe w in
      elim description [
        | ok text ↦ publish (record s {
          state = record (s.state) { device = some text; is_faulted = false };
          world = w';
        })
        | err e ↦ back_off os (record s { world = w' })
      ]

  unfoldable pub retry : Sys Float W → Sys Float W
  unfolding reopen
  retry s =
      let (now, w) = os.instant_now s.world in
      let s' = record s { world = w } in
      if ltb now s.state.retry_at then record s { world = os.sleep fault_poll w } else reopen s'
