-- ===== src/Engine/Commands.antt =====
-- Serving the commands of clients, `Command`, `State::handle` and `State::transmit` of
-- proxyd/src/engine.rs.
use hackrf_proxy.Base.{ℕ, Bool, true, false, Option, none, some, List, ◌∷◌, String, if◌then◌else◌}
use hackrf_proxy.Base.Int.{ℤ}
use hackrf_proxy.Base.Words.{add_u64}
use hackrf_proxy.Base.Results.{Error, Result, ok, err}
use hackrf_proxy.Base.Floats.{F64}
use hackrf_proxy.Ook.Detector
use hackrf_proxy.Ook.Detector.{Detector}
use hackrf_proxy.Ook.Render.{render_transmission}
use hackrf_proxy.Radio.Align.{pad_to_alignment}
use hackrf_proxy.Wire.{Transmit, transmitting, Status, protocol_version, air_time_us}
use hackrf_proxy.Engine.World.{Transceiver, Os, TxParams}
use hackrf_proxy.Engine.State.{
  Config, Sys, Reply, transmit_done, configure_done, status_is, current_state, publish, announce,
  fault, fault_backoff,
}

-- The reply channel of a command is the log of replies.
pub data Command : Type 0 where
  transmit : Transmit → Command
  configure_rx : Option ℕ → Bool → Command
  status : Command
  device_arrived : Command

-- `env!("CARGO_PKG_VERSION")`, from proxyd/Cargo.toml.
abbrev pub daemon_version : String
daemon_version = "0.2.0"

abbrev pub or_default : Option ℕ → ℕ → ℕ
or_default none d = d
or_default (some a) d = a

unfoldable pub tx_params : {F : Type 0} → Transmit → Config F → TxParams
tx_params r config = record {
  frequency_hz = r.frequency;
  sample_rate = config.sample_rate;
  txvga_db = or_default r.txvga_db config.txvga_db;
  amp_enable = r.amp;
}

module _ {F W : Type 0} where
  unfoldable pub set_running : Bool → Sys F W → Sys F W
  set_running b s = record s { state = record (s.state) { rx_running = b } }

  unfoldable pub send_reply : Reply → Sys F W → Sys F W
  send_reply r s = record s { replies = r ∷ s.replies }

  unfoldable pub status_of : Sys F W → Status
  status_of s = record {
    daemon_version = daemon_version;
    protocol_version = protocol_version;
    state = current_state s.state;
    device = s.state.device;
    rx = record {
      enabled = s.state.rx_enabled;
      frequency = s.state.rx_frequency;
      sample_rate = s.state.config.sample_rate;
      threshold = s.detector.threshold;
    };
    counters = record (s.state.counters) { burst_overflows = s.detector.accumulator.overflows };
  }

module _ {F W : Type 0} (tr : Transceiver W) where
  -- `device.stop()` if the receiver runs, which then no longer runs unless the call failed.
  unfoldable pub stop_receiver : Sys F W → Result Error (Unit {0}) × Sys F W
  unfolding set_running
  stop_receiver s = elim s.state.rx_running [
    | false ↦ (ok tt, s)
    | true ↦
        let (outcome, w) = tr.stop s.world in
        elim outcome [
          | ok u ↦ (ok tt, set_running false (record s { world = w }))
          | err e ↦ (err e, record s { world = w })
        ]
  ]

module _ (fp : F64) {W : Type 0} (tr : Transceiver W) where
  open fp use {Float}

  unfoldable pub waveform : Transmit → Config Float → List ℕ
  waveform r config =
      pad_to_alignment
        (render_transmission fp r.timings r.repeat r.gap_us config.sample_rate config.tx_amplitude)

  -- After a transmission that the radio reports as done.
  unfoldable pub transmit_succeeded : Transmit → Sys Float W → Result Error ℤ × Sys Float W
  transmit_succeeded r s =
      let counters = record (s.state.counters) {
        transmissions = add_u64 s.state.counters.transmissions 1;
      } in
      let s' = record s { state = record (s.state) { counters = counters } } in
      (ok (air_time_us r), if s.state.rx_enabled then s' else publish s')

  -- From the announcement on; the radio is stopped whatever `transmit` returned.
  unfoldable pub send_frame : Transmit → Sys Float W → Result Error ℤ × Sys Float W
  unfolding transmit_succeeded
  send_frame r s =
      let s' = announce transmitting s in
      let (result, w) =
        tr.transmit (tx_params r s'.state.config) (waveform r s'.state.config) s'.world in
      let (_, w') = tr.stop w in
      elim result [
        | ok u ↦ transmit_succeeded r (record s' { world = w' })
        | err e ↦ (err e, record s' { world = w' })
      ]

  -- `State::transmit`, once the receiver has been told to stop.
  unfoldable pub send_if_stopped :
      Transmit → Result Error (Unit {0}) × Sys Float W → Result Error ℤ × Sys Float W
  unfolding send_frame
  send_if_stopped r (ok u, s) = send_frame r s
  send_if_stopped r (err e, s) = (err e, s)

  -- `State::transmit`
  unfoldable pub transmit_request : Transmit → Sys Float W → Result Error ℤ × Sys Float W
  unfolding send_if_stopped
  transmit_request r s = send_if_stopped r (stop_receiver tr s)

  module _ (os : Os W) where
    -- `device.start_rx`, its failure a fault.
    unfoldable pub start_receiver : Sys Float W → Result Error (Unit {0}) × Sys Float W
    start_receiver s =
        let (outcome, w) = tr.start_rx s.state.rx_frequency s.world in
        elim outcome [
          | ok u ↦ (ok tt, set_running true (record s { world = w }))
          | err e ↦ (err e, fault os (record s { world = w }))
        ]

    -- A failed transmission is a fault; either way it is answered.
    unfoldable pub conclude : Result Error ℤ × Sys Float W → Sys Float W
    unfolding send_reply
    conclude (ok d, s) = send_reply (transmit_done (ok d)) s
    conclude (err e, s) = send_reply (transmit_done (err e)) (fault os s)

    unfoldable pub handle_transmit : Transmit → Sys Float W → Sys Float W
    unfolding conclude
    handle_transmit r s = conclude (transmit_request r s)

    -- The state and the detector that a retune starts from, the receiver stopped if it ran.
    unfoldable pub retune_state : Option ℕ → Bool → Sys Float W → Sys Float W
    retune_state frequency enabled s =
        let state = record (s.state) {
          rx_frequency = or_default frequency s.state.rx_frequency;
          rx_enabled = enabled;
          rx_running = false;
          is_faulted = false;
        } in
        let w : W = elim s.state.rx_running [ true ↦ (tr.stop s.world).1 | false ↦ s.world ] in
        record s { state = state; detector = Detector.new fp s.state.config.detector; world = w }

    unfoldable pub handle_configure : Option ℕ → Bool → Sys Float W → Sys Float W
    unfolding retune_state
    handle_configure frequency enabled s =
        let s' = retune_state frequency enabled s in
        let result : Result Error (Unit {0}) × Sys Float W = elim enabled [
          | true ↦ start_receiver s'
          | false ↦ (ok tt, s')
        ] in
        send_reply (configure_done result.0) (publish result.1)

    unfoldable pub handle_arrival : Sys Float W → Sys Float W
    handle_arrival s = elim s.state.is_faulted [
      | false ↦ s
      | true ↦
          let (now, w) = os.instant_now s.world in
          record s {
            state = record (s.state) { retry_at = now; backoff = fault_backoff };
            world = w;
          }
    ]

    unfoldable pub handle : Command → Sys Float W → Sys Float W
    unfolding handle_transmit handle_configure handle_arrival send_reply status_of
    handle (transmit r) s = handle_transmit r s
    handle (configure_rx frequency enabled) s = handle_configure frequency enabled s
    handle device_arrived s = handle_arrival s
    handle status s = send_reply (status_is (status_of s)) s
