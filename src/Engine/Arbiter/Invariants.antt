-- ===== src/Engine/Arbiter/Invariants.antt =====
-- Invariants of the world that the arbiter of proxyd/src/engine.rs drives: what every call of the
-- radio, the clocks and the files keeps, the whole of `run` keeps.
use hackrf_proxy.Base.{ℕ, Bool, true, false, Option, none, some, List, [], ◌∷◌, String, arith}
use hackrf_proxy.Base.Int.{ℤ}
use hackrf_proxy.Base.Results.{Error, Result, ok, err}
use hackrf_proxy.Base.Floats.{F64}
use hackrf_proxy.Wire.{Transmit, RxFrame}
use hackrf_proxy.Ook.Detector
use hackrf_proxy.Ook.Detector.{Burst}
use hackrf_proxy.Engine.World.{Transceiver, Os, TxParams}
use hackrf_proxy.Engine.State.{
  Config, Recorder, Sys, state_new, publish, announce, back_off, fault, fault_poll,
}
use hackrf_proxy.Engine.Commands.{
  Command, tx_params, waveform, set_running, send_reply, stop_receiver, send_frame, send_if_stopped,
  transmit_request, start_receiver, conclude, handle_transmit, retune_state, handle_configure,
  handle_arrival, handle,
}
use hackrf_proxy.Engine.Receive.{
  write_open, write, record_frame, now_ms, publish_burst, publish_bursts, prove_receiving, detect,
  read_transfer, pump, reopen, retry,
}
use hackrf_proxy.Engine.Arbiter.{Inbox, start, drive, round, run_from, run}

-- `P` is kept by every call.
pub record IsKept {W : Type 0} (tr : Transceiver W) (os : Os W) (P : W → Type 0) : Type 0 where
  pub keep_start_rx : (f : ℕ) (w : W) → P w → P (tr.start_rx f w).1
  pub keep_read : (out : List ℕ) (w : W) → P w → P (tr.read out w).2
  pub keep_stop : (w : W) → P w → P (tr.stop w).1
  pub keep_transmit :
      (p : TxParams) (samples : List ℕ) (w : W) → P w → P (tr.transmit p samples w).1
  pub keep_describe : (w : W) → P w → P (tr.describe w).1
  pub keep_instant : (w : W) → P w → P (os.instant_now w).1
  pub keep_system : (w : W) → P w → P (os.system_now w).1
  pub keep_sleep : (n : ℕ) (w : W) → P w → P (os.sleep n w)
  pub keep_open : (path : String) (w : W) → P w → P (os.open_append path w).1
  pub keep_write :
      (path : String) (frame : RxFrame) (w : W) → P w → P (os.write_line path frame w).1

module _ {W : Type 0} (tr : Transceiver W) (os : Os W) (P : W → Type 0) (k : IsKept tr os P) where
  write_open-keeps : (r : Recorder) (frame : RxFrame) (w : W) → P w → P (write_open os r frame w).1
  unfolding write_open
  write_open-keeps r frame w p = let kept = k.keep_write r.path frame w p in ground arith

  write-keeps : (r : Recorder) (frame : RxFrame) (w : W) → P w → P (write os r frame w).1
  unfolding write
  write-keeps r frame w p =
      let opened = k.keep_open r.path w p in
      let written = write_open-keeps r frame w p in
      let written' =
        write_open-keeps (record r { is_open = true }) frame (os.open_append r.path w).1 opened in
      ground arith

  record_frame-keeps :
      (r : Option Recorder) (frame : RxFrame) (w : W) → P w → P (record_frame os r frame w).1
  unfolding record_frame
  record_frame-keeps none frame w p = p
  record_frame-keeps (some r) frame w p = write-keeps r frame w p

  module _ (fp : F64) where
    open fp use {Float}

    abbrev Good : Sys Float W → Type 0
    Good s = P s.world

    publish-Good : (s : Sys Float W) → Good s → Good (publish s)
    unfolding publish announce
    publish-Good s p = ground arith

    fault-Good : (s : Sys Float W) → Good s → Good (fault os s)
    unfolding fault back_off
    fault-Good s p = let kept = k.keep_instant s.world p in ground arith

    publish_burst-Good : (s : Sys Float W) (b : Burst) → Good s → Good (publish_burst os s b)
    unfolding publish_burst now_ms
    publish_burst-Good s b p =
        let (now, w) = now_ms os s.world in
        let frame : RxFrame = record {
          frequency = s.state.rx_frequency;
          timings = b.timings;
          rssi = b.peak;
          timestamp_ms = now;
        } in
        record_frame-keeps s.recorder frame w (k.keep_system s.world p)

    publish_bursts-Good :
        (s : Sys Float W) (bs : List Burst) → Good s → Good (publish_bursts os s bs)
    unfolding publish_bursts
    publish_bursts-Good s [] p = p
    publish_bursts-Good s (b ∷ bs) p =
        publish_bursts-Good (publish_burst os s b) bs (publish_burst-Good s b p)

    prove_receiving-Good : (s : Sys Float W) → Good s → Good (prove_receiving os s)
    unfolding prove_receiving
    prove_receiving-Good s p = ground arith

    read_transfer-Good : (s : Sys Float W) → Good s → Good (read_transfer fp tr os s)
    unfolding read_transfer detect
    read_transfer-Good s p =
        let (outcome, buffer, w) = tr.read s.buffer s.world in
        let s' : Sys Float W = record s { buffer = buffer; world = w } in
        let p' = k.keep_read s.buffer s.world p in
        let proven = prove_receiving os s' in
        let (d, bursts) = Detector.push fp proven.detector proven.buffer in
        let faulted = fault-Good s' p' in
        let published =
          publish_bursts-Good (record proven { detector = d }) bursts
            (prove_receiving-Good s' p') in
        ground arith

    pump-Good : (s : Sys Float W) → Good s → Good (pump fp tr os s)
    unfolding pump set_running
    pump-Good s p =
        let s' : Sys Float W = record s { world = (tr.start_rx s.state.rx_frequency s.world).1 } in
        let p' = k.keep_start_rx s.state.rx_frequency s.world p in
        let direct = read_transfer-Good s p in
        let started =
          read_transfer-Good (publish (set_running true s'))
            (publish-Good (set_running true s') p') in
        let faulted = fault-Good s' p' in ground arith

    reopen-Good : (s : Sys Float W) → Good s → Good (reopen fp tr os s)
    unfolding reopen back_off publish announce
    reopen-Good s p =
        let stopped = k.keep_stop s.world p in
        let described = k.keep_describe (tr.stop s.world).1 stopped in
        let now = k.keep_instant (tr.describe (tr.stop s.world).1).1 described in ground arith

    retry-Good : (s : Sys Float W) → Good s → Good (retry fp tr os s)
    unfolding retry
    retry-Good s p =
        let now = k.keep_instant s.world p in
        let slept = k.keep_sleep fault_poll (os.instant_now s.world).1 now in
        let reopened = reopen-Good (record s { world = (os.instant_now s.world).1 }) now in
        ground arith

    drive-Good : (s : Sys Float W) → Good s → Good (drive fp tr os s)
    unfolding drive
    drive-Good s p = let retried = retry-Good s p in let pumped = pump-Good s p in ground arith

    send_frame-Good : (r : Transmit) (s : Sys Float W) → Good s → Good (send_frame fp tr r s).1
    unfolding send_frame announce publish
    send_frame-Good r s p =
        let params = tx_params r s.state.config in
        let samples = waveform fp tr r s.state.config in
        let sent = k.keep_transmit params samples s.world p in
        let stopped = k.keep_stop (tr.transmit params samples s.world).1 sent in ground arith

    stop_receiver-Good : (s : Sys Float W) → Good s → Good (stop_receiver tr s).1
    unfolding stop_receiver set_running
    stop_receiver-Good s p = let stopped = k.keep_stop s.world p in ground arith

    send_if_stopped-Good :
        (r : Transmit) (q : Result Error (Unit {0}) × Sys Float W)
        → Good q.1
        → Good (send_if_stopped fp tr r q).1
    unfolding send_if_stopped
    send_if_stopped-Good r (ok u, s) p = send_frame-Good r s p
    send_if_stopped-Good r (err e, s) p = p

    conclude-Good : (q : Result Error ℤ × Sys Float W) → Good q.1 → Good (conclude fp tr os q)
    unfolding conclude send_reply
    conclude-Good (ok d, s) p = p
    conclude-Good (err e, s) p = fault-Good s p

    start_receiver-Good : (s : Sys Float W) → Good s → Good (start_receiver fp tr os s).1
    unfolding start_receiver set_running
    start_receiver-Good s p =
        let started = k.keep_start_rx s.state.rx_frequency s.world p in
        let faulted =
          fault-Good (record s { world = (tr.start_rx s.state.rx_frequency s.world).1 }) started in
        ground arith

    retune_state-Good :
        (f : Option ℕ) (b : Bool) (s : Sys Float W) → Good s → Good (retune_state fp tr os f b s)
    unfolding retune_state
    retune_state-Good f b s p = let stopped = k.keep_stop s.world p in ground arith

    handle_configure-Good :
        (f : Option ℕ) (b : Bool) (s : Sys Float W)
        → Good s
        → Good (handle_configure fp tr os f b s)
    unfolding handle_configure send_reply
    handle_configure-Good f true s p =
        let s' = retune_state fp tr os f true s in
        publish-Good (start_receiver fp tr os s').1
          (start_receiver-Good s' (retune_state-Good f true s p))
    handle_configure-Good f false s p =
        publish-Good (retune_state fp tr os f false s) (retune_state-Good f false s p)

    handle-Good : (c : Command) (s : Sys Float W) → Good s → Good (handle fp tr os c s)
    unfolding handle handle_transmit transmit_request send_reply handle_arrival
    handle-Good (Command.transmit r) s p =
        conclude-Good (transmit_request fp tr r s)
          (send_if_stopped-Good r (stop_receiver tr s) (stop_receiver-Good s p))
    handle-Good (Command.configure_rx f b) s p = handle_configure-Good f b s p
    handle-Good Command.status s p = p
    handle-Good Command.device_arrived s p = let now = k.keep_instant s.world p in ground arith

    round-Good : (i : Inbox) (s : Sys Float W) → Good s → Good (round fp tr os i s)
    unfolding round
    round-Good (Inbox.received c) s p = drive-Good (handle fp tr os c s) (handle-Good c s p)
    round-Good Inbox.empty s p = let driven = drive-Good s p in ground arith
    round-Good Inbox.disconnected s p = k.keep_stop s.world p

    run_from-Good :
        (inbox : List Inbox) (s : Sys Float W) → Good s → Good (run_from fp tr os inbox s)
    unfolding run_from
    run_from-Good [] s p = p
    run_from-Good (Inbox.received c ∷ inbox) s p =
        run_from-Good inbox (round fp tr os (Inbox.received c) s)
          (round-Good (Inbox.received c) s p)
    run_from-Good (Inbox.empty ∷ inbox) s p =
        run_from-Good inbox (round fp tr os Inbox.empty s) (round-Good Inbox.empty s p)
    run_from-Good (Inbox.disconnected ∷ inbox) s p = round-Good Inbox.disconnected s p

    -- What every call of the radio, the clocks and the files keeps, a run keeps from its start on,
    -- whatever arrives in the inbox.
    pub run_keeps :
        (config : Config Float) (w : W) (inbox : List Inbox)
        → P w
        → P (run fp tr os config w inbox).world
    unfolding run start state_new
    run_keeps config w inbox p =
        run_from-Good inbox (start fp tr os config w)
          (k.keep_describe (os.instant_now w).1 (k.keep_instant w p))
