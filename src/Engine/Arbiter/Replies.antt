-- ===== src/Engine/Arbiter/Replies.antt =====
-- Which replies the loop `run` of proxyd/src/engine.rs sends back.
use hackrf_proxy.Base.{
  ℕ, Bool, true, false, Option, List, [], ◌∷◌, ◌++◌, append-nil, append_assoc, ◌≡◌, refl, sym, ap,
  ◌∙◌, arith,
}
use hackrf_proxy.Base.Int.{ℤ}
use hackrf_proxy.Base.Results.{Error, Result, ok, err}
use hackrf_proxy.Base.Floats.{F64}
use hackrf_proxy.Ook.Detector
use hackrf_proxy.Ook.Detector.{Detector, Burst}
use hackrf_proxy.Engine.World.{Transceiver, Os}
use hackrf_proxy.Engine.State.{
  Config, Sys, Reply, transmit_done, configure_done, status_is, publish, announce, back_off,
}
use hackrf_proxy.Engine.Commands.{
  Command, handle, handle_transmit, handle_configure, handle_arrival, transmit_request, conclude,
  start_receiver, retune_state, set_running, send_reply,
}
use hackrf_proxy.Engine.Receive.{
  publish_burst, publish_bursts, prove_receiving, detect, read_transfer, pump, reopen, retry,
}
use hackrf_proxy.Engine.Arbiter.{Inbox, start, drive, round, run_from, run}
use hackrf_proxy.Engine.Arbiter.Service.{fault-replies, transmit_request-replies}

pub data Kind : Type 0 where
  transmission configuration report : Kind

-- What a command is answered with: nothing, for the notice of an arrival.
abbrev pub owed : Command → List Kind
owed (Command.transmit r) = transmission ∷ []
owed (Command.configure_rx f b) = configuration ∷ []
owed Command.status = report ∷ []
owed Command.device_arrived = []

-- What is owed for the commands of an inbox, up to where it is closed.
abbrev pub all_owed : List Inbox → List Kind
all_owed [] = []
all_owed (Inbox.received c ∷ inbox) = owed c ++ all_owed inbox
all_owed (Inbox.empty ∷ inbox) = all_owed inbox
all_owed (Inbox.disconnected ∷ inbox) = []

abbrev pub kind_of : Reply → Kind
kind_of (transmit_done o) = transmission
kind_of (configure_done o) = configuration
kind_of (status_is t) = report

-- The kinds of the replies, oldest first.
abbrev pub kinds : List Reply → List Kind
kinds [] = []
kinds (r ∷ rs) = kinds rs ++ (kind_of r ∷ [])

module _ (fp : F64) {W : Type 0} (tr : Transceiver W) (os : Os W) where
  open fp use {Float}

  pub publish-replies : (s : Sys Float W) → (publish s).replies ≡ s.replies
  unfolding publish announce
  publish-replies s = ground arith

  publish_bursts-replies :
      (s : Sys Float W) (bs : List Burst) → (publish_bursts os s bs).replies ≡ s.replies
  unfolding publish_bursts publish_burst
  publish_bursts-replies s [] = refl
  publish_bursts-replies s (b ∷ bs) = publish_bursts-replies (publish_burst os s b) bs

  detect-replies : (s : Sys Float W) → (detect fp tr os s).replies ≡ s.replies
  unfolding detect
  detect-replies s =
      let (d, bursts) = Detector.push fp s.detector s.buffer in
      publish_bursts-replies (record s { detector = d }) bursts

  read_transfer-replies : (s : Sys Float W) → (read_transfer fp tr os s).replies ≡ s.replies
  unfolding read_transfer prove_receiving
  read_transfer-replies s =
      let (outcome, buffer, w) = tr.read s.buffer s.world in
      let s' : Sys Float W = record s { buffer = buffer; world = w } in
      ground (arith, fault-replies fp tr os s', detect-replies (prove_receiving os s'))

  start_receiver-replies : (s : Sys Float W) → (start_receiver fp tr os s).1.replies ≡ s.replies
  unfolding start_receiver set_running
  start_receiver-replies s =
      let (outcome, w) = tr.start_rx s.state.rx_frequency s.world in
      ground (arith, fault-replies fp tr os (record s { world = w }))

  pump-replies : (s : Sys Float W) → (pump fp tr os s).replies ≡ s.replies
  unfolding pump set_running
  pump-replies s =
      let (outcome, w) = tr.start_rx s.state.rx_frequency s.world in
      let s' : Sys Float W = record s { world = w } in
      ground (
        arith,
        fault-replies fp tr os s',
        read_transfer-replies s,
        read_transfer-replies (publish (set_running true s')),
        publish-replies (set_running true s'),
      )

  retry-replies : (s : Sys Float W) → (retry fp tr os s).replies ≡ s.replies
  unfolding retry reopen back_off publish announce
  retry-replies s = ground arith

  pub drive-replies : (s : Sys Float W) → (drive fp tr os s).replies ≡ s.replies
  unfolding drive
  drive-replies s = ground (arith, pump-replies s, retry-replies s)

  idle-replies : (s : Sys Float W) → (round fp tr os Inbox.empty s).replies ≡ s.replies
  unfolding round
  idle-replies s = ground (arith, drive-replies s)

  conclude-kinds :
      (p : Result Error ℤ × Sys Float W) (rs : List Reply)
      → p.1.replies ≡ rs
      → kinds (conclude fp tr os p).replies ≡ kinds rs ++ (transmission ∷ [])
  unfolding conclude send_reply
  conclude-kinds (ok d, s) rs h = ap (λ t. kinds t ++ (transmission ∷ [])) h
  conclude-kinds (err e, s) rs h =
      ap (λ t. kinds t ++ (transmission ∷ [])) (fault-replies fp tr os s ∙ h)

  handle_configure-replies :
      (f : Option ℕ) (b : Bool) (s : Sys Float W)
      → kinds (handle_configure fp tr os f b s).replies ≡ kinds s.replies ++ (configuration ∷ [])
  unfolding handle_configure retune_state send_reply
  handle_configure-replies f true s =
      let started = start_receiver fp tr os (retune_state fp tr os f true s) in
      ap (λ t. kinds t ++ (configuration ∷ []))
        (publish-replies started.1 ∙ start_receiver-replies (retune_state fp tr os f true s))
  handle_configure-replies f false s =
      ap (λ t. kinds t ++ (configuration ∷ [])) (publish-replies (retune_state fp tr os f false s))

  handle_arrival-replies : (s : Sys Float W) → (handle_arrival fp tr os s).replies ≡ s.replies
  unfolding handle_arrival
  handle_arrival-replies s = ground arith

  handle-kinds :
      (c : Command) (s : Sys Float W)
      → kinds (handle fp tr os c s).replies ≡ kinds s.replies ++ owed c
  unfolding handle handle_transmit send_reply
  handle-kinds (Command.transmit r) s =
      conclude-kinds (transmit_request fp tr r s) s.replies (transmit_request-replies fp tr os r s)
  handle-kinds (Command.configure_rx f b) s = handle_configure-replies f b s
  handle-kinds Command.status s = refl
  handle-kinds Command.device_arrived s =
      ap kinds (handle_arrival-replies s) ∙ sym (append-nil (kinds s.replies))

  run_from-kinds :
      (inbox : List Inbox) (s : Sys Float W)
      → kinds (run_from fp tr os inbox s).replies ≡ kinds s.replies ++ all_owed inbox
  unfolding run_from round
  run_from-kinds [] s = sym (append-nil (kinds s.replies))
  run_from-kinds (Inbox.received c ∷ inbox) s =
      run_from-kinds inbox (round fp tr os (Inbox.received c) s)
      ∙ ap (λ t. t ++ all_owed inbox)
          (ap kinds (drive-replies (handle fp tr os c s)) ∙ handle-kinds c s)
      ∙ append_assoc (kinds s.replies) (owed c) (all_owed inbox)
  run_from-kinds (Inbox.empty ∷ inbox) s =
      run_from-kinds inbox (round fp tr os Inbox.empty s)
      ∙ ap (λ t. kinds t ++ all_owed inbox) (idle-replies s)
  run_from-kinds (Inbox.disconnected ∷ inbox) s = sym (append-nil (kinds s.replies))

  -- Every command is answered once, with the kind of reply it asks for and in the order in which
  -- the commands arrived, whatever the radio does, but for notices that a radio appeared, which are
  -- not answered. Nothing that comes after the channel is closed is answered.
  pub run_answers :
      (config : Config Float) (w : W) (inbox : List Inbox)
      → kinds (run fp tr os config w inbox).replies ≡ all_owed inbox
  unfolding run start
  run_answers config w inbox = run_from-kinds inbox (start fp tr os config w)
