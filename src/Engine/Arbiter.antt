-- ===== src/Engine/Arbiter.antt =====
-- The arbiter's loop, `run` of proxyd/src/engine.rs. What `try_recv` or `blocking_recv` finds at
-- each round is a list.
pub mod Trace
pub mod HalfDuplex
pub mod Told
pub mod Availability
pub mod Stale
pub mod Backoff
pub mod Service
pub mod Replies
pub mod Invariants
use hackrf_proxy.Base.{String, Bool, true, false, Option, none, some, List, [], ◌∷◌, if◌then◌else◌}
use hackrf_proxy.Base.Floats.{F64}
use hackrf_proxy.Ook.Detector
use hackrf_proxy.Engine.World.{Transceiver, Os}
use hackrf_proxy.Engine.State.{Config, Recorder, State, Sys, state_new, is_receiving}
use hackrf_proxy.Engine.Commands.{Command, handle}
use hackrf_proxy.Engine.Receive.{pump, retry}

pub data Inbox : Type 0 where
  received : Command → Inbox
  empty disconnected : Inbox

-- `config.record.clone().map(Recorder::new)`
abbrev pub recorder_of : Option String → Option Recorder
recorder_of none = none
recorder_of (some path) = some (record { path = path; is_open = false })

module _ (fp : F64) {W : Type 0} (tr : Transceiver W) (os : Os W) where
  open fp use {Float}

  unfoldable pub start : Config Float → W → Sys Float W
  unfolding state_new
  start config w =
      let (state, w') = state_new tr os config w in
      record {
        state = state;
        detector = Detector.new fp config.detector;
        buffer = [];
        recorder = recorder_of config.record_path;
        world = w';
        events = [];
        replies = [];
      }

  -- The rest of a round, once its command, if any, has been served.
  unfoldable pub drive : Sys Float W → Sys Float W
  drive s =
      if s.state.is_faulted
      then if s.state.rx_enabled then retry fp tr os s else s
      else if is_receiving s.state
      then pump fp tr os s
      else s

  -- A round. `blocking_recv` does not return on an empty inbox, so with the receiver off nothing
  -- happens until something arrives.
  unfoldable pub round : Inbox → Sys Float W → Sys Float W
  unfolding drive
  round (received c) s = drive (handle fp tr os c s)
  round empty s = if s.state.rx_enabled then drive s else s
  round disconnected s = record s { world = (tr.stop s.world).1 }

  abbrev pub closes : Inbox → Bool
  closes disconnected = true
  closes (received c) = false
  closes empty = false

  -- The loop ends when the channel is closed; a list that ends before that is a run that goes on.
  unfoldable pub run_from : List Inbox → Sys Float W → Sys Float W
  unfolding round
  run_from [] s = s
  run_from (i ∷ inbox) s = elim (closes i) [ true ↦ round i s | false ↦ run_from inbox (round i s) ]

  unfoldable pub run : Config Float → W → List Inbox → Sys Float W
  unfolding run_from start
  run config w inbox = run_from inbox (start config w)
