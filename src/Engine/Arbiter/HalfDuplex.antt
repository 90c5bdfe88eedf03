-- ===== src/Engine/Arbiter/HalfDuplex.antt =====
-- The arbiter drives the radio as a half-duplex device, over the whole of `run` in
-- proxyd/src/engine.rs, whatever the radio answers and whatever clients ask.
use hackrf_proxy.Base.{Bool, true, false, List, [], ◌∷◌, ◌≡◌}
use hackrf_proxy.Base.Floats.{F64}
use hackrf_proxy.Base.Results.{Error, Result, ok, err}
use hackrf_proxy.Engine.World.{Transceiver, Os}
use hackrf_proxy.Engine.State.{Sys, announce}
use hackrf_proxy.Engine.Arbiter.{Inbox, received, empty, disconnected, round}
use hackrf_proxy.Engine.Arbiter.Trace.{
  Mode, resting, listening, mode, is_quiet, is_free, Legal, Log, traced, beside,
}

-- The mode in which a round begins.
abbrev pub expected : Bool → Mode
expected true = listening
expected false = resting

-- The radio listens exactly if the arbiter takes its receiver to run, and does not send.
abbrev pub Fits : Bool → Mode → Type 0
Fits true m = m ≡ listening
Fits false m = is_quiet m ≡ true

module _ (fp : F64) {W : Type 0} (tr : Transceiver W) (os : Os W) (base : Mode) where
  open fp use {Float}

  -- The log is legal, the radio does what the arbiter takes it to do, and the receiver of a faulted
  -- one is not taken to run.
  abbrev Agrees : Sys Float (Log W) → Type 0
  Agrees s =
      Legal base s.world.0
      × Fits s.state.rx_running (mode base s.world.0)
      × (s.state.is_faulted ≡ true → s.state.rx_running ≡ false)

  abbrev Down : Sys Float (Log W) → Type 0
  Down s = Legal base s.world.0 × (is_quiet (mode base s.world.0) ≡ true)

  -- A frame may be sent.
  abbrev Free : Sys Float (Log W) → Type 0
  Free s = Legal base s.world.0 × (is_free (mode base s.world.0) ≡ true)

  -- A round begins.
  abbrev Begins : Sys Float (Log W) → Type 0
  Begins s =
      (s.world.0 ≡ [])
      × (base ≡ expected s.state.rx_running)
      × (s.state.is_faulted ≡ true → s.state.rx_running ≡ false)

  announce-Agrees : (d : _) (s : Sys Float (Log W)) → Agrees s → Agrees (announce d s)
  unfolding announce
  announce-Agrees d s h = h

  -- What holds when an operation that may fail is over: the radio is quiet, and if the operation
  -- succeeded the arbiter knows it.
  abbrev Ends : {A : Type 0} → Result Error A × Sys Float (Log W) → Type 0
  Ends (ok a, s) = Down s × (s.state.rx_running ≡ false)
  Ends (err e, s) = Down s

  -- A receiver that was to be stopped leaves the radio free, unless the stop failed.
  abbrev Stopped : {A : Type 0} → Result Error A × Sys Float (Log W) → Type 0
  Stopped (ok a, s) = Free s × (s.state.rx_running ≡ false)
  Stopped (err e, s) = Down s

  -- What holds at the end of a round.
  abbrev pub Left : Inbox → Sys Float (Log W) → Type 0
  Left disconnected s = is_quiet (mode base s.world.0) ≡ true
  Left (received c) s = Fits s.state.rx_running (mode base s.world.0)
  Left empty s = Fits s.state.rx_running (mode base s.world.0)

module _ (fp : F64) {W : Type 0} (tr : Transceiver W) (os : Os W) where
  open fp use {Float}

  -- A round, its calls logged from its beginning; the arbiter does not read the log.
  abbrev pub logged_round : Inbox → Sys Float (Log W) → Sys Float (Log W)
  logged_round i s = round fp (traced tr) (beside os) i (record s { world = ([], s.world.1) })

  -- The rounds of `run`, each with the calls that it makes, from the mode in which it begins.
  abbrev pub AllLegal : List Inbox → Sys Float (Log W) → Type 0
  AllLegal [] s = Unit
  AllLegal (disconnected ∷ inbox) s =
      let s' = logged_round disconnected s in
      let base = expected s.state.rx_running in
      Legal base s'.world.0 × Left fp tr os base disconnected s'
  AllLegal (empty ∷ inbox) s =
      let s' = logged_round empty s in
      let base = expected s.state.rx_running in
      Legal base s'.world.0 × Left fp tr os base empty s' × AllLegal inbox s'
  AllLegal (received c ∷ inbox) s =
      let s' = logged_round (received c) s in
      let base = expected s.state.rx_running in
      Legal base s'.world.0 × Left fp tr os base (received c) s' × AllLegal inbox s'
