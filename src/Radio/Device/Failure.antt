-- ===== src/Radio/Device/Failure.antt =====
-- What the methods of `Device` in proxyd/src/radio.rs do with the handle.
use hackrf_proxy.Base.{ℕ, Option, none, some, List, ◌≡◌, ◌≢◌, inl, inr, arith, Option-cases}
use hackrf_proxy.Base.Results.{Error, Result, ok, err}
use hackrf_proxy.Engine.World.{TxParams}
use hackrf_proxy.Radio.Gains.{validate_tx_gain}
use hackrf_proxy.Radio.Driver.{Driver, open_radio}
use hackrf_proxy.Radio.Device.{
  Device, handle, start_rx, read, stop, stop_transmitter, transmit, describe, invalidate,
}

abbrev pub error_of : {A : Type 0} → Result Error A → Option Error
error_of (ok a) = none
error_of (err e) = some e

error_of-some : {A : Type 0} (r : Result Error A) (e : Error) → error_of r ≡ some e → r ≡ err e
error_of-some (ok a) e h = ground arith
error_of-some (err x) e h = ground arith

-- A call of one of the methods.
pub data Attempt : Type 0 where
  starting : ℕ → Attempt
  reading : List ℕ → Attempt
  stopping describing : Attempt
  transmitting : TxParams → List ℕ → Attempt

-- The call is refused before it reaches the radio unless a stream is open to be read, and the
-- transmit gain is one that the radio has.
abbrev pub ReachesRadio : {Handle Stream : Type 0} → Attempt → Device Handle Stream → Type 0
ReachesRadio (starting f) d = Unit
ReachesRadio (reading out) d = d.rx ≢ none
ReachesRadio stopping d = Unit
ReachesRadio describing d = Unit
ReachesRadio (transmitting p samples) d = validate_tx_gain p.txvga_db ≡ ok tt

-- The error, if the call fails, and what it leaves.
abbrev pub attempt :
    {Handle Stream W : Type 0}
    → Driver Handle Stream W
    → Attempt
    → Device Handle Stream × W
    → Option Error × (Device Handle Stream × W)
attempt drv (starting f) s = (error_of (start_rx drv f s).0, (start_rx drv f s).1)
attempt drv (reading out) s = (error_of (read drv out s).0, (read drv out s).2)
attempt drv stopping s = (error_of (stop drv s).0, (stop drv s).1)
attempt drv describing s = (error_of (describe drv s).0, (describe drv s).1)
attempt drv (transmitting p samples) s =
    (error_of (transmit drv p samples s).0, (transmit drv p samples s).1)

module _ {Handle Stream W : Type 0} (drv : Driver Handle Stream W) where
  start_rx-drops :
      (f : ℕ) (d : Device Handle Stream) (w : W) (e : Error)
      → (start_rx drv f (d, w)).0 ≡ err e
      → (start_rx drv f (d, w)).1.0.radio ≡ none
  unfolding start_rx handle open_radio invalidate
  start_rx-drops f d w e h = ground arith

  stop-drops :
      (d : Device Handle Stream) (w : W) (e : Error)
      → (stop drv (d, w)).0 ≡ err e
      → (stop drv (d, w)).1.0.radio ≡ none
  unfolding stop invalidate
  stop-drops d w e h = ground arith

  describe-drops :
      (d : Device Handle Stream) (w : W) (e : Error)
      → (describe drv (d, w)).0 ≡ err e
      → (describe drv (d, w)).1.0.radio ≡ none
  unfolding describe handle open_radio invalidate
  describe-drops d w e h = ground arith

  transmit-drops :
      (p : TxParams) (samples : List ℕ) (d : Device Handle Stream) (w : W) (e : Error)
      → validate_tx_gain p.txvga_db ≡ ok tt
      → (transmit drv p samples (d, w)).0 ≡ err e
      → (transmit drv p samples (d, w)).1.0.radio ≡ none
  unfolding transmit handle open_radio stop_transmitter invalidate
  transmit-drops p samples d w e v h = ground arith

  read-drops :
      (out : List ℕ) (stream : Stream) (d : Device Handle Stream) (w : W) (e : Error)
      → d.rx ≡ some stream
      → (read drv out (d, w)).0 ≡ err e
      → (read drv out (d, w)).2.0.radio ≡ none
  unfolding read invalidate
  read-drops out stream d w e r h = ground arith

  -- A call that reached the radio and failed leaves no handle behind, so that the next call opens the
  -- device afresh.
  pub attempt_drops_handle :
      (a : Attempt) (d : Device Handle Stream) (w : W) (e : Error)
      → ReachesRadio a d
      → (attempt drv a (d, w)).0 ≡ some e
      → (attempt drv a (d, w)).1.0.radio ≡ none
  attempt_drops_handle (starting f) d w e p h =
      start_rx-drops f d w e (error_of-some (start_rx drv f (d, w)).0 e h)
  attempt_drops_handle (reading out) d w e p h = elim (Option-cases d.rx) [
    | inl q ↦ absurd (p q)
    | inr (stream, q) ↦ read-drops out stream d w e q (error_of-some (read drv out (d, w)).0 e h)
  ]
  attempt_drops_handle stopping d w e p h = stop-drops d w e (error_of-some (stop drv (d, w)).0 e h)
  attempt_drops_handle describing d w e p h =
      describe-drops d w e (error_of-some (describe drv (d, w)).0 e h)
  attempt_drops_handle (transmitting params samples) d w e p h =
      transmit-drops params samples d w e p
        (error_of-some (transmit drv params samples (d, w)).0 e h)
