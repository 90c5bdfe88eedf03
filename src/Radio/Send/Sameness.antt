-- ===== src/Radio/Send/Sameness.antt =====
-- The command line's `transmit` and the daemon's `Device::transmit`, both of proxyd/src/radio.rs, send
-- the same bytes.
use hackrf_proxy.Base.{ℕ, List, [], ◌∷◌, ◌++◌, append_assoc, ◌≡◌, sym, ap, subst, ◌∙◌, arith}
use hackrf_proxy.Base.Results.{Error, ok}
use hackrf_proxy.Base.Programs.{Run, and_then, EndsIn, call-EndsIn, called-EndsIn}
use hackrf_proxy.Radio.Driver.{Driver, open_radio, write_all, transfers}
use hackrf_proxy.Radio.Device.{Device, transmit}
use hackrf_proxy.Engine.World.{TxParams}
use hackrf_proxy.Radio.Capture.Ending.{accepted-EndsIn}
use hackrf_proxy.Radio.Device.Transmission.{
  Call, logged, written, silence, joined, joined-transfers, write_all-written, transmit-written,
}
use hackrf_proxy.Radio.Send.{TransmitParams, tx_config, ensure_samples, send}

module _ {Handle Stream W : Type 0} (drv : Driver Handle Stream W) (nothing_to_send : Error) where
  open_radio-written :
      (l : List Call) (w : W) → written (open_radio (logged drv) (l, w)).1.0 ≡ written l
  unfolding open_radio
  open_radio-written l w = ground arith

  ensured-EndsIn :
      {B : Type 0} (Q : B → List Call × W → Type 0) (samples : List ℕ) (s : List Call × W)
      (next : Unit {0} → List Call × W → Run (List Call × W) B)
      → EndsIn Q (next tt s)
      → EndsIn Q (and_then (ensure_samples (logged drv) nothing_to_send samples s) next)
  unfolding and_then
  ensured-EndsIn Q [] s next h = tt
  ensured-EndsIn Q (x ∷ xs) s next h = h

  -- If no call fails, the samples are written, all and in order, and then four transfers of silence.
  send-written :
      (p : TransmitParams) (samples : List ℕ) (l : List Call) (w : W)
      → EndsIn
          (λ u s. written s.0 ≡ written l ++ (samples ++ silence 131_072))
          (send (logged drv) nothing_to_send p samples (l, w))
  unfolding send
  send-written p samples l w = accepted-EndsIn (logged drv) _ _ _ _ (
      accepted-EndsIn (logged drv) _ _ _ _ (
        ensured-EndsIn _ _ _ _ (
          called-EndsIn _ _ _ λ radio e₄. called-EndsIn _ _ _ λ u e₅.
            called-EndsIn _ _ _ λ stream e₆.
              let s₄ = (open_radio (logged drv) (l, w)).1 in
              let s₅ = ((logged drv).start_tx radio (tx_config p) s₄).1 in
              let s₆ = ((logged drv).start_tx_stream radio s₅).1 in
              called-EndsIn _ _ _ λ u e₇. call-EndsIn _ _ λ u e₈.
                let body = write_all (logged drv) stream (transfers samples).0 s₆ in
                let first = write_all-written drv stream (transfers samples).0 s₆.0 s₆.1 e₇ in
                let last =
                  write_all-written drv stream (transfers samples).1 body.1.0 body.1.1 e₈ in
                let same = open_radio-written l w in
                last
                ∙ ap (λ t. t ++ joined (transfers samples).1)
                    (first ∙ ap (λ t. t ++ joined (transfers samples).0) same)
                ∙ append_assoc (written l) (joined (transfers samples).0)
                    (joined (transfers samples).1)
                ∙ ap (λ t. written l ++ t) (joined-transfers samples))))

  -- The command line and the daemon write the same bytes for the same samples, whatever their
  -- settings, where neither fails.
  pub send-same :
      (p : TransmitParams) (params : TxParams) (samples : List ℕ) (d : Device Handle Stream)
      (l : List Call) (w w' : W)
      → (transmit (logged drv) params samples (d, (l, w'))).0 ≡ ok tt
      → EndsIn
          (λ u s. written s.0 ≡ written (transmit (logged drv) params samples (d, (l, w'))).1.1.0)
          (send (logged drv) nothing_to_send p samples (l, w))
  send-same p params samples d l w w' e =
      subst
        (λ t. EndsIn (λ u s. written s.0 ≡ t) (send (logged drv) nothing_to_send p samples (l, w)))
        (sym (transmit-written drv params samples d l w' e)) (send-written p samples l w)
