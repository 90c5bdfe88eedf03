-- ===== src/Cli/Commands/Gain.antt =====
-- The gain that `serve` of proxyd/src/main.rs checks, and the gains that the radio is asked for.
use hackrf_proxy.Base.{ℕ, ◌≤◌, Option, none, some, ◌≡◌, refl, ap, arith}
use hackrf_proxy.Base.Results.{ok}
use hackrf_proxy.Base.Floats.{F64}
use hackrf_proxy.Wire.{Transmit, validate}
use hackrf_proxy.Wire.Validate.{validate_iff}
use hackrf_proxy.Engine.State.{Config}
use hackrf_proxy.Engine.Commands.{tx_params, or_default}
use hackrf_proxy.Radio.Gains.{validate_tx_gain, ensure}
use hackrf_proxy.Radio.Device.{Device}
use hackrf_proxy.Cli.Options.{ServeOptions}
use hackrf_proxy.Cli.Commands.{serve_config, serve_setup}

possible : (g : ℕ) → validate_tx_gain g ≡ ok tt → g ≤ 47
unfolding validate_tx_gain ensure
possible g h = ground arith

accepted : (g : ℕ) → g ≤ 47 → validate_tx_gain g ≡ ok tt
unfolding validate_tx_gain ensure
accepted g h = ground arith

or_default-bound :
    (o : Option ℕ) (d : ℕ) → ((g : ℕ) → o ≡ some g → g ≤ 47) → d ≤ 47 → or_default o d ≤ 47
or_default-bound none d h b = b
or_default-bound (some g) d h b = h g refl

module _ (fp : F64) {Handle Stream : Type 0} where
  setup-gain :
      (o : ServeOptions) (device : Device Handle Stream) (config : Config fp.Float)
      → serve_setup fp o ≡ ok (device, config)
      → (validate_tx_gain o.txvga ≡ ok tt) × (config ≡ serve_config fp o)
  unfolding serve_setup
  setup-gain o device config h = ground arith

  -- Once the daemon's options are accepted, the radio is never asked for a transmit gain that it
  -- refuses: the gain for every request that passes validation is one that the hardware has, whether
  -- the request gives it or the options do.
  pub serve_setup-gain :
      (o : ServeOptions) (device : Device Handle Stream) (config : Config fp.Float) (r : Transmit)
      → serve_setup fp o ≡ ok (device, config)
      → validate r ≡ ok tt
      → validate_tx_gain ((tx_params r config).txvga_db) ≡ ok tt
  unfolding tx_params serve_config
  serve_setup-gain o device config r h v =
      let set = setup-gain o device config h in
      let asked = ((validate_iff r).0 v).0.gain_possible in
      let default : config.txvga_db ≡ o.txvga = ap (λ (c : Config fp.Float). c.txvga_db) set.1 in
      let bound = possible o.txvga set.0 in
      accepted (or_default r.txvga_db config.txvga_db)
        (or_default-bound r.txvga_db config.txvga_db asked (omega arith))
