-- ===== src/Cli/Daemon.antt =====
-- The rest of `serve` in proxyd/src/main.rs, from the start of the radio thread on. Threads, the
-- runtime, the listener and signals are `Host`, over the state `W` of everything.
use hackrf_proxy.Base.{String}
use hackrf_proxy.Base.Results.{Error, Result, ok, err}
use hackrf_proxy.Base.Programs.{Run, and_then, call}

-- `start_radio` makes the channels and spawns the thread of `engine::run`; `accept_connections` is
-- `server::serve` until the shutdown signal; `join_radio` fails if the thread panicked.
pub record Host (D C Listener Arrivals W : Type 0) : Type 0 where
  pub start_radio : D → C → W → Result Error (Unit {0}) × W
  pub build_runtime : W → Result Error (Unit {0}) × W
  pub bind : String → W → Result Error Listener × W
  pub watch_for_arrivals : W → Result Error Arrivals × W
  pub spawn_forwarder : Arrivals → W → W
  pub accept_connections : Listener → W → Result Error (Unit {0}) × W
  pub drop_runtime : W → W
  pub join_radio : W → Result Error (Unit {0}) × W

module _ {D C Listener Arrivals W : Type 0} (host : Host D C Listener Arrivals W) where
  -- Arrivals are forwarded if they can be watched for.
  unfoldable pub watch : W → W
  watch w =
      let (watched, w') = host.watch_for_arrivals w in
      elim watched [ ok arrivals ↦ host.spawn_forwarder arrivals w' | err e ↦ w' ]

  -- The `async` block.
  unfoldable pub serve_connections : String → W → Result Error (Unit {0}) × W
  unfolding watch
  serve_connections listen w =
      let (bound, w') = host.bind listen w in
      elim bound [ err e ↦ (err e, w') | ok listener ↦ host.accept_connections listener (watch w') ]

  -- What follows the `async` block, with its outcome: the runtime is dropped, and the radio thread
  -- joined.
  unfoldable pub wind_down : Result Error (Unit {0}) × W → Run W (Unit {0})
  wind_down (outcome, w) =
      and_then (call (host.join_radio (host.drop_runtime w))) λ u w'. call (outcome, w')

  unfoldable pub serve_daemon : String → D → C → W → Run W (Unit {0})
  unfolding serve_connections wind_down
  serve_daemon listen device config w =
      and_then (call (host.start_radio device config w)) λ started w₁.
        and_then (call (host.build_runtime w₁)) λ built w₂. wind_down (serve_connections listen w₂)
