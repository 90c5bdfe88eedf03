-- ===== src/Cli/Arrivals.antt =====
-- Telling the arbiter that a HackRF has appeared, the task that `serve` of proxyd/src/main.rs spawns
-- over `watch_for_arrivals`. The command channel is `send`, over the state `S` behind it.
pub mod Counting
use hackrf_proxy.Base.{Bool, true, false, List, [], ◌∷◌}
use hackrf_proxy.Engine.Commands.{Command}

module _ {S : Type 0} (send : Command → S → Bool × S) where
  -- Up to the first command that the channel refuses.
  unfoldable pub forward_arrivals : List (Unit {0}) → S → S
  forward_arrivals [] s = s
  forward_arrivals (arrival ∷ rest) s =
      let (sent, s') = send Command.device_arrived s in
      elim sent [ true ↦ forward_arrivals rest s' | false ↦ s' ]
