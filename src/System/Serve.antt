-- ===== src/System/Serve.antt =====
-- What `serve` of proxyd/src/main.rs runs side by side: the radio thread with the arbiter, and
-- whatever holds a sender of the command channel, the connections and the task over arrivals. A step
-- is one that any of them takes, so that the steps are every interleaving. Connections are known by
-- what they send: an allowed command.
pub mod Histories
pub mod Shutdown
use hackrf_proxy.Base.{ℕ, suc, ◌<◌, Bool, true, false, List, [], ◌∷◌, ◌++◌, length, ◌≡◌}
use hackrf_proxy.Base.Floats.{F64}
use hackrf_proxy.Engine.World.{Transceiver, Os}
use hackrf_proxy.Engine.State.{Config, Sys}
use hackrf_proxy.Engine.Commands.{Command}
use hackrf_proxy.Engine.Arbiter.{Inbox, start, round}
use hackrf_proxy.Server.Refusal.{IsAllowed}

-- `COMMAND_QUEUE`
abbrev pub command_queue : ℕ
command_queue = 16

-- The command channel, oldest command first; whether the runtime, and with it any sender, is still
-- there; whether the radio thread has not returned; and the state of its arbiter. The last two
-- fields are history: the commands that were sent and what the arbiter found, oldest first.
pub record Daemon (F W : Type 0) : Type 0 where
  pub queue : List Command
  pub is_serving : Bool
  pub is_running : Bool
  pub arbiter : Sys F W
  pub accepted : List Command
  pub inbox : List Inbox

module _ (fp : F64) {W : Type 0} (tr : Transceiver W) (os : Os W) where
  open fp use {Float}

  -- The channel is made and the radio thread spawned, with the configuration that `serve` is given:
  -- its arbiter starts, and nothing has been sent.
  unfoldable pub launch : Config Float → W → Daemon Float W
  launch config w = record {
    queue = [];
    is_serving = true;
    is_running = true;
    arbiter = start fp tr os config w;
    accepted = [];
    inbox = [];
  }

  -- A `send` that has found room.
  abbrev pub accept : Command → Daemon Float W → Daemon Float W
  accept c d = record d { queue = d.queue ++ c ∷ []; accepted = d.accepted ++ c ∷ [] }

  -- A round of the arbiter on what it has found.
  abbrev pub turn : Inbox → Daemon Float W → Daemon Float W
  turn i d = record d { arbiter = round fp tr os i d.arbiter; inbox = d.inbox ++ i ∷ [] }

  -- `send` waits for room. The arbiter takes the oldest command; it finds the channel empty while it
  -- polls, with the receiver on, and closed once the queue is empty and no sender is left, on which
  -- its thread returns. The runtime is dropped at any time.
  pub data Step : Daemon Float W → Daemon Float W → Type 0 where
    request :
        {d : Daemon Float W} (c : Command)
        → IsAllowed c
        → d.is_serving ≡ true
        → length d.queue < command_queue
        → Step d (accept c d)
    arrival :
        {d : Daemon Float W}
        → d.is_serving ≡ true
        → length d.queue < command_queue
        → Step d (accept Command.device_arrived d)
    take :
        {d : Daemon Float W} (c : Command) (rest : List Command)
        → d.is_running ≡ true
        → d.queue ≡ c ∷ rest
        → Step d (turn (Inbox.received c) (record d { queue = rest }))
    poll :
        {d : Daemon Float W}
        → d.is_running ≡ true
        → d.is_serving ≡ true
        → d.queue ≡ []
        → d.arbiter.state.rx_enabled ≡ true
        → Step d (turn Inbox.empty d)
    shut : {d : Daemon Float W} → d.is_serving ≡ true → Step d (record d { is_serving = false })
    leave :
        {d : Daemon Float W}
        → d.is_running ≡ true
        → d.is_serving ≡ false
        → d.queue ≡ []
        → Step d (turn Inbox.disconnected (record d { is_running = false }))

  -- So many steps, the last one outermost.
  pub data Steps (d : Daemon Float W) : ℕ → Daemon Float W → Type 0 where
    here : Steps d 0 d
    then : {n : ℕ} {e f : Daemon Float W} → Steps d n e → Step e f → Steps d (suc n) f
