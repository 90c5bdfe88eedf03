-- ===== src/Tests/ServeTests.antt =====
-- The daemon of proxyd/src/main.rs with a client that asks for its status while it starts.
use hackrf_proxy.Base.{ℕ, suc, ◌+◌, ◌≤◌, true, false, [], ◌++◌, length, ◌≡◌, refl, arith}
use hackrf_proxy.Engine.Commands.{Command}
use hackrf_proxy.Engine.Arbiter.Replies.{kinds}
use hackrf_proxy.Engine.Arbiter.Trace.{Log, traced, beside}
use hackrf_proxy.System.Serve.{Daemon, command_queue, launch, accept, Step, Steps}
use hackrf_proxy.System.Serve.Histories.{owed_for, launch_answers}
use hackrf_proxy.System.Serve.Shutdown.{shutdown_ends}
use hackrf_proxy.Tests.Rational.{rational, Fraction}
use hackrf_proxy.Tests.Fixtures.{config, willing, still}

abbrev Node : Type 0
Node = Daemon Fraction (Log (Unit {0}))

abbrev begun : Node
begun = launch rational (traced willing) (beside still) config ([], tt)

-- A request for the status is sent, and the daemon shut down.
abbrev asked : Node
asked = accept rational (traced willing) (beside still) Command.status begun

abbrev shut : Node
shut = record asked { is_serving = false }

asked_steps : Steps rational (traced willing) (beside still) begun 1 asked
unfolding launch
asked_steps = Steps.then Steps.here (Step.request Command.status tt refl (omega arith))

shut_steps : Steps rational (traced willing) (beside still) begun 2 shut
unfolding launch
shut_steps = Steps.then asked_steps (Step.shut refl)

shut_running : shut.is_running ≡ true
unfolding launch
shut_running = refl

launch_answers_example :
    (kinds asked.arbiter.replies ++ owed_for asked.queue ≡ owed_for asked.accepted)
    × (asked.is_running ≡ false → kinds asked.arbiter.replies ≡ owed_for asked.accepted)
launch_answers_example =
    launch_answers rational (traced willing) (beside still) config ([], tt) 1 asked asked_steps

shutdown_ends_example :
    ((n : ℕ) (e : Node)
      → Steps rational (traced willing) (beside still) shut n e
      → n ≤ command_queue + 1)
    × ((e : Node) × Steps rational (traced willing) (beside still) shut (suc (length shut.queue)) e
        × (e.is_running ≡ false)
        × (kinds e.arbiter.replies ≡ owed_for shut.accepted))
shutdown_ends_example =
    shutdown_ends rational (traced willing) (beside still) config ([], tt) 2 shut shut_steps refl
      shut_running
