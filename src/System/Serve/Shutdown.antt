-- ===== src/System/Serve/Shutdown.antt =====
-- The end of `serve` in proxyd/src/main.rs, once the runtime is dropped.
use hackrf_proxy.Base.{
  ℕ, suc, ◌+◌, ◌≤◌, true, false, List, [], ◌∷◌, length, ◌≡◌, refl, ap, ◌∙◌, arith, if◌then◌else◌,
}
use hackrf_proxy.Base.Floats.{F64}
use hackrf_proxy.Engine.World.{Transceiver, Os}
use hackrf_proxy.Engine.State.{Config}
use hackrf_proxy.Engine.Commands.{Command}
use hackrf_proxy.Engine.Arbiter.{Inbox}
use hackrf_proxy.System.Serve.{Daemon, command_queue, launch, turn, Step, Steps}
use hackrf_proxy.System.Serve.Histories.{launched-IsServed, owed_for, launch_answers}
use hackrf_proxy.Engine.Arbiter.Replies.{kinds}

module _ (fp : F64) {W : Type 0} (tr : Transceiver W) (os : Os W) where
  open fp use {Float}

  -- The rounds that are left to the radio thread when nothing is sent any more.
  abbrev rounds_left : Daemon Float W → ℕ
  rounds_left d = if d.is_running then suc (length d.queue) else 0

  abbrev Closing : Daemon Float W → Daemon Float W → Type 0
  Closing d e = (e.is_serving ≡ false) × (suc (rounds_left e) ≡ rounds_left d)

  step-Closing : {d e : Daemon Float W} → Step fp tr os d e → d.is_serving ≡ false → Closing d e
  step-Closing (Step.request {d} c allowed serving room) shut = ground arith
  step-Closing (Step.arrival {d} serving room) shut = ground arith
  step-Closing (Step.take {d} c rest running next) shut =
      let len = ap length next in (shut, ground arith)
  step-Closing (Step.poll {d} running serving drained wanted) shut = ground arith
  step-Closing (Step.shut {d} serving) shut = ground arith
  step-Closing (Step.leave {d} running closed drained) shut =
      let len = ap length drained in (shut, ground arith)

  steps_Closing :
      {d : Daemon Float W} {n : ℕ} {e : Daemon Float W}
      → Steps fp tr os d n e
      → d.is_serving ≡ false
      → (e.is_serving ≡ false) × (n + rounds_left e ≡ rounds_left d)
  steps_Closing Steps.here shut = (shut, omega arith)
  steps_Closing (Steps.then {n} {e} {f} steps step) shut =
      let (still, count) = steps_Closing steps shut in
      let (closed, fewer) = step-Closing step still in (closed, omega (arith, count, fewer))

  -- A step, and what follows it.
  first :
      {d e : Daemon Float W} {n : ℕ} {f : Daemon Float W}
      → Step fp tr os d e
      → Steps fp tr os e n f
      → Steps fp tr os d (suc n) f
  first step Steps.here = Steps.then Steps.here step
  first step (Steps.then steps last) = Steps.then (first step steps) last

  pub followed_by :
      {d e : Daemon Float W} {m n : ℕ} {f : Daemon Float W}
      → Steps fp tr os d m e
      → Steps fp tr os e n f
      → (k : ℕ) × Steps fp tr os d k f
  followed_by {m = m} steps Steps.here = (m, steps)
  followed_by steps (Steps.then more last) =
      let (k, whole) = followed_by steps more in (suc k, Steps.then whole last)

  -- The rounds of the arbiter that a closed queue still brings.
  abbrev pub drain : List Command → Daemon Float W → Daemon Float W
  drain [] d = turn fp tr os Inbox.disconnected (record d { is_running = false })
  drain (c ∷ rest) d = drain rest (turn fp tr os (Inbox.received c) (record d { queue = rest }))

  abbrev Drains : Daemon Float W → List Command → Type 0
  Drains d queue =
      Steps fp tr os d (suc (length queue)) (drain queue d)
      × ((drain queue d).is_running ≡ false)
      × ((drain queue d).accepted ≡ d.accepted)

  pub drain_ends :
      (queue : List Command) (d : Daemon Float W)
      → d.queue ≡ queue
      → d.is_running ≡ true
      → d.is_serving ≡ false
      → Drains d queue
  drain_ends [] d drained running shut =
      (Steps.then Steps.here (Step.leave running shut drained), refl, refl)
  drain_ends (c ∷ rest) d next running shut =
      let (steps, gone, same) =
        drain_ends rest (turn fp tr os (Inbox.received c) (record d { queue = rest })) refl running
          shut in
      (first (Step.take c rest running next) steps, gone, same)

  -- Once the runtime is dropped, the radio thread returns: whatever interleaving led there, every run
  -- from then on takes at most 17 steps, and one of as many steps as commands wait, and one more,
  -- ends with the thread returned and every command that was sent answered.
  pub shutdown_ends :
      (config : Config Float) (w : W) (m : ℕ) (d : Daemon Float W)
      → Steps fp tr os (launch fp tr os config w) m d
      → d.is_serving ≡ false
      → d.is_running ≡ true
      → ((n : ℕ) (e : Daemon Float W) → Steps fp tr os d n e → n ≤ command_queue + 1)
        × ((e : Daemon Float W) × Steps fp tr os d (suc (length d.queue)) e
            × (e.is_running ≡ false)
            × (kinds e.arbiter.replies ≡ owed_for d.accepted))
  shutdown_ends config w m d steps shut running =
      let e = drain d.queue d in
      let (rest, gone, same) = drain_ends d.queue d refl running shut in
      let (k, whole) = followed_by steps rest in
      let (all, none_left) = launch_answers fp tr os config w k e whole in
      let few = (launched-IsServed fp tr os config w steps).bounded in
      (
        λ n f more. let (closed, count) = steps_Closing more shut in ground arith,
        (e, rest, gone, none_left gone ∙ ap owed_for same),
      )
