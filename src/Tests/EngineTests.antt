-- ===== src/Tests/EngineTests.antt =====
-- The arbiter, concretely.
use hackrf_proxy.Base.{
  ◌⊎◌, none, ◌≤◌, ◌<◌, true, false, some, List, [], ◌∷◌, ◌++◌, map, length, ◌≡◌, ◌⊎◌, refl, arith,
}
use hackrf_proxy.Base.Words.{add_u64}
use hackrf_proxy.Base.Results.{Error, ok, err}
use hackrf_proxy.Ook.Detector
use hackrf_proxy.Wire.{idle, transmitting, faulted, air_time_us}
use hackrf_proxy.Engine.State.{
  Sys, fault, transmit_done, current_state, fault_backoff, max_fault_backoff,
}
use hackrf_proxy.Engine.Commands.{Command, handle, set_running, transmit_request, stop_receiver}
use hackrf_proxy.Engine.Receive.{pump}
use hackrf_proxy.Engine.Arbiter.{Inbox, start, run, run_from, round}
use hackrf_proxy.Engine.Arbiter.Availability.{run_announces_state}
use hackrf_proxy.Engine.Arbiter.Told.{told}
use hackrf_proxy.Engine.Arbiter.Stale.{transmit_while_faulted}
use hackrf_proxy.Engine.Arbiter.Backoff.{run_backoff_bounded, run_backoff_widens}
use hackrf_proxy.Engine.Arbiter.Service.{frames, burst_pair, transmit_outcome, pump_delivers}
use hackrf_proxy.Engine.Arbiter.Replies.{kinds, all_owed, run_answers}
use hackrf_proxy.Tests.Rational.{rational, Fraction}
use hackrf_proxy.Tests.Fixtures.{frame, config, willing, absent, still}

abbrev asked : List Inbox
asked = Inbox.received Command.status ∷ Inbox.received (Command.transmit frame) ∷ Inbox.empty ∷ []

-- A start, and then a fault.
abbrev first : Sys Fraction (Unit {0})
first = start rational willing still config tt

abbrev listening : Sys Fraction (Unit {0})
listening = set_running true first

abbrev down : Sys Fraction (Unit {0})
down = fault still first

up : first.state.is_faulted ≡ true → first.state.rx_enabled ≡ false
unfolding start
up h = ground arith

run_announces_state_example :
    let s =
      run rational willing still config tt
        (Inbox.received (Command.transmit frame) ∷ Inbox.empty ∷ []) in
    (told s.events ≡ some (current_state s.state))
    ⊎ ((told s.events ≡ none) × (current_state s.state ≡ idle))
run_announces_state_example =
    run_announces_state rational willing still config tt
      (Inbox.received (Command.transmit frame) ∷ Inbox.empty ∷ []) (up, (tt, tt))

is_down : down.state.is_faulted ≡ true
unfolding fault
is_down = ground arith

wanted : down.state.rx_enabled ≡ true
unfolding fault start
wanted = ground arith

stopped : down.state.rx_running ≡ false
unfolding fault
stopped = ground arith

not_due : 0 < (handle rational willing still (Command.transmit frame) down).state.retry_at
unfolding fault start handle transmit_request stop_receiver
not_due = omega arith

transmit_while_faulted_example :
    let s'' = round rational willing still (Inbox.received (Command.transmit frame)) down in
    (told s''.events ≡ some transmitting) × (current_state s''.state ≡ faulted)
transmit_while_faulted_example =
    transmit_while_faulted rational willing still frame down is_down wanted stopped refl not_due

run_backoff_bounded_example :
    let s = run rational absent still config tt asked in
    (fault_backoff ≤ s.state.backoff) × (s.state.backoff ≤ max_fault_backoff)
run_backoff_bounded_example = run_backoff_bounded rational absent still config tt asked

in_bounds : first.state.backoff ≤ max_fault_backoff
unfolding start
in_bounds = omega arith

run_backoff_widens_example :
    first.state.backoff ≤ (run_from rational absent still asked first).state.backoff
run_backoff_widens_example =
    run_backoff_widens rational absent still asked first (λ out w. ground arith)
      (refl, (refl, (refl, tt))) in_bounds

transmit_outcome_example :
    let s' = handle rational willing still (Command.transmit frame) first in
    ((s'.replies ≡ transmit_done (ok (air_time_us frame)) ∷ first.replies)
      × (s'.state.counters.transmissions ≡ add_u64 first.state.counters.transmissions 1)
      × (s'.state.is_faulted ≡ first.state.is_faulted))
    ⊎ ((e : Error) × (s'.replies ≡ transmit_done (err e) ∷ first.replies)
        × (s'.state.counters.transmissions ≡ first.state.counters.transmissions)
        × (s'.state.is_faulted ≡ true))
transmit_outcome_example = transmit_outcome rational willing still frame first

running : listening.state.rx_running ≡ true
unfolding set_running
running = refl

few : listening.state.counters.rx_frames < 18_446_744_073_709_551_616
unfolding set_running start
few = omega arith

pump_delivers_example :
    let (d, bursts) = Detector.push rational listening.detector (100 ∷ 0 ∷ []) in
    let s' = pump rational willing still listening in
    (frames s'.events ≡ frames listening.events ++ map burst_pair bursts)
    × (s'.detector ≡ d)
    × (s'.state.counters.rx_frames ≡ add_u64 listening.state.counters.rx_frames (length bursts))
pump_delivers_example =
    pump_delivers rational willing still listening (100 ∷ 0 ∷ []) tt running few refl

run_answers_example : kinds (run rational absent still config tt asked).replies ≡ all_owed asked
run_answers_example = run_answers rational absent still config tt asked
