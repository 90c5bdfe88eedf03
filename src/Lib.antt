-- ===== src/Lib.antt =====
-- hackrf-proxyd, the daemon that shares one HackRF among clients: a model of its core in
-- proxyd/src, and what makes it correct.
--
-- The program. Clients speak JSON over a WebSocket (proxyd/src/server.rs); a request is validated
-- (proxyd/src/wire.rs) and sent as a command to the arbiter, one thread that owns the radio
-- (proxyd/src/engine.rs). The arbiter either receives, feeding every transfer to a streaming on-off
-- keying detector (proxyd/src/ook.rs), or preempts the receiver to send a rendered frame. It reaches
-- the hardware through the trait `Transceiver`, which `Device` (proxyd/src/radio.rs) implements on
-- the USB driver. The command line (proxyd/src/main.rs) starts the daemon, and records, analyses and
-- repeats signals by hand with the same modules.
--
-- The files.
--   Base      Boolean tests, lists, machine words, `i64` and results over the native numbers, and
--             the parameter `F64`; programs that may fail, panic or run out of fuel (Programs); text as
--             code points; a queue that is gone after so many items (Queue).
--   Wire      wire.rs: the messages, `air_time_us`, `validate`.
--   Ook       ook.rs: Envelope (`envelope`, `peak_magnitude`), Histogram (`AmplitudeHistogram`,
--             `percentile`, `levels`), Runs (`runs`, `push_run`), Bursts (`BurstAccumulator`,
--             `split_bursts`), Detector (`Detector`; its module Offline is about how it stands to
--             `runs` and `split_bursts`), Render (`synthesize`, `render_transmission`), Reports
--             (`compare_bursts`, `duration_us`, `width_histogram`), Reception (a rendered
--             transmission between silences, and the detector).
--   Engine    engine.rs: World (`Transceiver`, `TxParams`, clocks and files), State (`State`,
--             `publish`, `fault`, `back_off`), Commands (`State::handle`, `State::transmit`),
--             Receive (`State::pump`, `State::retry`, `Recorder`), Arbiter (`run`).
--   Radio     radio.rs: Align (`pad_to_alignment`), Gains (the checks of the settings), Driver (the
--             driver, `open`), Device (`Device`), Capture (`capture`), Scan (`scan`), Send
--             (`transmit`), Hotplug (`watch_for_arrivals`).
--   Server    server.rs: `dispatch`, `status_reply`, `ask`, `error` and the read loop; Tasks (the
--             forwarder and the writer of `connection`, and the accept loop of `serve`).
--   System    Several of them together: the arbiter over the device, and Serve, what `serve` of main.rs runs side by side: the radio thread and the senders of its
--             commands, in steps.
--   Cli       main.rs: Options (`Command`), Frequency (`parse_frequency`, `--freqs`), Demod (`demod`
--             and what it calls), Commands (`main`, `info`, `transmit`, the set-up of `serve`),
--             Daemon (the rest of `serve`), Arrivals (its task that forwards arrivals).
--   Tests     Concrete instances.
--
-- How state is modelled. A method on `&mut self` is a function from the state to its result and the
-- new state. All that the arbiter's thread changes is one record, `Sys`: the `State`, the detector,
-- the buffer, the recorder, the world that the driver, the clocks and the files change, and the
-- events and replies sent so far, newest first. What each round of `run` finds in its inbox is a list
-- of `Inbox`: a command, nothing, or a closed channel; a list that ends earlier is a run that goes on,
-- so that every list is a possible interleaving of clients with the radio. `try_recv` and
-- `blocking_recv` differ in that an empty inbox blocks while the receiver is off.
--
-- Concurrency. The tasks of `serve` and the radio thread meet in the command channel. `Step` of
-- System/Serve relates the states of the daemon before and after one of them acts: a sender that finds
-- room, the arbiter taking the oldest command, or polling, or leaving once the channel is closed, and
-- the runtime being dropped. A connection is known by what it sends, an allowed command, and what
-- it is answered stands in the log of replies.
--
-- Parameters. `f64` is the record `F64` of the operations that the code applies, of which nothing is
-- assumed; a theorem that needs some of its arithmetic names it as a hypothesis. The driver of the
-- HackRF, the clocks and files, the JSON codec and the channels are records of functions over a state
-- of their own, with no assumption but those that a theorem lists.
--
-- Integers. Arithmetic that the source does not saturate wraps, as in a release build; `usize` has 64
-- bits. The ranges of Rust's types are hypotheses where a theorem needs them.
--
-- Lists that the source extends at the end are held newest first where the code reads their last
-- item: the runs being sliced and the edges of the burst being assembled.
--
-- Fuel. `chunks` runs on fuel, one for each byte; every chunk takes at least one byte, so that it
-- never runs out. The loops of `capture` and `scan` end when the driver has delivered enough; they run
-- on fuel for one round for each byte that is wanted, which is enough for a driver that delivers at
-- least a byte in each read. All other loops are recursion on a list or on a count.
--
-- A command of the command line is a `Run`: it is done, has failed with an error, has panicked, or is
-- out of fuel. `EndsIn` holds of a run that fails, or that is done with what is stated.
--
-- Not modelled: log output, the formatting of printed lines, the context lines of errors, the JSON
-- encoding, the parsing of the options, how the async runtime interleaves the tasks of one connection,
-- `shutdown_signal`, and the Python client.
pub mod Base
pub mod Wire
pub mod Ook
pub mod Engine
pub mod Radio
pub mod Server
pub mod System
pub mod Cli
pub mod Tests
