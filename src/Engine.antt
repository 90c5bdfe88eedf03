-- ===== src/Engine.antt =====
-- The half-duplex arbiter, proxyd/src/engine.rs. The radio thread is a function of what its inbox
-- holds at each round; all that it changes is one record, `Sys`. The radio is the trait
-- `Transceiver`, over a state `W` of the world; clocks and files are the operations of `Os`.
pub mod World
pub mod State
pub mod Commands
pub mod Receive
pub mod Arbiter
