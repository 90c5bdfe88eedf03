-- ===== src/Cli.antt =====
-- The command line, proxyd/src/main.rs: its options, and what each command makes of them.
pub mod Options
pub mod Frequency
pub mod Demod
pub mod Daemon
pub mod Commands
pub mod Arrivals
