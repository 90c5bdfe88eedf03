-- ===== src/Ook.antt =====
-- Signal processing, proxyd/src/ook.rs: one module for each stage between samples and timings.
pub mod Envelope
pub mod Histogram
pub mod Runs
pub mod Bursts
pub mod Detector
pub mod Render
pub mod Reports
pub mod Reception
