-- ===== src/Ook/Reception.antt =====
-- A transmission that is sent between two silences and detected while it arrives, over `Detector` and
-- `render_transmission` of proxyd/src/ook.rs.
pub mod Framing
pub mod Detection
