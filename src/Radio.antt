-- ===== src/Radio.antt =====
-- The radio itself, proxyd/src/radio.rs.
pub mod Align
pub mod Gains
pub mod Driver
pub mod Device
pub mod Capture
pub mod Scan
pub mod Send
pub mod Hotplug
