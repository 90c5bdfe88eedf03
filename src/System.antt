-- ===== src/System.antt =====
-- The parts put together: the arbiter over the device, and the server over the arbiter.
pub mod Serve
pub mod OnAir
