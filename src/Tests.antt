-- ===== src/Tests.antt =====
-- The theorems at concrete inputs: a radio, a clock and a client that do as little as they can, and
-- numbers that stand in for `f64`.
mod Rational
mod Fixtures
mod WireTests
mod OokTests
mod StreamTests
mod ReceptionTests
mod EngineTests
mod ServiceTests
mod SystemTests
mod ServeTests
mod RadioTests
mod CliTests
