-- ===== src/Clock.antt =====
-- src/clock.rs: non-zero durations, and the clocks that give the time in seconds as an f64.
pub mod Nanos
pub mod Exact
pub mod Advance
pub mod Display
pub mod Tests
pub mod Source
pub mod Manual
