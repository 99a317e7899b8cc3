-- ===== src/Float.antt =====
-- IEEE 754 binary64 as Rust's `f64` uses it.
pub mod Round
pub mod Value
pub mod Digits
pub mod Closed
pub mod Exact
pub mod Bits
pub mod Monotone
pub mod Difference
pub mod Order
pub mod Ordered
pub mod Grid
pub mod Duration
pub mod Tests
