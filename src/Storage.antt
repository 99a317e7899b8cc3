-- ===== src/Storage.antt =====
-- src/storage.rs and src/storage/: the cell that holds the zero time, and the token bucket
-- operations over it.
pub mod Interface
pub mod Local
pub mod Atomic
pub mod Atomics
pub mod Loop
pub mod Linear
pub mod Progress
pub mod Bucket
pub mod Alone
pub mod Concurrent
pub mod Shared
pub mod Answers
mod Tests
