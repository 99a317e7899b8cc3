-- ===== src/Lib.antt =====
-- gardal, a token-bucket rate limiter: its storage algorithm, its buckets, clocks and limits.
--
-- The crate keeps a bucket as one number, the zero time: the time at which the bucket was, or will be,
-- empty. A balance is the time since then times the rate, cut at the burst. A `TokenBucket`
-- (src/bucket.rs) is a `RawTokenBucket` (src/raw_bucket.rs) with its clock and its limit; the raw
-- bucket calls `TokenBucketStorage` (src/storage.rs), which reads and swaps the zero time through the
-- trait `TimeStorage`, in compare-exchange loops.
--
--   Prelude      names of the library, Boolean tests on numbers, powers of two, sums
--   Float        IEEE-754 binary64: values, rounding to nearest even, arithmetic, bits, and the
--                durations of the standard library; a finite value is a whole number of 2^-1074
--   Clock        src/clock.rs: Nanos and its text, the trait Clock, the system's clocks and ManualClock
--   Tokens       src/tokens.rs: Tokens
--   Limit        src/limit.rs: Limit
--   Error        src/error.rs: RateLimited, ExceededBurstCapacity, and their texts
--   Storage      src/storage.rs and src/storage/: Interface is the trait TimeStorage; Local, Atomic and
--                Atomics its implementations; Loop the compare-exchange loop; Bucket the methods of
--                TokenBucketStorage; Linear, Progress, Alone, Concurrent, Shared and Answers are about
--                these, alone and among threads
--   Ideal        an abstract token bucket in whole units of time and tokens: a specification, not code;
--                Session is a run of calls of it, Balance what goes in and out of it, Ledger what clients
--                that share it are handed, and Timetable when it has the items of a list paid
--   RawBucket    src/raw_bucket.rs: RawTokenBucket; Outcome, Refusal, Saturating, Agree, Borrow, Debt,
--                Capped, Takes, Rounds, Bounds, Growth, Shared, Fit and NonZero are about its methods;
--                Exact, Refines, Retry, Pricing, Settling, Lending, LendingCapped, Levels and Reset compare
--                them with Ideal where no step rounds, and Session, Held, Loans, Serves and Runs are about runs of
--                calls
--   Threads      the loops of src/storage.rs run by many threads, one access a step; History, Quota,
--                Enough, Retry, Bound and Mixed are about any schedule of the steps, with the changes of
--                Changes and the counts of Tally
--   Bucket       src/bucket.rs: TokenBucket; Alone and Relimit are about its constructors and
--                changes of limit; Suite runs the tests of the source, with Asserts, and OneByOne and
--                Concurrent are about those that spawn threads
--   Aliases      the type aliases of src/lib.rs
--   Stream       src/futures/stream.rs: WeightedStream; Throttled is ThrottledStream and StreamExt of
--                src/futures/mod.rs; Order, Runs and Waits are about polls; Delay, Charge, Pace, Weigh, Client,
--                Pays, Moves and Rate are about how much is delivered by a time, Shared about streams that
--                share a bucket, and Executor, Prompt, OnTime and Fresh about exactly when, where no step
--                rounds; Suite runs the tests of the source under tokio's paused time, Paused
--   Examples     examples/weighted_stream.rs
--
-- Other threads. An operation runs on a `World`, a storage with the list of the interferences still to
-- come: before each access of the operation to the storage the next one happens, a write by another
-- thread or none, and it says whether a weak exchange fails for no reason. When the list is at its end
-- the operation runs alone. An operation that does not return is `none`: a compare-exchange loop has a
-- round for every interference left and one more, since a round uses one up. The borrowing loop of
-- the raw bucket has two rounds more than there are interferences left: a last round that takes a
-- part, and one that borrows the rest or ends the loop.
--
-- In Threads the interference is other threads of the same kind: a schedule picks which thread makes its
-- next access, a load or an exchange, and which exchanges the hardware fails. The log of a system has
-- the calls in the order in which they have returned; it is there for the statements only.
--
-- Where no step rounds: `IsScale` says that the rate is a power of two, and that times, zero time and
-- burst are whole numbers of a unit, at most 2^53 of them. Ideal counts in these units.
--
-- Arithmetic is bit-accurate, with every rounding of the source. Panics that the operations can reach
-- are `none` too; debug assertions are not part of a release build and are left out.
--
-- Streams. A poll works on a `Task`: the stream's fields, the interferences to come for its bucket, and
-- the task context. Streams that share a bucket take turns: one poll ends before the next begins. The
-- inner stream, and tokio's cooperative budget, wakers and sleeps, are the interfaces `InnerStream` and
-- `Runtime`; `IsTimed` says that a sleep is not over before its time, and `IsPunctual` that it ends at its
-- time, where that is whole units from now. The loop over a stream polls a pending task again when its
-- waker is called, at once or at the end of a sleep that was polled with it, and takes one fuel for a poll:
-- an item costs three at most, a poll that pays for it, the one that this poll asks for at once, and one
-- when its delay is over.
--
-- Not modelled: the pinned and mutable references to an inner stream; the feature tokio-hrtime, where a
-- delay is not reset in place; the re-exports of src/futures/timer.rs and src/lib.rs; the printing of
-- src/limit.rs and of the examples; src/storage/cache_padded.rs (copied from crossbeam-utils, alignment
-- only); benches and the other examples.
pub mod Prelude
pub mod Float
pub mod Clock
pub mod Tokens
pub mod Limit
pub mod Error
pub mod Storage
pub mod Ideal
pub mod RawBucket
pub mod Threads
pub mod Bucket
pub mod Aliases
pub mod Stream
pub mod Examples
