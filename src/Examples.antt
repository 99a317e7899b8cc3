-- ===== src/Examples.antt =====
-- examples/weighted_stream.rs: two streams, of tasks that weigh their size and of texts that weigh their
-- length, at the times at which they are delivered under tokio's clock. What it prints is left out.
use gardal.Prelude.{ℕ, ◌*◌, ◌+◌, ◌%◌, ◌==◌, ◌≡◌, refl, if◌then◌else◌, Option, some, List, [], ◌∷◌}
use Prim.Native.String.{String, len}
use gardal.Float.Value.{running}
use gardal.Float.Bits.{to_bits, from_bits}
use gardal.Float.Duration.{from_secs_f64, duration_since, as_secs_f64}
use gardal.Clock.Nanos
use gardal.Clock.Nanos.{from_secs_f64_unchecked, to_duration}
use gardal.Clock.Source.{TokioClock, tokio_clock, since_epoch}
use gardal.Limit as Limits
use gardal.Storage.Interface.{load, settle}
use gardal.Storage.Local.{LocalStorage, local_storage}
use gardal.Storage.Loop.{update, cas_loop}
use gardal.Storage.Bucket.{
  balance_of, zero_time_new, consume_turn, return_turn, return_tokens, time_when_bucket,
}
use gardal.Storage.Bucket as Zero
use gardal.RawBucket
use gardal.RawBucket.{saturating_consume_inner, borrow, borrow_loop, consume_or_borrow, up_to}
use gardal.Aliases.{LocalTokenBucket}
use gardal.Bucket
use gardal.Bucket.{on_raw}
use gardal.Stream
use gardal.Stream.{WeightedStream, poll_next, fetch, pay, postpone, deliver, take_pending, leave}
use gardal.Stream.Throttled.{throttle_weighted}
use gardal.Stream.Paused.{paused, fresh, clock, executor, Iter, iter, iterates}
use gardal.Stream.Executor.{run}

pub record SizedTask : Type 0 where
  pub name : String
  pub size : ℕ

abbrev new_task : String → ℕ → SizedTask
new_task name size = record { name = name; size = size }

-- `NonZeroU32::new(n as u32).unwrap_or(nonzero!(1u32))`
non_zero : ℕ → ℕ
non_zero n = let w = n % 4_294_967_296 in if w == 0 then 1 else w

abbrev tasks : List SizedTask
tasks =
    new_task "small_task" 1
    ∷ new_task "medium_task" 5
    ∷ new_task "large_task" 10
    ∷ new_task "tiny_task" 1
    ∷ new_task "huge_task" 20
    ∷ []

weighted_stream : WeightedStream (Iter SizedTask) LocalStorage TokioClock ℕ SizedTask
weighted_stream =
    let limit = Limits.per_second_and_burst 5 25 in
    let bucket : LocalTokenBucket TokioClock = Bucket.new limit (clock 0) in
    Stream.new (iter tasks) (some bucket) (λ task. non_zero task.size)

abbrev tasks2 : List String
tasks2 = "short" ∷ "medium_length" ∷ "very_long_string_here" ∷ "x" ∷ []

weighted_stream2 : WeightedStream (Iter String) LocalStorage TokioClock ℕ String
weighted_stream2 =
    let limit2 = Limits.per_second_and_burst 3 25 in
    let bucket2 : LocalTokenBucket TokioClock = Bucket.new limit2 (clock 0) in
    throttle_weighted (iter tasks2) bucket2 (λ text. non_zero (len text))

-- The loop over a stream, from the start of the clock.
abbrev delivered :
    {Item : Type 0}
    → ℕ
    → WeightedStream (Iter Item) LocalStorage TokioClock ℕ Item
    → Option (List (Item × ℕ))
delivered items stream =
    run executor (3 * items + 1) 0 (record { this = stream; env = []; cx = fresh 0 })

calls : Unit {0}
unfolding running run poll_next fetch pay postpone deliver take_pending leave Bucket.new
    RawBucket.with_zero_time Bucket.consume_with_borrow on_raw RawBucket.consume_with_borrow
    consume_or_borrow borrow_loop saturating_consume_inner borrow up_to Zero.consume return_tokens
    time_when_bucket update cas_loop settle load consume_turn return_turn zero_time_new balance_of
    Nanos.new_checked to_duration from_secs_f64 Nanos.as_secs_f64 from_secs_f64_unchecked to_bits
    from_bits since_epoch duration_since as_secs_f64 Limits.per_second_and_burst non_zero
    weighted_stream weighted_stream2
calls = tt

-- The bucket is full, so the first four tasks are there at once; the last one lacks 12 tokens, which the
-- bucket earns in 2.4 seconds.
tasks_delivered :
    delivered 5 weighted_stream
    ≡ some (
        (new_task "small_task" 1, 0)
        ∷ (new_task "medium_task" 5, 0)
        ∷ (new_task "large_task" 10, 0)
        ∷ (new_task "tiny_task" 1, 0)
        ∷ (new_task "huge_task" 20, 2_401_000_000)
        ∷ [])
unfolding calls
tasks_delivered = refl

-- 18 of 25 tokens are gone after two texts, and the third one lacks 14.
texts_delivered :
    delivered 4 weighted_stream2
    ≡ some (
        ("short", 0)
        ∷ ("medium_length", 0)
        ∷ ("very_long_string_here", 4_667_000_000)
        ∷ ("x", 5_000_000_000)
        ∷ [])
unfolding calls
texts_delivered = refl
