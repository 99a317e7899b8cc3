-- ===== src/Stream/Suite.antt =====
-- The tests of src/futures/stream.rs, run on the model: each is true where no assertion of the test fails.
-- Left out is the test of a stream that is slow itself, which another crate delays.
use gardal.Prelude.{
  ℕ, ◌+◌, ◌*◌, ◌%◌, ◌≡◌, refl, Bool, true, false, ◌&&◌, ◌==◌, leb, ltb, if◌then◌else◌, none, some,
  List, [], ◌∷◌, length,
}
use gardal.Float.Value.{running}
use gardal.Float.Bits.{to_bits, from_bits}
use gardal.Float.Duration.{from_secs_f64, duration_since, as_secs_f64}
use gardal.Clock.Nanos
use gardal.Clock.Nanos.{from_secs_f64_unchecked, to_duration}
use gardal.Clock.Source.{TokioClock, tokio_clock, since_epoch}
use gardal.Limit as Limits
use gardal.Limit.{Limit}
use gardal.Storage.Interface.{load, settle}
use gardal.Storage.Local.{LocalStorage, local_storage}
use gardal.Storage.Loop.{update, cas_loop}
use gardal.Storage.Bucket.{
  balance_of, zero_time_new, consume_turn, return_turn, return_tokens, time_when_bucket,
}
use gardal.Storage.Bucket as Zero
use gardal.RawBucket
use gardal.RawBucket.{saturating_consume_inner, borrow, borrow_loop, consume_or_borrow, up_to}
use gardal.Bucket
use gardal.Bucket.{TokenBucket, on_raw, with_datum}
use gardal.Stream
use gardal.Stream.{
  ready, pending, Runtime, WeightedStream, poll_next, fetch, pay, postpone, deliver, take_pending,
  leave,
}
use gardal.Stream.Paused.{paused, fresh, clock, executor, Iter, iter, iterates}
use gardal.Stream.Executor.{run}

abbrev Tested : Type 0
Tested = WeightedStream (Iter ℕ) LocalStorage TokioClock ℕ ℕ

abbrev bucket : Limit → TokenBucket LocalStorage TokioClock
bucket limit = with_datum limit (clock 0)

weighted_of : List ℕ → Limit → (ℕ → ℕ) → Tested
weighted_of items limit weight_fn = Stream.new (iter items) (some (bucket limit)) weight_fn

throttled_of : List ℕ → Limit → Tested
throttled_of items limit = (Stream.throttled_new (iter items) (some (bucket limit))).weighted_stream

-- `NonZeroU32::new(item as u32).unwrap_or(nonzero!(1u32))`
own_weight : ℕ → ℕ
own_weight item = let w = item % 4_294_967_296 in if w == 0 then 1 else w

same : List ℕ → List ℕ → Bool
same [] [] = true
same (x ∷ xs) (y ∷ ys) = x == y && same xs ys
same (x ∷ xs) [] = false
same [] (y ∷ ys) = false

items_of : List (ℕ × ℕ) → List ℕ
items_of [] = []
items_of ((item, at) ∷ rest) = item ∷ items_of rest

-- The time that the loop took, which ends with its last item.
elapsed : List (ℕ × ℕ) → ℕ
elapsed [] = 0
elapsed ((item, at) ∷ []) = at
elapsed (a ∷ (b ∷ rest)) = elapsed (b ∷ rest)

-- Three polls an item, and one more.
passes : List ℕ → Tested → (List (ℕ × ℕ) → Bool) → Bool
passes items stream check =
    elim (run executor (3 * length items + 1) 0
      (record { this = stream; env = []; cx = fresh 0 })) [
        | none ↦ false
        | some results ↦ check results
      ]

-- All items in order, and a condition on the time.
in_time : List ℕ → (ℕ → Bool) → List (ℕ × ℕ) → Bool
in_time items on_time results = same (items_of results) items && on_time (elapsed results)

abbrev five : List ℕ
five = 1 ∷ 2 ∷ 3 ∷ 4 ∷ 5 ∷ []

test_throttled_stream : Bool
test_throttled_stream =
    let stream = throttled_of five (Limits.per_second_and_burst 1 1) in
    passes five stream (in_time five (λ t. leb 4_000_000_000 t))

test_throttled_stream_burst : Bool
test_throttled_stream_burst =
    let stream = throttled_of five (Limits.per_second_and_burst 1 3) in
    passes five stream (in_time five (λ t. leb 2_000_000_000 t))

test_throttled_stream_all_ready : Bool
test_throttled_stream_all_ready =
    let stream = throttled_of five (Limits.with_burst (Limits.per_second 100_000) 1) in
    passes five stream (in_time five (λ t. ltb t 1_000_000_000))

test_weighted_stream_uniform_weight : Bool
test_weighted_stream_uniform_weight =
    let stream = weighted_of five (Limits.per_second_and_burst 1 1) (λ _. 1) in
    passes five stream (in_time five (λ t. leb 4_000_000_000 t))

test_weighted_stream_variable_weight : Bool
test_weighted_stream_variable_weight =
    let weight_fn = λ (item : ℕ). if item % 2 == 0 then 2 else 1 in
    let stream = weighted_of five (Limits.per_second_and_burst 2 2) weight_fn in
    passes five stream (in_time five (λ t. leb 2_500_000_000 t))

test_weighted_stream_with_burst : Bool
test_weighted_stream_with_burst =
    let stream = weighted_of five (Limits.per_second_and_burst 1 5) own_weight in
    passes five stream (in_time five (λ t. leb 10_000_000_000 t))

test_weighted_stream_empty : Bool
test_weighted_stream_empty =
    let stream = weighted_of [] (Limits.per_second_and_burst 1 1) (λ _. 1) in
    passes [] stream (λ results. same (items_of results) [])

test_weighted_stream_single_item : Bool
test_weighted_stream_single_item =
    let stream = weighted_of (42 ∷ []) (Limits.per_second_and_burst 10 10) (λ _. 3) in
    passes (42 ∷ []) stream (in_time (42 ∷ []) (λ t. ltb t 1_000_000_000))

delivered_late : List (ℕ × ℕ) → Bool
delivered_late ((item, at) ∷ []) = item == 10 && leb 9_000_000_000 at
delivered_late [] = false
delivered_late (a ∷ (b ∷ rest)) = false

test_weighted_stream_expensive_item_delayed : Bool
test_weighted_stream_expensive_item_delayed =
    let stream = weighted_of (10 ∷ []) (Limits.per_second_and_burst 1 10) own_weight in
    passes (10 ∷ []) stream delivered_late

mixed_times : List (ℕ × ℕ) → Bool
mixed_times ((item1, time1) ∷ ((item2, time2) ∷ ((item3, time3) ∷ []))) =
    item1 == 1
    && ltb time1 1_000_000_000
    && item2 == 5
    && leb 2_000_000_000 time2
    && item3 == 1
    && ltb time2 time3
mixed_times _ = false

test_weighted_stream_mixed_items_correct_timing : Bool
test_weighted_stream_mixed_items_correct_timing =
    let items = 1 ∷ 5 ∷ 1 ∷ [] in
    passes items (weighted_of items (Limits.per_second_and_burst 2 10) own_weight) mixed_times

-- A proof names this one definition to run a test.
calls : Unit {0}
unfolding running run poll_next fetch pay postpone deliver take_pending leave with_datum
    RawBucket.new Bucket.consume_with_borrow on_raw RawBucket.consume_with_borrow consume_or_borrow
    borrow_loop saturating_consume_inner borrow up_to Zero.consume return_tokens time_when_bucket
    update cas_loop settle load consume_turn return_turn zero_time_new balance_of Nanos.new_checked
    to_duration from_secs_f64 Nanos.as_secs_f64 from_secs_f64_unchecked to_bits from_bits
    since_epoch duration_since as_secs_f64 Limits.per_second Limits.per_second_and_burst
    Limits.with_burst weighted_of throttled_of own_weight same items_of elapsed passes in_time
    delivered_late mixed_times
calls = tt

throttled_stream_passes :
    (test_throttled_stream ≡ true)
    × (test_throttled_stream_burst ≡ true)
    × (test_throttled_stream_all_ready ≡ true)
unfolding calls test_throttled_stream test_throttled_stream_burst test_throttled_stream_all_ready
throttled_stream_passes = (refl, refl, refl)

weighted_stream_passes :
    (test_weighted_stream_uniform_weight ≡ true)
    × (test_weighted_stream_variable_weight ≡ true)
    × (test_weighted_stream_with_burst ≡ true)
    × (test_weighted_stream_empty ≡ true)
    × (test_weighted_stream_single_item ≡ true)
unfolding calls test_weighted_stream_uniform_weight test_weighted_stream_variable_weight
    test_weighted_stream_with_burst test_weighted_stream_empty test_weighted_stream_single_item
weighted_stream_passes = (refl, refl, refl, refl, refl)

delays_pass :
    (test_weighted_stream_expensive_item_delayed ≡ true)
    × (test_weighted_stream_mixed_items_correct_timing ≡ true)
unfolding calls test_weighted_stream_expensive_item_delayed
    test_weighted_stream_mixed_items_correct_timing
delays_pass = (refl, refl)
