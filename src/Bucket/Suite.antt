-- ===== src/Bucket/Suite.antt =====
-- The tests of src/bucket.rs, run on the model: each is true where no assertion of the test fails.
use gardal.Prelude.{◌==◌, Bool, true, not, ◌≡◌, refl}
use gardal.Float.Value.{of_int, neg, eq, running}
use gardal.Float.Bits.{to_bits, from_bits}
use gardal.Clock.Manual
use gardal.Clock.Manual.{ManualClock, manual_clock}
use gardal.Clock.Nanos
use gardal.Clock.Nanos.{Nanos, from_secs_f64_unchecked}
use gardal.Tokens
use gardal.Tokens.{Tokens, as_u64}
use gardal.Limit as Limits
use gardal.Limit.{Limit}
use gardal.Storage.Interface.{◌>>=◌, ◌>>◌, load, store, settle}
use gardal.Storage.Atomic.{compare_exchange_weak}
use gardal.Storage.Atomics.{padded_atomic_storage}
use gardal.Storage.Loop.{update, cas_loop}
use gardal.Storage.Bucket.{
  balance_of, zero_time_new, consume_turn, consume2, consume2_turn, return_turn, return_tokens,
  time_when_bucket,
}
use gardal.Storage.Bucket as Zero
use gardal.RawBucket
use gardal.RawBucket.{
  saturating_consume_inner, borrow, borrow_loop, consume_or_borrow, up_to, all_or_nothing, or_retry,
  est_time, set_capacity, balance_at,
}
use gardal.Bucket
use gardal.Bucket.{TokenBucket, on_raw, set_limit, with_clock}
use gardal.Bucket.Asserts.{
  advance_clock, set_clock, assert, is_none, unwrap, unwrap_ok, is_err, unwrap_err, limit,
  available_is, balance_is, not_in_debt, one_is_refused, passes, wait_is, halves,
}

basics : Bool
basics = passes (Limits.per_second_and_burst 10 20) do
  one_is_refused
  advance_clock (of_int 1)
  available_is (of_int 10)
  not_in_debt
  advance_clock (of_int 1)
  available_is (of_int 20)
  not_in_debt
  advance_clock (of_int 1)
  available_is (of_int 20)
  not_in_debt
  t ← Bucket.consume 5
  assert (not (is_none t))
  not_in_debt
  available_is (of_int 15)

basics_dynamic : Bool
basics_dynamic = passes (Limits.per_second_and_burst 10 20) do
  one_is_refused
  advance_clock (of_int 1)
  available_is (of_int 10)
  not_in_debt
  Bucket.reset (Limits.per_second_and_burst 1 50)
  available_is (of_int 10)
  balance_is (of_int 10)
  l ← limit
  assert (eq (of_int 1) (Limits.rate_per_second l))
  burst ← unwrap (Limits.burst l)
  assert (burst == 50)
  advance_clock (of_int 1)
  available_is (of_int 11)
  not_in_debt

fractional : Bool
fractional = passes (Limits.with_burst (Limits.per_minute 30) 20) do
  one_is_refused
  advance_clock (of_int 2)
  available_is (of_int 1)
  not_in_debt
  set_clock (of_int 20)
  available_is (of_int 10)
  set_clock (of_int 40)
  available_is (of_int 20)
  set_clock (of_int 50)
  available_is (of_int 20)
  not_in_debt
  t ← Bucket.consume 20
  tokens ← unwrap t
  assert (as_u64 tokens == 20)
  not_in_debt
  available_is (of_int 0)
  set_clock (of_int 53)
  available_is (halves 3)

saturating_consume : Bool
saturating_consume = passes (Limits.per_second_and_burst 5 10) do
  set_clock (of_int 1)
  t ← Bucket.saturating_consume 8
  drained ← unwrap t
  assert (as_u64 drained == 5)
  available_is (of_int 0)
  not_in_debt
  t' ← Bucket.saturating_consume 1
  assert (is_none t')
  available_is (of_int 0)
  not_in_debt

wait_to_consume : Bool
wait_to_consume = passes (Limits.with_burst (Limits.per_minute 30) 10) do
  r ← Bucket.try_consume 5
  e ← unwrap_err r
  assert (eq (of_int 10) (Nanos.as_secs_f64 e.earliest_retry_time))

borrow_future : Bool
borrow_future = passes (Limits.with_burst (Limits.per_minute 30) 10) do
  first ← Bucket.consume_with_borrow 5
  wait_is (of_int 10) first
  available_is (of_int 0)
  balance_is (neg (of_int 5))
  set_clock (of_int 3)
  available_is (of_int 0)
  balance_is (neg (halves 7))
  one_is_refused
  available_is (of_int 0)
  balance_is (neg (halves 7))
  second ← Bucket.consume_with_borrow 5
  available_is (of_int 0)
  balance_is (neg (halves 17))
  wait_is (of_int 17) second
  too_many ← Bucket.consume_with_borrow 11
  assert (is_err too_many)
  balance_is (neg (halves 17))
  third ← Bucket.consume_with_borrow 5
  wait_is (of_int 27) third
  available_is (of_int 0)
  balance_is (neg (halves 27))
  Bucket.add_tokens (of_int 10)
  available_is (of_int 0)
  balance_is (neg (halves 7))
  Bucket.add_tokens (of_int 8)
  available_is (halves 9)
  balance_is (halves 9)
  Bucket.add_tokens (of_int 100)
  available_is (of_int 10)
  balance_is (of_int 10)

-- A proof names this one definition to run the calls of a test.
calls : Unit {0}
unfolding running on_raw set_limit with_clock RawBucket.new RawBucket.consume RawBucket.try_consume
    RawBucket.saturating_consume RawBucket.consume_with_borrow RawBucket.add_tokens
    RawBucket.available RawBucket.balance saturating_consume_inner borrow borrow_loop
    consume_or_borrow up_to all_or_nothing or_retry est_time set_capacity balance_at Bucket.consume
    Bucket.try_consume Bucket.saturating_consume Bucket.consume_with_borrow Bucket.add_tokens
    Bucket.available Bucket.balance Bucket.reset Zero.consume Zero.balance Zero.reset consume2
    consume2_turn return_tokens time_when_bucket update cas_loop settle load store consume_turn
    return_turn zero_time_new balance_of compare_exchange_weak to_bits from_bits Nanos.new_checked
    Nanos.as_secs_f64 from_secs_f64_unchecked Tokens.new_checked Tokens.new_unchecked as_u64
    Limits.per_second_and_burst Limits.per_minute Limits.with_burst Limits.rate_per_second
    Limits.burst Manual.advance advance_clock set_clock assert is_none unwrap unwrap_ok is_err
    unwrap_err limit available_is balance_is not_in_debt one_is_refused wait_is passes
calls = tt

basics_passes : basics ≡ true
unfolding calls basics
basics_passes = refl

basics_dynamic_passes : basics_dynamic ≡ true
unfolding calls basics_dynamic
basics_dynamic_passes = refl

fractional_passes : fractional ≡ true
unfolding calls fractional
fractional_passes = refl

saturating_consume_passes : saturating_consume ≡ true
unfolding calls saturating_consume
saturating_consume_passes = refl

wait_to_consume_passes : wait_to_consume ≡ true
unfolding calls wait_to_consume
wait_to_consume_passes = refl

borrow_future_passes : borrow_future ≡ true
unfolding calls borrow_future
borrow_future_passes = refl
