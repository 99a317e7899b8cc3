-- ===== src/RawBucket/ScaleTests.antt =====
-- The raw bucket's theorems at a limit and at times where no step rounds: two tokens a second, at most
-- ten, in half seconds.
use gardal.Prelude.{ℕ, ◌+◌, ◌^◌, ◌≤◌, ◌<◌, ◌≡◌, ◌⊎◌, refl, none, some, false, arith, ok, err}
use gardal.Float.Value.{fin, of_int, running}
use gardal.Float.Grid.{on_grid, grid-IsRep}
use gardal.Clock.Manual.{ManualClock, manual_clock}
use gardal.Clock.Nanos.{from_secs_f64_unchecked}
use gardal.Tokens
use gardal.Tokens.{Tokens}
use gardal.Limit.{Limit}
use gardal.Error.{RateLimited, earliest_retry_after}
use gardal.Ideal.{level, caught_up, take, lend}
use gardal.Storage.Local.{LocalStorage, local_storage, LocalStorage-IsStorage}
use gardal.Storage.Atomics.{atomic_storage}
use gardal.Storage.Alone.{alone}
use gardal.RawBucket
use gardal.RawBucket.Reset.{reset-keeps}
use gardal.RawBucket.{est_time}
use gardal.RawBucket.Exact.{IsScale}
use gardal.RawBucket.Refines.{consume-refines}
use gardal.RawBucket.Retry.{retry_exact, retry_broken}
use gardal.RawBucket.Lending.{consume_with_borrow-refines}
use gardal.RawBucket.LendingCapped.{saturating_consume_with_borrow-refines}
use gardal.Storage.Answers.{Answers}
use gardal.RawBucket.NonZero.{HoldsTokens, HoldsGrant, HoldsNap, consumed-NonZero}

abbrev pub two_a_second : Limit
two_a_second = record { rate = of_int 2; burst = of_int 10 }

pub two_rate : of_int 2 ≡ fin false (2 ^ 1075)
unfolding running
two_rate = refl

pub ten_burst : of_int 10 ≡ on_grid 1074 10
unfolding running
ten_burst = refl

abbrev pub two_a_second-IsScale : IsScale two_a_second
two_a_second-IsScale = record {
  rate_exp = 1075;
  time_exp = 1073;
  token_exp = 1074;
  cap = 10;
  balance = refl;
  time_small = omega arith;
  token_small = omega arith;
  rate_small = omega arith;
  rate_eq = two_rate;
  burst_eq = ten_burst;
  cap_small = omega arith;
}

abbrev at : ℕ → ManualClock
at a = record { time = on_grid 1073 a }

abbrev empty_from : ℕ → LocalStorage
empty_from a = local_storage.new (on_grid 1073 a)

empty_from-IsValid : (a : ℕ) → a ≤ 2 ^ 53 → LocalStorage-IsStorage.IsValid (empty_from a)
empty_from-IsValid a h =
    LocalStorage-IsStorage.new-IsValid (on_grid 1073 a) (grid-IsRep 1073 a (omega arith) h)

-- Five seconds after the bucket was empty it has ten tokens.
consume-refines_example :
    RawBucket.consume 6 (at 10) two_a_second (alone (empty_from 0))
    ≡ some (some (Tokens.new 6), alone (local_storage.store (empty_from 0) (on_grid 1073 6)))
unfolding take caught_up
consume-refines_example =
    consume-refines LocalStorage-IsStorage (empty_from 0) (empty_from-IsValid 0 (omega arith))
      (at 10) two_a_second two_a_second-IsScale 10 0 refl (omega arith) refl (omega arith) 6
      (omega arith, omega arith)

-- Ten tokens, eight of them asked for, and then nine: the last seven are lent.
consume_with_borrow-refines_example :
    RawBucket.consume_with_borrow 9 (at 10) two_a_second (alone (empty_from 8))
    ≡ some (
      ok (some (from_secs_f64_unchecked (on_grid 1073 7))),
      alone (local_storage.store (empty_from 8) (on_grid 1073 17)),
    )
unfolding lend caught_up
consume_with_borrow-refines_example =
    consume_with_borrow-refines LocalStorage-IsStorage (empty_from 8)
      (empty_from-IsValid 8 (omega arith)) (at 10) two_a_second two_a_second-IsScale 10 8 refl refl
      9 (omega arith, omega arith) (omega arith) (omega arith)

-- Two tokens are there, and twenty are asked for: ten are given, to be waited for four seconds.
saturating_consume_with_borrow-refines_example :
    RawBucket.saturating_consume_with_borrow 20 (at 10) two_a_second (alone (empty_from 8))
    ≡ some (
      (some (Tokens.new_unchecked (on_grid 1074 10)), record { nanos = 4_000_000_000 }),
      alone (local_storage.store (empty_from 8) (on_grid 1073 18)),
    )
unfolding running lend caught_up gardal.Float.Duration.from_secs_f64
saturating_consume_with_borrow-refines_example =
    saturating_consume_with_borrow-refines LocalStorage-IsStorage (empty_from 8)
      (empty_from-IsValid 8 (omega arith)) (at 10) two_a_second two_a_second-IsScale 10 8 refl refl
      20 (omega arith, omega arith) (omega arith) (omega arith) (omega arith)

-- Two tokens are there, and five are asked for: one and a half seconds later they can be had.
retry_exact_example :
    (RawBucket.try_consume 5 (at 10) two_a_second (alone (empty_from 8))
      ≡ some (
        err (record { earliest_retry_time = from_secs_f64_unchecked (on_grid 1073 3) }),
        alone (empty_from 8),
      ))
    × (RawBucket.consume 5 (at 13) two_a_second (alone (empty_from 8))
        ≡ some (some (Tokens.new 5), alone (local_storage.store (empty_from 8) (on_grid 1073 13))))
unfolding caught_up
retry_exact_example =
    retry_exact LocalStorage-IsStorage (empty_from 8) (empty_from-IsValid 8 (omega arith)) (at 10)
      two_a_second two_a_second-IsScale 10 8 refl (omega arith) refl 5 (omega arith, omega arith)
      (omega arith) (omega arith) (omega arith) 13 (at 13) refl (omega arith) (omega arith)

-- A debt of two tokens is forgiven.
reset-keeps_example :
    (RawBucket.available (at 10) two_a_second (alone (empty_from 12))
      ≡ some (on_grid 1074 0, alone (empty_from 12)))
    × (RawBucket.reset (at 10) two_a_second (alone (empty_from 12))
        ≡ some (tt, alone (local_storage.store (empty_from 12) (on_grid 1073 10))))
    × (RawBucket.available
          (at 10)
          two_a_second
          (alone (local_storage.store (empty_from 12) (on_grid 1073 10)))
        ≡ some (on_grid 1074 0, alone (local_storage.store (empty_from 12) (on_grid 1073 10))))
    × (RawBucket.balance
          (at 10)
          two_a_second
          (alone (local_storage.store (empty_from 12) (on_grid 1073 10)))
        ≡ some (on_grid 1074 0, alone (local_storage.store (empty_from 12) (on_grid 1073 10))))
unfolding level caught_up
reset-keeps_example =
    reset-keeps LocalStorage-IsStorage (empty_from 12) (empty_from-IsValid 12 (omega arith)) (at 10)
      two_a_second two_a_second-IsScale 10 12 refl (omega arith) refl (omega arith)

abbrev eleven : ℕ
eleven = 11

too_many : 11 < caught_up 10 11 0 + 11
unfolding caught_up
too_many = omega arith

-- Eleven tokens of a bucket that holds ten and would have earned eleven: the error holds the word 0.
retry_broken_example :
    let wait = est_time (on_grid 1073 0) (on_grid 1073 11) (of_int 11) two_a_second.rate in
    let e : RateLimited = record { earliest_retry_time = from_secs_f64_unchecked wait } in
    (RawBucket.try_consume 11 (at 11) two_a_second (alone (empty_from 0))
      ≡ some (err e, alone (empty_from 0)))
    × ((eleven ≡ eleven) × (e.earliest_retry_time.bits ≡ 0)
        ⊎ (11 < 11) × (earliest_retry_after e ≡ none))
retry_broken_example =
    retry_broken LocalStorage-IsStorage (empty_from 0) (empty_from-IsValid 0 (omega arith)) (at 11)
      two_a_second two_a_second-IsScale 11 0 refl (omega arith) refl 11 (omega arith, omega arith)
      (omega arith) too_many (omega arith)

consumed-NonZero_example :
    let w = alone (empty_from 8) in
    Answers HoldsTokens (RawBucket.consume 5 (at 10) two_a_second w)
    × Answers HoldsGrant (RawBucket.try_consume 5 (at 10) two_a_second w)
    × Answers HoldsTokens (RawBucket.saturating_consume 5 (at 10) two_a_second w)
    × Answers HoldsNap (RawBucket.consume_with_borrow 5 (at 10) two_a_second w)
    × Answers
        (λ q. HoldsTokens q.0)
        (RawBucket.saturating_consume_with_borrow 5 (at 10) two_a_second w)
consumed-NonZero_example = consumed-NonZero (at 10) two_a_second 5 (alone (empty_from 8))
