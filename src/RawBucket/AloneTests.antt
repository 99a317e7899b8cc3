-- ===== src/RawBucket/AloneTests.antt =====
-- The raw bucket's theorems at a bucket that one thread has.
use gardal.Prelude.{◌*◌, ◌^◌, ◌≤◌, ◌≡◌, refl, false, none, some, arith, if◌then◌else◌, ok, err}
use gardal.Float.Value.{
  mul, F64, fin, of_int, zero_f64, neg, sub, div, lt, min, IsF64, IsRep, running,
}
use gardal.Float.Closed.{of_int-IsF64, zero-IsRep}
use gardal.Clock.Manual.{manual_clock}
use gardal.Tokens
use gardal.Tokens.{Tokens}
use gardal.Error.{RateLimited, earliest_retry_after_nanos, exceeded_burst_capacity}
use gardal.Storage.Local.{local_storage, LocalStorage-IsStorage}
use gardal.Storage.Atomics.{atomic_storage}
use gardal.Storage.Alone.{alone}
use gardal.RawBucket
use gardal.RawBucket.Capped.{asleep, saturating_consume_with_borrow_lem}
use gardal.RawBucket.{set_capacity}
use gardal.RawBucket.Growth.{balance_grows}
use gardal.RawBucket.Saturating.{saturating_consume_outcome}
use gardal.RawBucket.Refusal.{wait_for, try_consume_outcome}
use gardal.Clock.Nanos.{as_secs_f64, from_secs_f64_unchecked}
use gardal.Float.Order.{◌≼◌}
use gardal.RawBucket.Outcome.{after, consume_outcome}
use gardal.RawBucket.Borrow.{IsRegular}
use gardal.RawBucket.Debt.{owes, consume_with_borrow_lem}
use gardal.RawBucket.Slow.{slow, at, empty, empty-IsValid, slow-IsRegular, slow-avail, at_three}

consume_with_borrow_lem_example : RawBucket.consume_with_borrow 5 (at 3) slow (alone empty) ≡ (
    if lt slow.burst (of_int 5)
    then some (err exceeded_burst_capacity, alone empty)
    else if lt zero_f64 at_three
    then if lt at_three (of_int 5)
      then owes LocalStorage-IsStorage
          (at 3)
          slow
          empty
          empty-IsValid
          (sub (of_int 3) (div (neg (sub (of_int 5) at_three)) slow.rate))
      else some (ok none, after LocalStorage-IsStorage empty empty-IsValid (at 3) slow (of_int 5))
    else owes LocalStorage-IsStorage
        (at 3)
        slow
        empty
        empty-IsValid
        (sub (of_int 0) (div (neg (of_int 5)) slow.rate)))
consume_with_borrow_lem_example =
    consume_with_borrow_lem LocalStorage-IsStorage (at 3) slow empty empty-IsValid slow-IsRegular
      false (3 * 2 ^ 1073) slow-avail 5 (omega arith)

consume_outcome_example :
    let balance = min (mul (sub (of_int 3) (local_storage.load empty)) slow.rate) slow.burst in
    (RawBucket.balance (at 3) slow (alone empty) ≡ some (balance, alone empty))
    × (RawBucket.consume 5 (at 3) slow (alone empty) ≡ (
        if lt balance (of_int 5)
        then some (none, alone empty)
        else some (
          some (Tokens.new 5),
          alone
              (local_storage.store empty (sub (of_int 3) (div (sub balance (of_int 5)) slow.rate))),
        )))
consume_outcome_example =
    consume_outcome LocalStorage-IsStorage empty empty-IsValid (at 3) slow 5 (omega arith)

slow-IsRegular_later : IsRegular slow (of_int 4)
unfolding running
slow-IsRegular_later = record {
  rate = 2 ^ 1073;
  rate_pos = omega arith;
  rate_eq = refl;
  rate_fits = (refl, omega arith);
  sign = false;
  time = 4 * 2 ^ 1074;
  now_eq = refl;
  now_fits = (refl, omega arith);
  burst_number = refl;
  burst_ge = refl;
}

load-empty : local_storage.load empty ≡ fin false 0
unfolding running
load-empty = refl

not_later : slow-IsRegular.time ≤ slow-IsRegular_later.time
unfolding slow-IsRegular slow-IsRegular_later
not_later = omega arith

from_epoch : (slow-IsRegular.sign ≡ false) × (slow-IsRegular_later.sign ≡ false)
unfolding slow-IsRegular slow-IsRegular_later
from_epoch = (refl, refl)

balance_grows_example :
    (x : F64) × (y : F64) × (RawBucket.balance (at 3) slow (alone empty) ≡ some (x, alone empty))
    × (RawBucket.balance (at 4) slow (alone empty) ≡ some (y, alone empty))
    × (x ≼ y)
balance_grows_example =
    balance_grows slow empty (at 3) (at 4) slow-IsRegular slow-IsRegular_later false 0 load-empty
      zero-IsRep from_epoch.0 from_epoch.1 not_later

saturating_consume_outcome_example : RawBucket.saturating_consume 5 (at 3) slow (alone empty) ≡ (
    if lt zero_f64 at_three
    then if lt at_three (of_int 5)
      then some (some (Tokens.new_unchecked at_three), alone (local_storage.store empty (of_int 3)))
      else some (
        some (Tokens.new 5),
        after LocalStorage-IsStorage empty empty-IsValid (at 3) slow (of_int 5),
      )
    else some (none, alone empty))
saturating_consume_outcome_example =
    saturating_consume_outcome LocalStorage-IsStorage (at 3) slow slow-IsRegular empty empty-IsValid
      false (3 * 2 ^ 1073) slow-avail 5 (omega arith, omega arith)

abbrev too_soon : RateLimited
too_soon = record {
  earliest_retry_time =
      from_secs_f64_unchecked
        (wait_for LocalStorage-IsStorage empty empty-IsValid (at 3) slow (of_int 5));
}

rate-IsF64 : IsF64 slow.rate
unfolding running
rate-IsF64 = (refl, omega arith)

try_consume_outcome_example :
    (RawBucket.try_consume 5 (at 3) slow (alone empty) ≡ (
      if lt at_three (of_int 5)
      then some (err too_soon, alone empty)
      else some (
        ok (Tokens.new 5),
        after LocalStorage-IsStorage empty empty-IsValid (at 3) slow (of_int 5),
      )))
    × (as_secs_f64 (earliest_retry_after_nanos too_soon)
        ≡ wait_for LocalStorage-IsStorage empty empty-IsValid (at 3) slow (of_int 5))
try_consume_outcome_example =
    try_consume_outcome LocalStorage-IsStorage empty empty-IsValid (at 3) slow 5
      (omega arith, omega arith) (of_int-IsF64 3 (omega arith)) rate-IsF64

slow-burst : slow.burst ≡ fin false (10 * 2 ^ 1074)
unfolding running
slow-burst = refl

slow-burst_fits : IsRep (10 * 2 ^ 1074)
unfolding running
slow-burst_fits = (refl, omega arith)

saturating_consume_with_borrow_lem_example :
    let m = min (of_int 20) slow.burst in
    RawBucket.saturating_consume_with_borrow 20 (at 3) slow (alone empty) ≡ (
      if lt zero_f64 at_three
      then if lt at_three m
        then asleep LocalStorage-IsStorage
            (at 3)
            slow
            empty
            empty-IsValid
            (some (Tokens.new_unchecked m))
            (sub (of_int 3) (div (neg (sub m at_three)) slow.rate))
        else some (
          (none, record { nanos = 0 }),
          after LocalStorage-IsStorage empty empty-IsValid (at 3) slow m,
        )
      else asleep LocalStorage-IsStorage
          (at 3)
          slow
          empty
          empty-IsValid
          (some (Tokens.new_unchecked m))
          (sub (of_int 0) (div (neg m) slow.rate)))
saturating_consume_with_borrow_lem_example =
    saturating_consume_with_borrow_lem LocalStorage-IsStorage (at 3) slow empty empty-IsValid
      slow-IsRegular false (3 * 2 ^ 1073) slow-avail (10 * 2 ^ 1074) slow-burst (omega arith)
      slow-burst_fits 20 (omega arith, omega arith)
