-- ===== src/RawBucket/Slow.antt =====
-- The bucket of the tests of src/raw_bucket.rs's theorems.
use gardal.Prelude.{ℕ, ◌*◌, ◌^◌, ◌≡◌, refl, false, arith}
use gardal.Float.Value.{F64, fin, of_int, div, running}
use gardal.Float.Closed.{of_int-IsF64}
use gardal.Clock.Manual.{ManualClock, manual_clock}
use gardal.Limit.{Limit}
use gardal.Storage.Local.{LocalStorage, local_storage, LocalStorage-IsStorage}
use gardal.Storage.Atomics.{atomic_storage}
use gardal.Storage.Bucket.{balance_of}
use gardal.RawBucket.Outcome.{avail}
use gardal.RawBucket.Borrow.{IsRegular}

-- Half a token a second, at most ten: the bucket of the test `borrow_future`.
abbrev pub slow : Limit
slow = record { rate = div (of_int 30) (of_int 60); burst = of_int 10 }

abbrev pub at : ℕ → ManualClock
at n = record { time = of_int n }

-- Empty at time 0.
abbrev pub empty : LocalStorage
empty = local_storage.new (of_int 0)

pub empty-IsValid : LocalStorage-IsStorage.IsValid empty
empty-IsValid = LocalStorage-IsStorage.new-IsValid (of_int 0) (of_int-IsF64 0 (omega arith))

unfoldable pub slow-IsRegular : IsRegular slow (of_int 3)
unfolding running
slow-IsRegular = record {
  rate = 2 ^ 1073;
  rate_pos = omega arith;
  rate_eq = refl;
  rate_fits = (refl, omega arith);
  sign = false;
  time = 3 * 2 ^ 1074;
  now_eq = refl;
  now_fits = (refl, omega arith);
  burst_number = refl;
  burst_ge = refl;
}

pub slow-avail :
    avail LocalStorage-IsStorage empty empty-IsValid (at 3) slow ≡ fin false (3 * 2 ^ 1073)
unfolding running balance_of
slow-avail = refl

abbrev pub at_three : F64
at_three = avail LocalStorage-IsStorage empty empty-IsValid (at 3) slow
