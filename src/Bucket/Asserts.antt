-- ===== src/Bucket/Asserts.antt =====
-- The assertions of the tests of src/bucket.rs. The clock of a test is the one that its bucket shares.
use gardal.Prelude.{ℕ, ◌*◌, ◌^◌, Bool, true, false, Option, none, some, Result, ok, err}
use gardal.Float.Value.{F64, fin, eq}
use gardal.Clock.Manual
use gardal.Clock.Manual.{ManualClock, manual_clock}
use gardal.Clock.Nanos
use gardal.Clock.Nanos.{Nanos, from_secs_f64_unchecked}
use gardal.Limit.{Limit}
use gardal.Error.{ExceededBurstCapacity}
use gardal.Storage.Interface.{M, ◌>>=◌}
use gardal.Storage.Atomics.{PaddedAtomicStorage, padded_atomic_storage}
use gardal.Storage.Alone.{alone}
use gardal.Bucket
use gardal.Bucket.{TokenBucket, on_raw, set_limit, with_clock}

abbrev pub Tested : Type 0
Tested = TokenBucket PaddedAtomicStorage ManualClock

-- `Arc::clone(&clock)` and the bucket read one number.
unfoldable pub advance_clock : F64 → M Tested (Unit {0})
advance_clock delta w =
    some (tt, record w { cell = record w.cell { clock = Manual.advance w.cell.clock delta } })

unfoldable pub set_clock : F64 → M Tested (Unit {0})
set_clock now w =
    some (tt, record w { cell = record w.cell { clock = Manual.set w.cell.clock now } })

unfoldable pub assert : Bool → M Tested (Unit {0})
assert true w = some (tt, w)
assert false w = none

unfoldable pub is_none : {A : Type 0} → Option A → Bool
is_none none = true
is_none (some a) = false

unfoldable pub unwrap : {A : Type 0} → Option A → M Tested A
unwrap none w = none
unwrap (some a) w = some (a, w)

unfoldable pub unwrap_ok : {A E : Type 0} → Result A E → M Tested A
unwrap_ok (err e) w = none
unwrap_ok (ok a) w = some (a, w)

unfoldable pub is_err : {A E : Type 0} → Result A E → Bool
is_err (ok a) = false
is_err (err e) = true

unfoldable pub unwrap_err : {A E : Type 0} → Result A E → M Tested E
unwrap_err (ok a) w = none
unwrap_err (err e) w = some (e, w)

unfoldable pub limit : M Tested Limit
limit w = some (w.cell.limit, w)

-- A number of halves.
abbrev pub halves : ℕ → F64
halves n = fin false (n * 2 ^ 1073)

-- `assert_eq!(…, tb.available())`
unfoldable pub available_is : F64 → M Tested (Unit {0})
available_is x = do a ← Bucket.available; assert (eq x a)

unfoldable pub balance_is : F64 → M Tested (Unit {0})
balance_is x = do b ← Bucket.balance; assert (eq x b)

-- `assert_eq!(tb.balance(), tb.available())`
unfoldable pub not_in_debt : M Tested (Unit {0})
not_in_debt = do b ← Bucket.balance; a ← Bucket.available; assert (eq b a)

-- `assert!(tb.consume(nonzero!(1u32)).is_none())`
unfoldable pub one_is_refused : M Tested (Unit {0})
one_is_refused = do t ← Bucket.consume 1; assert (is_none t)

-- With a clock at 0, and the bucket that `with_clock` makes of it.
unfoldable pub passes : Limit → M Tested (Unit {0}) → Bool
passes limit test = elim (test (alone (with_clock limit Manual.default))) [
  | none ↦ false
  | some _ ↦ true
]

-- `assert_eq!(…, maybe_wait.unwrap().unwrap().as_secs_f64())`
unfoldable pub wait_is : F64 → Result (Option Nanos) ExceededBurstCapacity → M Tested (Unit {0})
wait_is x maybe_wait = do
  o ← unwrap_ok maybe_wait
  wait ← unwrap o
  assert (eq x (Nanos.as_secs_f64 wait))
