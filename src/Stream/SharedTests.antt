-- ===== src/Stream/SharedTests.antt =====
-- Two streams of one number each that share a bucket of two tokens a second; times are in half seconds.
use gardal.Prelude.{
  ℕ, ◌+◌, ◌-◌, ◌≤◌, ◌≡◌, ◌==◌, refl, some, none, Option, List, [], ◌∷◌, ◌++◌, if◌then◌else◌, arith,
}
use Prim.Native.Nat.{max}
use gardal.Float.Value.{running}
use gardal.Float.Grid.{on_grid, grid-IsRep}
use gardal.Float.Bits.{to_bits, from_bits}
use gardal.Float.Duration.{from_secs_f64}
use gardal.Clock.Nanos
use gardal.Clock.Nanos.{from_secs_f64_unchecked, to_duration}
use gardal.Clock.Manual.{ManualClock, manual_clock}
use gardal.Storage.Interface.{load, settle}
use gardal.Storage.Atomic.{compare_exchange_weak}
use gardal.Storage.Atomics.{
  PaddedAtomicSharedStorage, padded_atomic_shared_storage, PaddedAtomicSharedStorage-IsAtomic,
}
use gardal.Storage.Loop.{update, cas_loop}
use gardal.Storage.Bucket.{
  balance_of, zero_time_new, consume_turn, return_turn, return_tokens, time_when_bucket,
}
use gardal.Storage.Bucket as Zero
use gardal.RawBucket
use gardal.RawBucket.{saturating_consume_inner, borrow, borrow_loop, consume_or_borrow, up_to}
use gardal.RawBucket.Held.{Holds}
use gardal.RawBucket.ScaleTests.{two_a_second, two_a_second-IsScale}
use gardal.Bucket
use gardal.Bucket.{on_raw}
use gardal.Stream
use gardal.Stream.{
  ready, pending, WeightedStream, Task, poll_next, fetch, pay, postpone, deliver, take_pending,
  leave,
}
use gardal.Stream.Tests.{Numbers, numbers, sleeps}
use gardal.Stream.RateTests.{at, size, size-IsNonZeroU32, exact_sleeps}
use gardal.Stream.Pace.{Setting}
use gardal.Stream.Shared.{SharedRun, start, polled, found, replace}
use gardal.Stream.Shared.Bound.{shared_bounded}

abbrev Streamed : Type 0
Streamed = WeightedStream Numbers PaddedAtomicSharedStorage ManualClock ℕ ℕ

-- Empty since the time.
abbrev word : ℕ → PaddedAtomicSharedStorage
word z = padded_atomic_shared_storage.new (on_grid 1073 z)

abbrev stage : List ℕ → List ℕ → ℕ → ℕ → Option ℕ → Option ℕ → Streamed
stage left given z now delay item = record {
  stream = record { left = left; given = given };
  bucket = some (record { bucket = word z; clock = at now; limit = two_a_second });
  weight_fn = size;
  delay = delay;
  pending_item = item;
}

-- Nine is the first one's number, and one the other's.
abbrev source : ℕ → Numbers
source j = record { left = (if j == 0 then 9 else 1) ∷ []; given = [] }

abbrev first_streams : ℕ → Streamed
first_streams j =
    Stream.new (source j) (some (record { bucket = word 8; clock = at 16; limit = two_a_second }))
      size

-- Eight tokens are there for nine, so one is lent, and then another one for the other stream.
abbrev nine_waits : Streamed
nine_waits = stage [] ([] ++ (9 ∷ [])) 17 16 (some 8_500_000_000) (some 9)

abbrev one_waits : Streamed
one_waits = stage [] ([] ++ (1 ∷ [])) 18 16 (some 9_000_000_000) (some 1)

abbrev nine_given : Streamed
nine_given = stage [] ([] ++ (9 ∷ [])) 18 17 none none

abbrev one_given : Streamed
one_given = stage [] ([] ++ (1 ∷ [])) 18 18 none none

abbrev task : Streamed → ℕ → Task Numbers PaddedAtomicSharedStorage ManualClock ℕ ℕ ℕ
task stream cx = record { this = stream; env = []; cx = cx }

-- A proof names this one definition to run a poll.
polls : Unit {0}
unfolding running poll_next fetch pay postpone deliver take_pending leave Bucket.consume_with_borrow
    on_raw RawBucket.consume_with_borrow consume_or_borrow borrow_loop saturating_consume_inner
    borrow up_to Zero.consume return_tokens time_when_bucket update cas_loop settle load
    consume_turn return_turn zero_time_new balance_of compare_exchange_weak Nanos.new_checked
    to_duration from_secs_f64 Nanos.as_secs_f64 from_secs_f64_unchecked to_bits from_bits
polls = tt

first_poll :
    poll_next (found at (word 8) 16 8_000_000_000 (first_streams 0))
    ≡ some (pending, task nine_waits 8_000_000_000)
unfolding polls
first_poll = refl

second_poll :
    poll_next (found at (word 17) 16 8_000_000_000 (first_streams 1))
    ≡ some (pending, task one_waits 8_000_000_000)
unfolding polls
second_poll = refl

third_poll :
    poll_next (found at (word 18) 17 8_500_000_000 nine_waits)
    ≡ some (ready (some 9), task nine_given 8_500_000_000)
unfolding polls
third_poll = refl

fourth_poll :
    poll_next (found at (word 18) 18 9_000_000_000 one_waits)
    ≡ some (ready (some 1), task one_given 9_000_000_000)
unfolding polls
fourth_poll = refl

abbrev last_streams : ℕ → Streamed
last_streams =
    replace 1 one_given
      (replace 0 nine_given (replace 1 one_waits (replace 0 nine_waits first_streams)))

abbrev four_polls :
    SharedRun at exact_sleeps 500_000_000 2 16
      (word 8)
      first_streams
      4
      ([] ++ [] ++ [] ++ (9 ∷ []) ++ (1 ∷ []))
      18
      (word 18)
      last_streams
four_polls =
    polled
      (polled
        (polled (polled start 0 16 8_000_000_000 (omega arith) (omega arith) refl first_poll) 1 16
          8_000_000_000 (omega arith) (omega arith) refl second_poll)
        0 17 8_500_000_000 (omega arith) (omega arith) refl third_poll)
      1 18 9_000_000_000 (omega arith) (omega arith) refl fourth_poll

abbrev setting : Setting Numbers PaddedAtomicSharedStorage ManualClock ℕ ℕ ℕ
setting = record {
  l = PaddedAtomicSharedStorage-IsAtomic.storage;
  limit = two_a_second;
  g = two_a_second-IsScale;
  clock = at;
  clock_at = λ a h. refl;
  timed = exact_sleeps;
  inner_at = λ s x. omega arith;
  per_unit = 500_000_000;
  per_unit_pos = omega arith;
  whole = refl;
  f = size;
  f-IsNonZeroU32 = size-IsNonZeroU32;
}

eight-Holds : Holds setting.l two_a_second two_a_second-IsScale at (λ a h. refl) (word 8) 8
eight-Holds = record {
  load_eq = setting.l.load-new (on_grid 1073 8) (grid-IsRep 1073 8 (omega arith) (omega arith));
  valid = setting.l.new-IsValid (on_grid 1073 8) (grid-IsRep 1073 8 (omega arith) (omega arith));
  small = omega arith;
}

shared_bounded_example : (10 ≤ 10 + (18 - 16)) × (10 ≤ 18 - max 8 (16 - 10))
shared_bounded_example =
    shared_bounded setting 2 16 8 source (word 8) (λ _. at 16) eight-Holds 4
      ([] ++ [] ++ [] ++ (9 ∷ []) ++ (1 ∷ [])) 18 (word 18) last_streams (omega arith) four_polls
