-- ===== src/Stream/RateTests.antt =====
-- A stream of two numbers, each of its own weight, polled three times; the bucket earns two tokens a
-- second, and times are in half seconds.
use gardal.Prelude.{
  ℕ, ◌+◌, ◌-◌, ◌≤◌, ◌≡◌, refl, Option, none, some, List, [], ◌∷◌, ◌++◌, leb, if◌then◌else◌, arith,
}
use Prim.Native.Nat.{max}
use gardal.Float.Value.{running}
use gardal.Float.Grid.{on_grid, grid-IsRep}
use gardal.Float.Bits.{to_bits, from_bits}
use gardal.Float.Duration.{from_secs_f64}
use gardal.Clock.Nanos
use gardal.Clock.Nanos.{Nanos, from_secs_f64_unchecked, to_duration}
use gardal.Clock.Manual.{ManualClock, manual_clock}
use gardal.Storage.Interface.{load, settle}
use gardal.Storage.Local.{LocalStorage, local_storage, LocalStorage-IsStorage}
use gardal.Storage.Loop.{update, cas_loop}
use gardal.Storage.Bucket.{
  balance_of, zero_time_new, consume_turn, return_turn, return_tokens, time_when_bucket,
}
use gardal.Storage.Bucket as Zero
use gardal.RawBucket
use gardal.RawBucket.{saturating_consume_inner, borrow, borrow_loop, consume_or_borrow, up_to}
use gardal.RawBucket.Outcome.{IsNonZeroU32}
use gardal.RawBucket.Held.{Holds}
use gardal.RawBucket.ScaleTests.{two_a_second, two_a_second-IsScale}
use gardal.Bucket
use gardal.Bucket.{TokenBucket, on_raw}
use gardal.Stream.{
  ready, pending, Task, poll_next, fetch, pay, postpone, deliver, take_pending, leave,
}
use gardal.Stream.Tests.{Numbers, numbers, sleeps}
use gardal.Stream.Pace.{IsTimed, Setting}
use gardal.Stream.Rate.{TimedRun, start, polled, delivered_bounded}

-- A sleep is over at its time in nanoseconds.
pub over : (d x : ℕ) → (if leb d x then ready tt else pending) ≡ ready tt → d ≤ x
over d x e = ground arith

abbrev pub exact_sleeps : IsTimed ℕ ℕ
exact_sleeps = record {
  nanos_at = λ x. x;
  due = λ d. d;
  proceed_at = λ x. refl;
  sleep_due = λ d x. omega arith;
  poll_due = λ d x e. over d x e;
  poll_keeps = λ d x. refl;
}

abbrev pub at : ℕ → ManualClock
at a = record { time = on_grid 1073 a }

-- An item weighs its own number, and 0 counts as 1.
abbrev pub size : ℕ → ℕ
size n = if leb 1 n then (if leb n 100 then n else 100) else 1

pub size-IsNonZeroU32 : (n : ℕ) → IsNonZeroU32 (size n)
size-IsNonZeroU32 n = ground arith

abbrev stage :
    List ℕ → List ℕ → ℕ → ℕ → Option ℕ → Option ℕ → ℕ → Task Numbers LocalStorage ManualClock ℕ ℕ ℕ
stage left given zero_time now delay item cx = record {
  this = record {
    stream = record { left = left; given = given };
    bucket = some (record {
      bucket = local_storage.new (on_grid 1073 zero_time);
      clock = at now;
      limit = two_a_second;
    });
    weight_fn = size;
    delay = delay;
    pending_item = item;
  };
  env = [];
  cx = cx;
}

abbrev new_stream : Task Numbers LocalStorage ManualClock ℕ ℕ ℕ
new_stream = stage (9 ∷ 1 ∷ []) [] 8 16 none none 0

-- Eight tokens for nine: one is lent.
abbrev waiting : Task Numbers LocalStorage ManualClock ℕ ℕ ℕ
waiting = stage (1 ∷ []) ([] ++ (9 ∷ [])) 17 16 (some 8_500_000_000) (some 9) 8_000_000_000

first_poll :
    poll_next (stage (9 ∷ 1 ∷ []) [] 8 16 none none 8_000_000_000) ≡ some (pending, waiting)
unfolding running poll_next fetch pay postpone Bucket.consume_with_borrow on_raw
    RawBucket.consume_with_borrow consume_or_borrow borrow_loop saturating_consume_inner borrow
    up_to Zero.consume return_tokens time_when_bucket update cas_loop settle load consume_turn
    return_turn zero_time_new balance_of Nanos.new_checked to_duration from_secs_f64
    Nanos.as_secs_f64 from_secs_f64_unchecked to_bits from_bits
first_poll = refl

-- Half a second later it is delivered.
abbrev delivered : Task Numbers LocalStorage ManualClock ℕ ℕ ℕ
delivered = stage (1 ∷ []) ([] ++ (9 ∷ [])) 17 17 none none 8_500_000_000

second_poll :
    poll_next (stage (1 ∷ []) ([] ++ (9 ∷ [])) 17 17 (some 8_500_000_000) (some 9) 8_500_000_000)
    ≡ some (ready (some 9), delivered)
unfolding poll_next deliver take_pending leave
second_poll = refl

-- Then there is one token for the next item.
abbrev done : Task Numbers LocalStorage ManualClock ℕ ℕ ℕ
done = stage [] ([] ++ (9 ∷ []) ++ (1 ∷ [])) 18 18 none none 9_000_000_000

third_poll :
    poll_next (stage (1 ∷ []) ([] ++ (9 ∷ [])) 17 18 none none 9_000_000_000)
    ≡ some (ready (some 1), done)
unfolding running poll_next fetch pay postpone Bucket.consume_with_borrow on_raw
    RawBucket.consume_with_borrow consume_or_borrow borrow_loop saturating_consume_inner borrow
    up_to Zero.consume return_tokens time_when_bucket update cas_loop settle load consume_turn
    return_turn zero_time_new balance_of Nanos.new_checked to_duration from_secs_f64
    Nanos.as_secs_f64 from_secs_f64_unchecked to_bits from_bits
third_poll = refl

abbrev three_polls :
    TimedRun at exact_sleeps 500_000_000 16 new_stream ([] ++ [] ++ (9 ∷ []) ++ (1 ∷ [])) 18 done
three_polls =
    polled
      (polled (polled start 16 8_000_000_000 (omega arith) refl first_poll) 17 8_500_000_000
        (omega arith) refl second_poll)
      18 9_000_000_000 (omega arith) refl third_poll

pub eight-Holds :
    Holds LocalStorage-IsStorage two_a_second two_a_second-IsScale at
      (λ a h. refl)
      (local_storage.new (on_grid 1073 8))
      8
eight-Holds = record {
  load_eq = refl;
  valid =
      LocalStorage-IsStorage.new-IsValid (on_grid 1073 8)
        (grid-IsRep 1073 8 (omega arith) (omega arith));
  small = omega arith;
}

abbrev pub setting : Setting Numbers LocalStorage ManualClock ℕ ℕ ℕ
setting = record {
  l = LocalStorage-IsStorage;
  limit = two_a_second;
  g = two_a_second-IsScale;
  clock = at;
  clock_at = λ a h. refl;
  timed = exact_sleeps;
  inner_at = λ s x. omega arith;
  per_unit = 500_000_000;
  per_unit_pos = omega arith;
  whole = refl;
  f = size;
  f-IsNonZeroU32 = size-IsNonZeroU32;
}

delivered_bounded_example : (10 ≤ 10 + (18 - 16)) × (10 ≤ 18 - max 8 (16 - 10))
delivered_bounded_example =
    delivered_bounded setting 16 8 (omega arith) (record { left = 9 ∷ 1 ∷ []; given = [] })
      (local_storage.new (on_grid 1073 8)) (at 16) 0 eight-Holds ([] ++ [] ++ (9 ∷ []) ++ (1 ∷ []))
      18 done (omega arith) three_polls
