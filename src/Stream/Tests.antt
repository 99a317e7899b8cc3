-- ===== src/Stream/Tests.antt =====
-- A stream of numbers, each of its own weight, over a bucket of two tokens a second.
use gardal.Prelude.{
  ℕ, ◌+◌, ◌≡◌, refl, sym, Option, none, some, List, [], ◌∷◌, ◌++◌, leb, if◌then◌else◌, ok, true,
}
use gardal.Float.Value.{of_int, add, div, lt, running}
use gardal.Float.Bits.{to_bits, from_bits}
use gardal.Float.Duration.{from_secs_f64}
use gardal.Clock.Nanos
use gardal.Clock.Nanos.{Nanos, from_secs_f64_unchecked, to_duration}
use gardal.Clock.Manual.{ManualClock, manual_clock}
use gardal.Storage.Interface.{World, load, settle}
use gardal.Storage.Local.{LocalStorage, local_storage}
use gardal.Storage.Loop.{update, cas_loop}
use gardal.Storage.Bucket.{
  balance_of, zero_time_new, consume_turn, return_turn, return_tokens, time_when_bucket,
}
use gardal.Storage.Bucket as Zero
use gardal.RawBucket
use gardal.RawBucket.{saturating_consume_inner, borrow, borrow_loop, consume_or_borrow, up_to}
use gardal.Bucket
use gardal.Bucket.{TokenBucket, on_raw}
use gardal.Stream
use gardal.Stream.{
  Poll, ready, pending, InnerStream, Runtime, Task, poll_next, fetch, pay, postpone, deliver,
  take_pending, leave,
}
use gardal.Stream.Order
use gardal.Stream.Order.{History, held}
use mathlib.Core.List.{append-nil}
use gardal.Stream.Runs.{Run, start, polled, between, Run-order, meanwhile}
use gardal.Stream.Waits.{Fetches, waiting, poll_next-panics}

-- An iterator as a stream, with what it has given.
pub record Numbers : Type 0 where
  pub left : List ℕ
  pub given : List ℕ

abbrev pub give : List ℕ → List ℕ → Poll (Option ℕ) × Numbers
give [] g = (ready none, record { left = []; given = g })
give (n ∷ ns) g = (ready (some n), record { left = ns; given = g ++ (n ∷ []) })

instance abbrev pub numbers : InnerStream Numbers ℕ ℕ
numbers = record { poll_next = λ s cx. let (x, s') = give s.left s.given in (x, (s', cx)) }

give-given : (l g : List ℕ) → (give l g).1.given ≡ g ++ Stream.Order.pulled (give l g).0
give-given [] g = sym (append-nil g)
give-given (n ∷ ns) g = refl

abbrev numbers_history : History Numbers ℕ ℕ
numbers_history = record { log = λ s. s.given; log-poll = λ s cx. give-given s.left s.given }

-- The context is the time, in nanoseconds, and a sleep the time at which it is over.
instance abbrev pub sleeps : Runtime ℕ ℕ
sleeps = record {
  poll_proceed = λ cx. (ready tt, cx);
  made_progress = λ cx. cx;
  restore_budget = λ before cx. cx;
  wake_by_ref = λ cx. cx;
  sleep = λ d cx. cx + d.nanos;
  reset = λ d cx _. cx + d.nanos;
  poll = λ until cx. (if leb until cx then ready tt else pending, (until, cx));
}

abbrev two_a_second : TokenBucket LocalStorage ManualClock
two_a_second = record {
  bucket = local_storage.new (of_int 3);
  clock = record { time = of_int 3 };
  limit = record { rate = of_int 2; burst = of_int 10 };
}

abbrev waiting_for : List ℕ → Task Numbers LocalStorage ManualClock ℕ ℕ ℕ
waiting_for items = record {
  this = Stream.new (record { left = items; given = [] }) (some two_a_second) (λ n. n);
  env = [];
  cx = 0;
}

five-Fetches : Fetches (waiting_for (5 ∷ [])) two_a_second 5
five-Fetches = record {
  proceeds = refl;
  has_bucket = refl;
  no_item = refl;
  no_delay = refl;
  gives = refl;
}

eleven-Fetches : Fetches (waiting_for (11 ∷ [])) two_a_second 11
eleven-Fetches = record {
  proceeds = refl;
  has_bucket = refl;
  no_item = refl;
  no_delay = refl;
  gives = refl;
}

eleven-ExceedsBurst : lt two_a_second.limit.burst (of_int 11) ≡ true
unfolding running
eleven-ExceedsBurst = refl

poll_next-panics_example : poll_next (waiting_for (11 ∷ [])) ≡ none
poll_next-panics_example =
    poll_next-panics (waiting_for (11 ∷ [])) two_a_second 11 eleven-Fetches eleven-ExceedsBurst

-- Five tokens at two a second: two and a half seconds.
abbrev in_debt : World (TokenBucket LocalStorage ManualClock)
in_debt = record {
  cell = record two_a_second {
    bucket = local_storage.new (add (of_int 3) (div (of_int 5) (of_int 2)));
  };
  env = [];
}

abbrev debt : Nanos
debt = from_secs_f64_unchecked (div (of_int 5) (of_int 2))

five-owes :
    Bucket.consume_with_borrow 5 (record { cell = two_a_second; env = [] })
    ≡ some (ok (some debt), in_debt)
unfolding running Bucket.consume_with_borrow on_raw RawBucket.consume_with_borrow consume_or_borrow
    borrow_loop saturating_consume_inner borrow up_to Zero.consume return_tokens time_when_bucket
    update cas_loop settle load consume_turn return_turn zero_time_new balance_of Nanos.new_checked
five-owes = refl

debt-lasts : to_duration debt ≡ some (record { nanos = 2_500_000_000 })
unfolding running to_duration from_secs_f64 Nanos.as_secs_f64 from_secs_f64_unchecked to_bits
    from_bits
debt-lasts = refl

abbrev asleep : Task Numbers LocalStorage ManualClock ℕ ℕ ℕ
asleep =
    waiting (waiting_for (5 ∷ [])) two_a_second 5 five-Fetches debt in_debt
      (record { nanos = 2_500_000_000 }) five-owes debt-lasts

first_poll : poll_next (waiting_for (5 ∷ [])) ≡ some (pending, asleep)
unfolding running poll_next fetch pay postpone Bucket.consume_with_borrow on_raw
    RawBucket.consume_with_borrow consume_or_borrow borrow_loop saturating_consume_inner borrow
    up_to Zero.consume return_tokens time_when_bucket update cas_loop settle load consume_turn
    return_turn zero_time_new balance_of Nanos.new_checked to_duration from_secs_f64
    Nanos.as_secs_f64 from_secs_f64_unchecked to_bits from_bits
first_poll = refl

abbrev awake : Task Numbers LocalStorage ManualClock ℕ ℕ ℕ
awake = meanwhile (λ b. b) [] 2_500_000_000 asleep

abbrev served : Task Numbers LocalStorage ManualClock ℕ ℕ ℕ
served = record awake { this = record awake.this { pending_item = none; delay = none } }

second_poll : poll_next awake ≡ some (ready (some 5), served)
unfolding poll_next deliver take_pending leave
second_poll = refl

-- Polled, polled again when the delay is over, and left alone.
abbrev two_polls : Run (waiting_for (5 ∷ [])) ([] ++ [] ++ (5 ∷ [])) served
two_polls = polled (between (polled start first_poll) (λ b. b) [] 2_500_000_000) second_poll

Run-order_example : served.this.stream.given ≡ [] ++ [] ++ (5 ∷ []) ++ []
Run-order_example =
    Run-order numbers_history (record { left = 5 ∷ []; given = [] }) (some two_a_second) (λ n. n) []
      0 refl two_polls
