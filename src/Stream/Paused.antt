-- ===== src/Stream/Paused.antt =====
-- tokio's paused time, in which the tests of src/futures/stream.rs run, in nanoseconds since the start of a
-- test: it stands still in a poll and goes on to the end of the sleep that is waited for, which is at a
-- whole millisecond. The process began at some second since the epoch.
use gardal.Prelude.{
  ℕ, ◌+◌, ◌*◌, ◌/◌, leb, Bool, true, false, if◌then◌else◌, Option, none, some, List, [], ◌∷◌,
}
use gardal.Float.Value.{of_int}
use gardal.Clock.Source.{Datum, TokioClock, tokio_clock}
use gardal.Stream.{Poll, ready, pending, InnerStream, Runtime}
use gardal.Stream.Executor.{Executor}

abbrev pub whole_ms : ℕ → ℕ
whole_ms n = (n + 999_999) / 1_000_000 * 1_000_000

-- The time of a poll, whether the task's waker has been called in it, and the end of the sleep that has been
-- polled with the waker and is not over.
pub record Context : Type 0 where
  pub now : ℕ
  pub woken : Bool
  pub timer : Option ℕ

abbrev pub fresh : ℕ → Context
fresh now = record { now = now; woken = false; timer = none }

-- When the waker of a poll is called.
abbrev pub wakes_at : Context → Option ℕ
wakes_at cx = if cx.woken then some cx.now else cx.timer

instance abbrev pub paused : Runtime Context ℕ
paused = record {
  poll_proceed = λ cx. (ready tt, cx);
  made_progress = λ cx. cx;
  restore_budget = λ before cx. cx;
  wake_by_ref = λ cx. record cx { woken = true };
  sleep = λ d cx. whole_ms (cx.now + d.nanos);
  reset = λ d cx _. whole_ms (cx.now + d.nanos);
  poll = λ d cx. (
    if leb d cx.now then ready tt else pending,
    (d, record cx { timer = if leb d cx.now then cx.timer else some d }),
  );
}

abbrev pub origin : Datum
origin = record {
  dur_since_epoch = of_int 1_700_000_000;
  std_instant = record { at = 0 };
  tokio_instant = record { at = 0 };
  quanta_instant = record { at = 0 };
}

abbrev pub clock : ℕ → TokioClock
clock now = record { origin = origin; instant = record { at = now } }

abbrev pub executor : Executor TokioClock Context
executor = record { clock = clock; poll_at = fresh; wakes_at = wakes_at }

-- `stream::iter`
pub record Iter (Item : Type 0) : Type 0 where
  pub left : List Item

abbrev pub iter : {Item : Type 0} → List Item → Iter Item
iter items = record { left = items }

abbrev pub next : {Item : Type 0} → List Item → Poll (Option Item) × Iter Item
next [] = (ready none, record { left = [] })
next (x ∷ xs) = (ready (some x), record { left = xs })

instance abbrev pub iterates : {Item X : Type 0} → InnerStream (Iter Item) Item X
iterates = record { poll_next = λ s cx. let (x, s') = next s.left in (x, (s', cx)) }
