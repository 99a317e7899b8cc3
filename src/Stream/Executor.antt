-- ===== src/Stream/Executor.antt =====
-- The loop `while let Some(item) = stream.next().await` by which the tests of src/futures/stream.rs and
-- examples/weighted_stream.rs use a stream, and what an executor that polls on time is held to.
use gardal.Prelude.{ℕ, zero, suc, ◌+◌, ◌*◌, ◌^◌, ◌≤◌, ◌<◌, ◌≡◌, Option, none, some, List, [], ◌∷◌}
use gardal.Float.Duration.{nanos_per_sec}
use gardal.Clock.Source.{Clock}
use gardal.Storage.Interface.{TimeStorage}
use gardal.Stream.{ready, pending, InnerStream, Runtime, Task, poll_next}
use gardal.Stream.Runs.{meanwhile}
use gardal.Stream.Pace.{Setting}

abbrev pub head? : {A : Type 0} → List A → Option A
head? [] = none
head? (x ∷ xs) = some x

abbrev pub tail : {A : Type 0} → List A → List A
tail [] = []
tail (x ∷ xs) = xs

-- The bucket's clock at a time, the context of a poll at that time, and when the task of a context that a
-- poll has left is polled again: at the time at which its waker is called, if ever.
pub record Executor (C X : Type 0) : Type 0 where
  pub clock : ℕ → C
  pub poll_at : ℕ → X
  pub wakes_at : X → Option ℕ

-- The inner stream is `stream::iter`, with the items of a list ready one after another. The executor
-- polls with a budget. A sleep of whole units ends at its time, and is ready then. A waker that is called
-- in a poll has the task polled again at once, and one that a pending sleep was polled with is called
-- when the sleep is over. `longest` bounds the waits that a `Duration` can hold.
pub record IsPunctual {S ST C D X Item : Type 0} ⦃t : TimeStorage ST⦄ ⦃k : Clock C⦄
    ⦃i : InnerStream S Item X⦄ ⦃r : Runtime X D⦄ (o : Setting S ST C D X Item) : Type 0 where
  pub poll_at : ℕ → X
  pub wakes_at : X → Option ℕ
  pub poll_time : (a : ℕ) → o.timed.nanos_at (poll_at a) ≡ a * o.per_unit
  pub budget : (a : ℕ) → (r.poll_proceed (poll_at a)).0 ≡ ready tt
  pub sleep_exact :
      (a w : ℕ) (x : X)
      → o.timed.nanos_at x ≡ a * o.per_unit
      → o.timed.due (r.sleep (record { nanos = w * o.per_unit }) x) ≡ (a + w) * o.per_unit
  pub poll_over : (d : D) (x : X) → o.timed.due d ≤ o.timed.nanos_at x → (r.poll d x).0 ≡ ready tt
  pub wakes_at_once :
      (a : ℕ) (x : X)
      → o.timed.nanos_at x ≡ a * o.per_unit
      → wakes_at (r.made_progress (r.wake_by_ref x)) ≡ some a
  pub wakes_over :
      (a y : ℕ) (d : D)
      → (r.poll d (r.poll_proceed (poll_at a)).1).0 ≡ pending
      → o.timed.due d ≡ y * o.per_unit
      → wakes_at (r.restore_budget (poll_at a) (r.poll d (r.poll_proceed (poll_at a)).1).1.1)
        ≡ some y
  pub left : S → List Item
  pub inner_ready : (s : S) (x : X) → (i.poll_next s x).0 ≡ ready (head? (left s))
  pub inner_rest : (s : S) (x : X) → left (i.poll_next s x).1.0 ≡ tail (left s)
  pub inner_now : (s : S) (x : X) → o.timed.nanos_at (i.poll_next s x).1.1 ≡ o.timed.nanos_at x
  pub longest : 2 ^ 53 * o.per_unit < 2 ^ 64 * nanos_per_sec

module _ {S ST C D X Item : Type 0} ⦃t : TimeStorage ST⦄ ⦃k : Clock C⦄ ⦃i : InnerStream S Item X⦄
    ⦃r : Runtime X D⦄ (e : Executor C X) where
  -- The task as a poll at `now` finds it.
  abbrev pub at_time : ℕ → Task S ST C D X Item → Task S ST C D X Item
  at_time now p = meanwhile (λ b. record b { clock = e.clock now }) [] (e.poll_at now) p

  -- The items with the times at which the loop has them. After a poll that is pending the task is polled
  -- again when it is woken. `none` is a panic, a task that is never woken, or the end of the fuel, of
  -- which a poll takes one.
  unfoldable pub run : ℕ → ℕ → Task S ST C D X Item → Option (List (Item × ℕ))
  run zero now p = none
  run (suc fuel) now p = elim (poll_next (at_time now p)) [
    | none ↦ none
    | some (x, q) ↦ elim x [
      | ready none ↦ some []
      | ready (some item) ↦ elim (run fuel now q) [
        | none ↦ none
        | some rest ↦ some ((item, now) ∷ rest)
      ]
      | pending ↦ elim (e.wakes_at q.cx) [ none ↦ none | some next ↦ run fuel next q ]
    ]
  ]

-- The executor of a setting.
abbrev pub executor :
    {S ST C D X Item : Type 0}
    → ⦃t : TimeStorage ST⦄ → ⦃k : Clock C⦄ → ⦃i : InnerStream S Item X⦄ → ⦃r : Runtime X D⦄
    → (o : Setting S ST C D X Item) → IsPunctual o
    → Executor C X
executor o e = record { clock = o.clock; poll_at = e.poll_at; wakes_at = e.wakes_at }
