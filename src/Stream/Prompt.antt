-- ===== src/Stream/Prompt.antt =====
-- src/futures/stream.rs: one poll of a stream on time, where no step rounds.
use gardal.Prelude.{
  ℕ, ◌+◌, ◌-◌, ◌*◌, ◌^◌, ◌≤◌, ◌<◌, ◌≡◌, refl, ap, ◌∙◌, arith, Option, none, some, List, [], ◌∷◌,
  pos→==,
}
use native.Mathlib.Nat.{lt_of_le_of_lt, mul-le-mul_right}
use gardal.Clock.Source.{Clock}
use gardal.Float.Duration.{Duration}
use gardal.Ideal.{caught_up}
use gardal.Storage.Interface.{TimeStorage}
use gardal.RawBucket.Exact.{time}
use gardal.RawBucket.Held.{Holds}
use gardal.Bucket.{TokenBucket}
use gardal.Stream.{
  Poll, ready, pending, InnerStream, Runtime, Task, leave, take_pending, deliver, postpone, pay,
  fetch, poll_next,
}
use gardal.Stream.Delay.{to_duration-short}
use gardal.Stream.Charge.{charge}
use gardal.Stream.Pace.{Setting}
use gardal.Stream.Weigh.{weight}
use gardal.Stream.Executor.{IsPunctual, head?}

module _ {S ST C D X Item : Type 0} ⦃t : TimeStorage ST⦄ ⦃k : Clock C⦄ ⦃i : InnerStream S Item X⦄
    ⦃r : Runtime X D⦄ (o : Setting S ST C D X Item) (e : IsPunctual o) where
  open o use {
    l, limit, g, clock, clock_at, timed, inner_at, per_unit, per_unit_pos, whole, f, f-IsNonZeroU32,
  }

  -- A stream that has its bucket for itself.
  abbrev pub stage : S → ST → C → Option D → Option Item → X → Task S ST C D X Item
  stage str s c d x cx = record {
    this = record {
      stream = str;
      bucket = some (record { bucket = s; clock = c; limit = limit });
      weight_fn = f;
      delay = d;
      pending_item = x;
    };
    env = [];
    cx = cx;
  }

  module _ (now : ℕ) where
    -- The context of a poll that has its budget.
    abbrev proceeded : X
    proceeded = (r.poll_proceed (e.poll_at now)).1

    proceeded_time : timed.nanos_at proceeded ≡ now * per_unit
    proceeded_time = timed.proceed_at (e.poll_at now) ∙ e.poll_time now

    module _ (str : S) (s : ST) (d : D) (x : Item) where
      abbrev waiting : Task S ST C D X Item
      waiting = stage str s (clock now) (some d) (some x) (e.poll_at now)

      abbrev polled : X
      polled = (r.poll d proceeded).1.1

      abbrev pub poll_after : X
      poll_after = r.restore_budget (e.poll_at now) polled

      -- The delay is over.
      pub poll_over :
          timed.due d ≤ now * per_unit
          → poll_next waiting ≡ some (ready (some x), stage str s (clock now) none none poll_after)
      unfolding poll_next deliver take_pending leave
      poll_over h =
          rw (e.budget now, poll_next)
            (rw (e.poll_over d proceeded (omega (arith, h, proceeded_time)), deliver) refl)

      early_pending : now * per_unit < timed.due d → (r.poll d proceeded).0 ≡ pending
      early_pending h = go (r.poll d proceeded).0 refl
        where
          go : (a : Poll (Unit {0})) → (r.poll d proceeded).0 ≡ a → (r.poll d proceeded).0 ≡ pending
          go (ready u) a = absurd (omega (arith, h, timed.poll_due d proceeded a, proceeded_time))
          go pending a = a

      -- The sleep wakes the task when it is over.
      pub early_wakes :
          (y : ℕ)
          → now * per_unit < timed.due d
          → timed.due d ≡ y * per_unit
          → e.wakes_at poll_after ≡ some y
      early_wakes y h due_eq = e.wakes_over now y d (early_pending h) due_eq

      -- It is not.
      pub poll_early :
          now * per_unit < timed.due d
          → poll_next waiting
            ≡ some (
              pending,
              stage str s (clock now) (some (r.poll d proceeded).1.0) (some x) poll_after,
            )
      unfolding poll_next deliver leave
      poll_early h = rw (e.budget now, poll_next) (rw (early_pending h, deliver) refl)

    module _ (str : S) (s : ST) where
      abbrev resting : Task S ST C D X Item
      resting = stage str s (clock now) none none (e.poll_at now)

      abbrev pub rest_of : S
      rest_of = (i.poll_next str proceeded).1.0

      abbrev pub fetched : X
      fetched = (i.poll_next str proceeded).1.1

      fetched_time : timed.nanos_at fetched ≡ now * per_unit
      fetched_time = e.inner_now str proceeded ∙ proceeded_time

      -- There are no more items.
      pub poll_end :
          e.left str ≡ []
          → poll_next resting
            ≡ some (
              ready none,
              stage rest_of s (clock now) none none (r.restore_budget (e.poll_at now) fetched),
            )
      unfolding poll_next fetch leave
      poll_end h =
          rw (e.budget now, poll_next)
            (rw (e.inner_ready str proceeded ∙ ap (λ q. ready (head? q)) h, fetch) refl)

      module _ (x : Item) (xs : List Item) (h : e.left str ≡ x ∷ xs) (z : ℕ)
          (v : Holds l limit g clock clock_at s z) (fits : weight o x ≤ g.cap)
          (now_top : now + weight o x ≤ 2 ^ 53) (zero_top : z + weight o x ≤ 2 ^ 53) where
        abbrev pub paid_at : ℕ
        paid_at = caught_up g.cap now z + weight o x

        abbrev pub stored : ST
        stored = t.store s (time limit g paid_at)

        abbrev bucket : TokenBucket ST C
        bucket = record { bucket = s; clock = clock now; limit = limit }

        abbrev fetched_task : Task S ST C D X Item
        fetched_task = stage rest_of s (clock now) none none fetched

        poll_pays : poll_next resting ≡ pay bucket x fetched_task
        unfolding poll_next fetch
        poll_pays =
            rw (e.budget now, poll_next)
              (rw (e.inner_ready str proceeded ∙ ap (λ q. ready (head? q)) h, fetch) refl)

        -- There are tokens for the item.
        pub poll_paid :
            paid_at ≤ now
            → poll_next resting
              ≡ some (
                ready (some x),
                stage rest_of stored (clock now) none none (r.made_progress fetched),
              )
        unfolding pay
        poll_paid covered =
            let outcome =
              charge l limit g clock clock_at now s z v (f x) (f-IsNonZeroU32 x) fits now_top
                zero_top in
            let no_nap : paid_at - now ≡ 0 = omega (arith, covered) in
            poll_pays ∙ rw (outcome, no_nap, pay) refl

        abbrev nap : Duration
        nap = record { nanos = (paid_at - now) * per_unit }

        abbrev pub delay : D
        delay = r.sleep nap fetched

        paid_small : paid_at ≤ 2 ^ 53
        unfolding caught_up
        paid_small = omega (arith, now_top, zero_top)

        pub delay_due : now ≤ paid_at → timed.due delay ≡ paid_at * per_unit
        delay_due owing =
            e.sleep_exact now (paid_at - now) fetched fetched_time
            ∙ ap (λ a. a * per_unit) (omega (arith, owing))

        -- The loan has the task polled again at once.
        pub lent_wakes : e.wakes_at (r.made_progress (r.wake_by_ref fetched)) ≡ some now
        lent_wakes = e.wakes_at_once now fetched fetched_time

        -- The rest of them is lent, and the item waits.
        pub poll_lent :
            now < paid_at
            → poll_next resting
              ≡ some (
                pending,
                stage rest_of stored
                    (clock now)
                    (some delay)
                    (some x)
                    (r.made_progress (r.wake_by_ref fetched)),
              )
        unfolding pay postpone
        poll_lent owing =
            let outcome =
              charge l limit g clock clock_at now s z v (f x) (f-IsNonZeroU32 x) fits now_top
                zero_top in
            let some_nap : 0 < paid_at - now = omega (arith, owing) in
            let shorter : paid_at - now ≤ 2 ^ 53 = omega (arith, paid_small) in
            let short = lt_of_le_of_lt (mul-le-mul_right per_unit shorter) e.longest in
            poll_pays
            ∙ rw (outcome, pos→== (paid_at - now) some_nap, pay)
                (rw (to_duration-short limit g per_unit whole (paid_at - now) shorter short) refl)
