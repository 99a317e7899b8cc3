-- ===== src/Stream/OnTime.antt =====
-- src/futures/stream.rs: the loop over a stream that is polled on time, against the ideal bucket's timetable.
use gardal.Prelude.{
  ℕ, zero, suc, ◌+◌, ◌*◌, ◌^◌, ◌≤◌, ◌<◌, ◌≡◌, refl, ap, ◌∙◌, arith, none, some, List, [], ◌∷◌,
  length,
}
use Prim.Native.Nat.{max}
use native.Mathlib.Nat.{mul-lt-mul_of_pos_right}
use native.Mathlib.Decide.{dec_lt}
use gardal.Clock.Source.{Clock}
use gardal.Ideal.{caught_up}
use gardal.Ideal.Timetable.{timetable}
use gardal.Storage.Interface.{TimeStorage}
use gardal.RawBucket.Held.{Holds, store-Holds}
use gardal.Bucket.{TokenBucket}
use gardal.Stream
use gardal.Stream.{ready, pending, InnerStream, Runtime, Task, poll_next}
use gardal.Stream.Pace.{Setting}
use gardal.Stream.Weigh.{weight, weigh}
use gardal.Stream.Executor.{IsPunctual, tail, at_time, run, executor}
use gardal.Stream.Prompt.{
  stage, poll_after, poll_over, poll_early, poll_end, poll_paid, poll_lent, lent_wakes, early_wakes,
  delay, delay_due, stored, rest_of, fetched,
}

module _ {S ST C D X Item : Type 0} ⦃t : TimeStorage ST⦄ ⦃k : Clock C⦄ ⦃i : InnerStream S Item X⦄
    ⦃r : Runtime X D⦄ (o : Setting S ST C D X Item) (e : IsPunctual o) where
  open o use {l, limit, g, clock, clock_at, timed, per_unit, per_unit_pos}

  -- A new stream over a bucket.
  abbrev pub started : S → TokenBucket ST C → X → Task S ST C D X Item
  started str b cx = record { this = Stream.new str (some b) o.f; env = []; cx = cx }

  -- No item weighs more than the burst.
  abbrev pub AllWithin : List Item → Type 0
  AllWithin [] = Unit
  AllWithin (x ∷ xs) = (weight o x ≤ g.cap) × AllWithin xs

  module _ (fuel now : ℕ) (p q : Task S ST C D X Item) where
    run_item :
        (x : Item) (rest : List (Item × ℕ))
        → poll_next (at_time (executor o e) now p) ≡ some (ready (some x), q)
        → run (executor o e) fuel now q ≡ some rest
        → run (executor o e) (suc fuel) now p ≡ some ((x, now) ∷ rest)
    unfolding run
    run_item x rest h then_rest = rw (h, run) (rw then_rest refl)

    run_waits :
        (next : ℕ)
        → poll_next (at_time (executor o e) now p) ≡ some (pending, q)
        → e.wakes_at q.cx ≡ some next
        → run (executor o e) (suc fuel) now p ≡ run (executor o e) fuel next q
    unfolding run
    run_waits next h woken = rw (h, run) (rw woken refl)

    run_ends :
        poll_next (at_time (executor o e) now p) ≡ some (ready none, q)
        → run (executor o e) (suc fuel) now p ≡ some []
    unfolding run
    run_ends h = rw (h, run) refl

  -- An item that waits is polled at once, and then when its delay is over.
  run_delay :
      (fuel now paid : ℕ) (str : S) (s : ST) (c : C) (d : D) (x : Item) (cx : X)
      (rest : List (Item × ℕ))
      → now < paid
      → timed.due d ≡ paid * per_unit
      → ((c' : C) (cx' : X)
          → run (executor o e) fuel paid (stage o e str s c' none none cx') ≡ some rest)
      → run (executor o e) (suc (suc fuel)) now (stage o e str s c (some d) (some x) cx)
        ≡ some ((x, paid) ∷ rest)
  run_delay fuel now paid str s c d x cx rest later due_eq then_rest =
      let d' = (r.poll d (r.poll_proceed (e.poll_at now)).1).1.0 in
      let early : now * per_unit < timed.due d =
        rw due_eq (mul-lt-mul_of_pos_right {m = now} {n = paid} later per_unit_pos) in
      let kept : timed.due d' ≡ paid * per_unit = timed.poll_keeps d _ ∙ due_eq in
      let waiting = stage o e str s (clock now) (some d') (some x) (poll_after o e now str s d x) in
      run_waits (suc fuel) now (stage o e str s c (some d) (some x) cx) waiting paid
        (poll_early o e now str s d x early) (early_wakes o e now str s d x paid early due_eq)
      ∙ run_item fuel paid waiting
          (stage o e str s (clock paid) none none (poll_after o e paid str s d' x)) x rest
          (poll_over o e paid str s d' x (rw kept (omega arith)))
          (then_rest (clock paid) (poll_after o e paid str s d' x))

  module _ (fuel now : ℕ) (str : S) (s : ST) (c : C) (z : ℕ) (cx : X) (x : Item) (xs : List Item)
      (h : e.left str ≡ x ∷ xs) (v : Holds l limit g clock clock_at s z) (fits : weight o x ≤ g.cap)
      (now_top : now + weight o x ≤ 2 ^ 53) (zero_top : z + weight o x ≤ 2 ^ 53) where
    abbrev paid : ℕ
    paid = caught_up g.cap now z + weight o x

    abbrev stored_paid : ST
    stored_paid = stored o e now str s x xs h z v fits now_top zero_top

    abbrev rest_stream : S
    rest_stream = rest_of o e now str s

    -- One item, and the loop over the rest of them.
    run_first :
        (rest : List (Item × ℕ))
        → ((fuel' : ℕ)
            → fuel ≤ fuel'
            → (c' : C) (cx' : X)
            → run
                (executor o e)
                fuel'
                (max now paid)
                (stage o e rest_stream stored_paid c' none none cx')
              ≡ some rest)
        → run (executor o e) (suc (suc (suc fuel))) now (stage o e str s c none none cx)
          ≡ some ((x, max now paid) ∷ rest)
    run_first rest then_rest = elim (dec_lt now paid) [
      | yes owing ↦
          let at_paid : max now paid ≡ paid = omega (arith, owing) in
          let d = delay o e now str s x xs h z v fits now_top zero_top in
          let lent =
            stage o e rest_stream stored_paid (clock now) (some d) (some x)
              (r.made_progress (r.wake_by_ref (fetched o e now str s))) in
          run_waits (suc (suc fuel)) now (stage o e str s c none none cx) lent now
            (poll_lent o e now str s x xs h z v fits now_top zero_top owing)
            (lent_wakes o e now str s x xs h z v fits now_top zero_top)
          ∙ run_delay fuel now paid rest_stream stored_paid (clock now) d x
              (r.made_progress (r.wake_by_ref (fetched o e now str s))) rest owing
              (delay_due o e now str s x xs h z v fits now_top zero_top (omega (arith, owing)))
              (λ c' cx'. rw at_paid at (then_rest fuel (omega arith) c' cx'))
          ∙ rw at_paid refl
      | no covered ↦
          let at_now : max now paid ≡ now = omega (arith, covered) in
          let next =
            stage o e rest_stream stored_paid (clock now) none none
              (r.made_progress (fetched o e now str s)) in
          run_item (suc (suc fuel)) now (stage o e str s c none none cx) next x rest
            (poll_paid o e now str s x xs h z v fits now_top zero_top (omega (arith, covered)))
            (rw at_now at (
              then_rest (suc (suc fuel)) (omega arith) (clock now)
                (r.made_progress (fetched o e now str s))))
          ∙ rw at_now refl
    ]

  run-stage :
      (xs : List Item) (fuel now : ℕ) (str : S) (s : ST) (c : C) (z : ℕ) (cx : X)
      → e.left str ≡ xs
      → Holds l limit g clock clock_at s z
      → AllWithin xs
      → max now z + weigh o xs ≤ 2 ^ 53
      → 3 * length xs < fuel
      → run (executor o e) fuel now (stage o e str s c none none cx)
        ≡ some (timetable (weight o) g.cap now z xs)
  unfolding caught_up
  run-stage [] zero now str s c z cx h v fits top enough = absurd (omega (arith, enough))
  run-stage [] (suc fuel) now str s c z cx h v fits top enough =
      run_ends fuel now _ _ (poll_end o e now str s h)
  run-stage (x ∷ xs) zero now str s c z cx h v fits top enough = absurd (omega (arith, enough))
  run-stage (x ∷ xs) (suc zero) now str s c z cx h v fits top enough =
      absurd (omega (arith, enough))
  run-stage (x ∷ xs) (suc (suc zero)) now str s c z cx h v fits top enough =
      absurd (omega (arith, enough))
  run-stage (x ∷ xs) (suc (suc (suc fuel))) now str s c z cx h v (fit, fits) top enough =
      let paid = caught_up g.cap now z + weight o x in
      let now_top : now + weight o x ≤ 2 ^ 53 = omega (arith, top) in
      let zero_top : z + weight o x ≤ 2 ^ 53 = omega (arith, top) in
      let rest_left = e.inner_rest str (r.poll_proceed (e.poll_at now)).1 ∙ ap tail h in
      let next_top : max (max now paid) paid + weigh o xs ≤ 2 ^ 53 = omega (arith, top) in
      run_first fuel now str s c z cx x xs h v fit now_top zero_top _ (λ fuel' more c' cx'.
        run-stage xs fuel' (max now paid) (rest_of o e now str s) _ c' paid cx' rest_left
          (store-Holds l limit g clock clock_at s paid (omega (arith, top))) fits next_top
          (omega (arith, enough, more)))

  -- In a `Setting` with a punctual executor, for a new stream over a list's items that has its bucket for
  -- itself, over a valid storage that holds the zero time `z`, where no item weighs more than the burst
  -- and the later of start and zero time, with the weights added, is within 2^53 units: started at
  -- `now`, the loop over the stream ends after at most three polls an item and one more, and it has
  -- every item, in order, exactly when the ideal bucket has it paid: at once if the tokens are there,
  -- and otherwise when the loan for it is over.
  pub run_exact :
      (fuel now z : ℕ) (str : S) (s : ST) (c : C) (cx : X)
      → Holds l limit g clock clock_at s z
      → AllWithin (e.left str)
      → max now z + weigh o (e.left str) ≤ 2 ^ 53
      → 3 * length (e.left str) < fuel
      → run
          (executor o e)
          fuel
          now
          (started str (record { bucket = s; clock = c; limit = limit }) cx)
        ≡ some (timetable (weight o) g.cap now z (e.left str))
  run_exact fuel now z str s c cx v fits top enough =
      run-stage (e.left str) fuel now str s c z cx refl v fits top enough
