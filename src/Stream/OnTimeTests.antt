-- ===== src/Stream/OnTimeTests.antt =====
-- The loop over a stream of numbers that weigh themselves, at two tokens a second and a burst of ten, under
-- tokio's paused time; times are in half seconds. The numbers of the second stream are those of the
-- source's test of mixed items.
use gardal.Prelude.{
  ℕ, ◌*◌, ◌/◌, ◌≤◌, ◌≡◌, refl, ap, ◌∙◌, Option, none, some, [], ◌∷◌, List, leb, if◌then◌else◌,
  arith,
}
use gardal.Float.Grid.{on_grid}
use gardal.Storage.Local.{LocalStorage, local_storage, LocalStorage-IsStorage}
use gardal.Clock.Manual.{ManualClock, manual_clock}
use gardal.RawBucket.ScaleTests.{two_a_second, two_a_second-IsScale}
use gardal.Ideal.{caught_up}
use gardal.Bucket.{with_datum}
use gardal.Stream.{ready, pending}
use gardal.Stream.RateTests.{at, size, size-IsNonZeroU32, over, eight-Holds}
use gardal.Stream.Pace.{Setting, IsTimed}
use gardal.Stream.Paused.{Context, fresh, wakes_at, paused, Iter, iter, iterates, next}
use gardal.Stream.Executor.{IsPunctual, run, executor, head?, tail}
use gardal.Stream.OnTime.{started, run_exact}
use gardal.Stream.Fresh.{run_fresh}

abbrev paused_time : IsTimed Context ℕ
paused_time = record {
  nanos_at = λ cx. cx.now;
  due = λ d. d;
  proceed_at = λ x. refl;
  sleep_due = λ d x. omega arith;
  poll_due = λ d x h. over d x.now h;
  poll_keeps = λ d x. refl;
}

abbrev on_time : Setting (Iter ℕ) LocalStorage ManualClock ℕ Context ℕ
on_time = record {
  l = LocalStorage-IsStorage;
  limit = two_a_second;
  g = two_a_second-IsScale;
  clock = at;
  clock_at = λ a h. refl;
  timed = paused_time;
  inner_at = λ s x. omega arith;
  per_unit = 500_000_000;
  per_unit_pos = omega arith;
  whole = refl;
  f = size;
  f-IsNonZeroU32 = size-IsNonZeroU32;
}

abbrev in_halves : Option ℕ → Option ℕ
in_halves none = none
in_halves (some n) = some (n / 500_000_000)

is_over : (d x : ℕ) → d ≤ x → (if leb d x then ready tt else pending) ≡ ready tt
is_over d x h = ground arith

sleeping :
    (d x : ℕ)
    → (if leb d x then ready tt else pending) ≡ pending
    → (if leb d x then none else some d) ≡ some d
sleeping d x h = ground (arith, h)

gives : (ns : List ℕ) → (next ns).0 ≡ ready (head? ns)
gives [] = refl
gives (n ∷ ns) = refl

keeps : (ns : List ℕ) → (next ns).1.left ≡ tail ns
keeps [] = refl
keeps (n ∷ ns) = refl

abbrev punctual : IsPunctual on_time
punctual = record {
  poll_at = λ a. fresh (a * 500_000_000);
  wakes_at = λ cx. in_halves (wakes_at cx);
  poll_time = λ a. refl;
  budget = λ a. refl;
  sleep_exact = λ a w x h. omega (arith, h);
  poll_over = λ d x h. is_over d x.now h;
  wakes_at_once = λ a x h. ap some (omega (arith, h));
  wakes_over = λ a y d h due_eq.
      ap in_halves (sleeping d (a * 500_000_000) h) ∙ ap some (omega (arith, due_eq));
  left = λ s. s.left;
  inner_ready = λ s x. gives s.left;
  inner_rest = λ s x. keeps s.left;
  inner_now = λ s x. refl;
  longest = omega arith;
}

-- Eight tokens are there for nine, and then one comes in for one.
run_exact_example :
    run (executor on_time punctual) 7 16 (
      started on_time punctual
        (iter (9 ∷ 1 ∷ []))
        (record {
          bucket = local_storage.new (on_grid 1073 8);
          clock = at 16;
          limit = two_a_second;
        })
        (fresh 0))
    ≡ some ((9, 17) ∷ (1, 18) ∷ [])
unfolding caught_up
run_exact_example =
    run_exact on_time punctual 7 16 8 (iter (9 ∷ 1 ∷ [])) (local_storage.new (on_grid 1073 8))
      (at 16) (fresh 0) eight-Holds (omega arith) (omega arith) (omega arith)

-- One token takes half a second, also the first one; the test expects it at once.
run_fresh_example :
    run
      (executor on_time punctual)
      10
      0
      (started on_time punctual (iter (1 ∷ 5 ∷ 1 ∷ [])) (with_datum two_a_second (at 0)) (fresh 0))
    ≡ some ((1, 1) ∷ (5, 6) ∷ (1, 7) ∷ [])
run_fresh_example =
    run_fresh on_time punctual 10 0 (iter (1 ∷ 5 ∷ 1 ∷ [])) (at 0) (fresh 0) refl (omega arith)
      (omega arith) (omega arith)
