-- ===== src/RawBucket/SessionTests.antt =====
-- A run of calls of a bucket with two tokens a second, at most ten, in half seconds.
use gardal.Prelude.{ℕ, ◌+◌, ◌-◌, ◌≤◌, ◌≡◌, refl, some, List, [], ◌∷◌, arith, ok, err}
use gardal.Float.Value.{one}
use gardal.Float.Round.{nearest_at, round_up}
use gardal.Float.Duration.{from_secs_f64}
use gardal.Float.Grid.{on_grid, grid-IsRep}
use gardal.Clock.Manual.{ManualClock, manual_clock}
use gardal.Clock.Nanos.{from_secs_f64_unchecked}
use gardal.Tokens
use gardal.Ideal.{caught_up, take, lend, level}
use gardal.Ideal.Session.{
  consume, try_consume, consume_with_borrow, saturating_consume_with_borrow, add_tokens, available,
  Timed, serve_all, AllSmall,
}
use gardal.Storage.Local.{LocalStorage, local_storage, LocalStorage-IsStorage}
use gardal.Storage.Alone.{alone}
use gardal.RawBucket.Session.{
  Answer, for_taken, for_tried, for_lent, for_lent_part, for_added, for_level, perform_all,
  render_all, HasDuration,
}
use gardal.RawBucket.Held.{Holds, Served}
use gardal.RawBucket.Runs.{perform_all-Served, perform_all_bounded}
use gardal.RawBucket.ScaleTests.{two_a_second, two_a_second-IsScale}

abbrev at : ℕ → ManualClock
at a = record { time = on_grid 1073 a }

abbrev empty : LocalStorage
empty = local_storage.new (on_grid 1073 8)

empty-Holds :
    Holds LocalStorage-IsStorage two_a_second two_a_second-IsScale at (λ a h. refl) empty 8
empty-Holds = record {
  load_eq = refl;
  valid =
      LocalStorage-IsStorage.new-IsValid (on_grid 1073 8)
        (grid-IsRep 1073 8 (omega arith) (omega arith));
  small = omega arith;
}

-- Eight of ten tokens are there and five are taken; of the three that are left a loan of nine takes all;
-- then a try fails, and three tokens are brought back. Of twelve that are asked for at last, ten are lent.
abbrev visits : List Timed
visits =
    record { now = 16; call = consume 5 }
    ∷ record { now = 16; call = consume_with_borrow 9 }
    ∷ record { now = 18; call = try_consume 1 }
    ∷ record { now = 18; call = add_tokens 3 }
    ∷ record { now = 20; call = available }
    ∷ record { now = 20; call = saturating_consume_with_borrow 12 }
    ∷ []

abbrev answers : List Answer
answers =
    for_taken (some (Tokens.new_unchecked (on_grid 1074 5)))
    ∷ for_lent (ok (some (from_secs_f64_unchecked (on_grid 1073 6))))
    ∷ for_tried (err (record { earliest_retry_time = from_secs_f64_unchecked (on_grid 1073 5) }))
    ∷ for_added
    ∷ for_level (on_grid 1074 1)
    ∷ for_lent_part
        (some (Tokens.new_unchecked (on_grid 1074 10)), record { nanos = 4_500_000_000 })
    ∷ []

nap-HasDuration : HasDuration two_a_second two_a_second-IsScale 9
unfolding from_secs_f64 nearest_at one round_up
nap-HasDuration = (record { nanos = 4_500_000_000 }, refl)

visits-AllSmall : AllSmall 10 1 (HasDuration two_a_second two_a_second-IsScale) visits 8
unfolding take lend caught_up
visits-AllSmall = (
  omega arith,
  (
    omega arith,
    (omega arith, (omega arith, (omega arith, ((omega arith, omega arith, nap-HasDuration), tt)))),
  ),
)

perform_all-Served_example :
    Served LocalStorage-IsStorage two_a_second two_a_second-IsScale at
      (λ a h. refl)
      (render_all two_a_second two_a_second-IsScale)
      (perform_all two_a_second two_a_second-IsScale at visits (alone empty))
      (serve_all 10 1 visits 8)
perform_all-Served_example =
    perform_all-Served LocalStorage-IsStorage two_a_second two_a_second-IsScale at (λ a h. refl)
      visits empty 8 empty-Holds visits-AllSmall

-- The bucket has handed out 5, 9 and 10 tokens, and 3 were brought.
perform_all_bounded_example :
    (cell : LocalStorage) × (perform_all two_a_second two_a_second-IsScale at visits (alone empty)
      ≡ some (answers, alone cell))
    × (local_storage.load cell ≡ on_grid 1073 29)
    × (24 ≤ 3 + 10 + (29 - 16))
unfolding take lend caught_up level from_secs_f64 nearest_at one round_up
perform_all_bounded_example =
    perform_all_bounded LocalStorage-IsStorage two_a_second two_a_second-IsScale at (λ a h. refl)
      visits empty 8 16 empty-Holds visits-AllSmall
      (omega arith, (omega arith, (omega arith, (omega arith, (omega arith, (omega arith, tt))))))
