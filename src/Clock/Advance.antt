-- ===== src/Clock/Advance.antt =====
-- src/clock.rs: a manual clock that is moved ahead.
use gardal.Prelude.{ℕ, ◌+◌, ◌<◌, ◌≡◌, false, arith}
use gardal.Float.Value.{fin, add, add_fin, limit, round, IsRep}
use gardal.Float.Exact.{round-exact}
use gardal.Float.Order.{◌≼◌}
use gardal.Float.Ordered.{round-le, measured}
use gardal.Clock.Manual
use gardal.Clock.Manual.{ManualClock, manual_clock}

-- A clock at a finite time from the epoch on that is advanced by a finite number of seconds, not a
-- negative one, does not go back, and reads the rounded sum.
pub now-advance :
    (c : ManualClock) (a d : ℕ)
    → c.time ≡ fin false a
    → IsRep a
    → d < limit
    → (manual_clock.now c ≼ manual_clock.now (Manual.advance c (fin false d)))
      × (manual_clock.now (Manual.advance c (fin false d)) ≡ round false (a + d) 1)
unfolding Manual.advance add add_fin limit
now-advance c a d e fits h =
    let exact = round-exact false a fits in
    (
      rw e (
          rw exact at (
            round-le a (a + d) 1 (omega arith) (omega arith)
              (measured (a + d) (a + d) (omega arith) (omega (arith, fits.1, h))))),
      rw e,
    )
