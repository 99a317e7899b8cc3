-- ===== src/Clock/Tests.antt =====
-- Times at concrete numbers.
use gardal.Prelude.{◌+◌, ◌<◌, ◌≡◌, refl, false, arith}
use gardal.Float.Value.{fin, limit, of_int, round}
use gardal.Float.Closed.{of_int-IsF64, zero-IsRep}
use gardal.Float.Order.{◌≼◌}
use gardal.Clock.Manual
use gardal.Clock.Manual.{ManualClock, manual_clock}
use gardal.Clock.Advance.{now-advance}
use gardal.Clock.Nanos.{new_checked}
use gardal.Clock.Exact.{Keeps, new_checked_lem}

new_checked_lem_example : Keeps (of_int 3) (new_checked (of_int 3))
new_checked_lem_example = new_checked_lem (of_int 3) (of_int-IsF64 3 (omega arith))

one-fits : 1 < limit
unfolding limit
one-fits = omega arith

abbrev at_epoch : ManualClock
at_epoch = Manual.default

now-advance_example :
    (manual_clock.now at_epoch ≼ manual_clock.now (Manual.advance at_epoch (fin false 1)))
    × (manual_clock.now (Manual.advance at_epoch (fin false 1)) ≡ round false (0 + 1) 1)
now-advance_example = now-advance at_epoch 0 1 refl zero-IsRep one-fits
