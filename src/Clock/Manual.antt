-- ===== src/Clock/Manual.antt =====
-- `ManualClock` of src/clock.rs. The mutex is never poisoned, since no holder of it panics, so the
-- clock is the number that it guards; `&ManualClock` and `Arc<ManualClock>` read the same number.
use gardal.Float.Value.{F64, zero_f64, add}
use gardal.Clock.Source.{Clock, default_datum}

pub record ManualClock : Type 0 where
  pub time : F64

abbrev pub new : F64 → ManualClock
new now = record { time = now }

abbrev pub default : ManualClock
default = new zero_f64

abbrev pub set : ManualClock → F64 → ManualClock
set c now = record c { time = now }

unfoldable pub advance : ManualClock → F64 → ManualClock
advance c delta = record c { time = add c.time delta }

instance abbrev pub manual_clock : Clock ManualClock
manual_clock = record { datum = λ _. default_datum; now = λ c. c.time }
