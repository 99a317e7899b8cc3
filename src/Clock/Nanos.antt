-- ===== src/Clock/Nanos.antt =====
-- `Nanos` of src/clock.rs: the bits of a number of seconds, kept as a non-zero word.
use gardal.Prelude.{ℕ, Option, none, some, if◌then◌else◌}
use gardal.Float.Value.{F64, zero_f64, le}
use gardal.Float.Bits.{to_bits, from_bits}
use gardal.Float.Duration.{Duration, from_secs_f64}

-- `Nanos(NonZeroU64)`. That `bits` is not 0 is the caller's duty in `from_secs_f64_unchecked`.
pub record Nanos : Type 0 where
  pub bits : ℕ

unfoldable pub from_secs_f64_unchecked : F64 → Nanos
from_secs_f64_unchecked secs = record { bits = to_bits secs }

unfoldable pub new_checked : F64 → Option Nanos
new_checked secs = if le secs zero_f64 then none else some (from_secs_f64_unchecked secs)

unfoldable pub as_secs_f64 : Nanos → F64
as_secs_f64 n = from_bits n.bits

-- `Duration::from(nanos)`; `none` is the panic of `Duration::from_secs_f64`.
unfoldable pub to_duration : Nanos → Option Duration
to_duration n = from_secs_f64 (as_secs_f64 n)
