-- ===== src/Float/Duration.antt =====
-- `std::time::Duration` and `std::time::Instant` as whole nanoseconds, and their conversions with f64.
use gardal.Prelude.{
  ℕ, ◌-◌, ◌*◌, ◌/◌, ◌%◌, ◌^◌, Option, none, some, true, false, ltb, ◌==◌, if◌then◌else◌,
}
use gardal.Float.Round.{nearest_at}
use gardal.Float.Value.{F64, nan, inf, fin, one, of_int, add, div}

pub record Duration : Type 0 where
  pub nanos : ℕ

abbrev pub nanos_per_sec : ℕ
nanos_per_sec = 1_000_000_000

-- `Duration::from_secs_f64`: the nearest whole nanosecond. `none` is its panic, on a negative
-- number, on 2^64 seconds or more, and on NaN and the infinities.
unfoldable pub from_secs_f64 : F64 → Option Duration
from_secs_f64 nan = none
from_secs_f64 (inf s) = none
from_secs_f64 (fin true m) = if m == 0 then some (record { nanos = 0 }) else none
from_secs_f64 (fin false m) =
    let n = nearest_at 0 (m * nanos_per_sec) one in
    if ltb n (2 ^ 64 * nanos_per_sec) then some (record { nanos = n }) else none

-- `Duration::as_secs_f64`
unfoldable pub as_secs_f64 : Duration → F64
as_secs_f64 d =
    add (of_int (d.nanos / nanos_per_sec))
      (div (of_int (d.nanos % nanos_per_sec)) (of_int nanos_per_sec))

-- An instant counts from some fixed point in time; `duration_since` saturates at zero.
pub record Instant : Type 0 where
  pub at : ℕ

unfoldable pub duration_since : Instant → Instant → Duration
duration_since t earlier = record { nanos = t.at - earlier.at }
