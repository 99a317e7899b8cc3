-- ===== src/Error/Display.antt =====
-- The impls of `Debug` and `Display` of src/error.rs, with its tests. A text is the list of its code points.
use gardal.Prelude.{ℕ, ◌≡◌, refl, Option, none, some, List, ◌++◌}
use gardal.Float.Value.{of_int, running}
use gardal.Float.Bits.{to_bits, from_bits}
use gardal.Float.Duration.{from_secs_f64}
use gardal.Clock.Nanos.{as_secs_f64, from_secs_f64_unchecked}
use gardal.Clock.Display
use gardal.Clock.Display.{codes, fmt_duration}
use gardal.Error.{RateLimited, ExceededBurstCapacity, exceeded_burst_capacity}

-- Both impls print the same text; `none` is the panic where the wait is no `Duration`.
unfoldable pub fmt_rate_limited : RateLimited → Option (List ℕ)
fmt_rate_limited e = elim (Display.fmt e.earliest_retry_time) [
  | none ↦ none
  | some wait ↦ some (codes "rate limited; suggested nap duration is " ++ wait)
]

abbrev pub debug_exceeded_burst_capacity : ExceededBurstCapacity → List ℕ
debug_exceeded_burst_capacity exceeded_burst_capacity = codes "exceeded burst capacity"

abbrev pub display_exceeded_burst_capacity : ExceededBurstCapacity → List ℕ
display_exceeded_burst_capacity exceeded_burst_capacity =
    codes "borrowing more than the total burst capacity is not permitted"

display_rate_limited_passes :
    fmt_rate_limited (record { earliest_retry_time = from_secs_f64_unchecked (of_int 10) })
    ≡ some (codes "rate limited; suggested nap duration is 10s")
unfolding running fmt_rate_limited Display.fmt fmt_duration from_secs_f64 as_secs_f64
    from_secs_f64_unchecked to_bits from_bits
display_rate_limited_passes = refl

display_exceeded_burst_capacity_passes :
    display_exceeded_burst_capacity exceeded_burst_capacity
    ≡ codes "borrowing more than the total burst capacity is not permitted"
display_exceeded_burst_capacity_passes = refl

fmt_in_millis : fmt_duration (record { nanos = 1_250_000 }) ≡ codes "1.25ms"
unfolding fmt_duration
fmt_in_millis = refl

fmt_in_secs : fmt_duration (record { nanos = 12_050_000_001 }) ≡ codes "12.050000001s"
unfolding fmt_duration
fmt_in_secs = refl

fmt_nothing : fmt_duration (record { nanos = 0 }) ≡ codes "0ns"
unfolding fmt_duration
fmt_nothing = refl
