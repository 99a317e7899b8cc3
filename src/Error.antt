-- ===== src/Error.antt =====
-- src/error.rs: the two errors of consumption.
mod Display
use gardal.Prelude.{Option}
use gardal.Float.Duration.{Duration, from_secs_f64}
use gardal.Clock.Nanos.{Nanos, as_secs_f64}

pub record RateLimited : Type 0 where
  pub earliest_retry_time : Nanos

pub data ExceededBurstCapacity : Type 0 where
  exceeded_burst_capacity : ExceededBurstCapacity

-- `none` is the panic of `Duration::from_secs_f64`.
unfoldable pub earliest_retry_after : RateLimited → Option Duration
earliest_retry_after e = from_secs_f64 (as_secs_f64 e.earliest_retry_time)

unfoldable pub earliest_retry_after_nanos : RateLimited → Nanos
earliest_retry_after_nanos e = e.earliest_retry_time
