-- ===== src/Limit.antt =====
-- src/limit.rs: the rate, in tokens per second, and the burst capacity.
pub mod RoundTrip
use gardal.Prelude.{ℕ, Option, none, some, ◌==◌, if◌then◌else◌}
use gardal.Float.Value.{F64, of_int, mul, div, max, as_uint}

pub record Limit : Type 0 where
  pub rate : F64
  pub burst : F64

abbrev pub seconds_per_minute : F64
seconds_per_minute = of_int 60

abbrev pub seconds_per_hour : F64
seconds_per_hour = of_int 3600

-- The arguments are `NonZeroU32`: from 1 to 2^32 - 1.
unfoldable pub per_second : ℕ → Limit
per_second rate = record { rate = of_int rate; burst = of_int rate }

unfoldable pub per_second_and_burst : ℕ → ℕ → Limit
per_second_and_burst rate burst = record { rate = of_int rate; burst = of_int burst }

unfoldable pub per_minute : ℕ → Limit
per_minute rate = record {
  rate = div (of_int rate) seconds_per_minute;
  burst = max (of_int rate) (of_int 1);
}

unfoldable pub per_hour : ℕ → Limit
per_hour rate = record {
  rate = div (of_int rate) seconds_per_hour;
  burst = max (of_int rate) (of_int 1);
}

unfoldable pub with_burst : Limit → ℕ → Limit
with_burst l burst = record l { burst = of_int burst }

unfoldable pub rate_per_second : Limit → F64
rate_per_second l = l.rate

unfoldable pub rate_per_minute : Limit → F64
rate_per_minute l = mul l.rate seconds_per_minute

unfoldable pub rate_per_hour : Limit → F64
rate_per_hour l = mul l.rate seconds_per_hour

-- `none` is the panic of `unwrap` where the burst, cut to a `u32`, is 0.
unfoldable pub burst : Limit → Option ℕ
burst l = let b = as_uint 32 l.burst in if b == 0 then none else some b
