-- ===== src/Clock/Source.antt =====
-- The trait `Clock` of src/clock.rs and the clocks over the system's instants. What the operating
-- system, tokio or quanta answers is part of the clock's state: a clock is read at an instant.
use gardal.Float.Value.{F64, zero_f64, add}
use gardal.Float.Duration.{Instant, duration_since, as_secs_f64}

pub record Clock {ℓ} (C : Type ℓ) : Type ℓ where
  pub datum : C → F64
  pub now : C → F64

-- `CLOCK_ORIGIN`, taken once.
pub record Datum : Type 0 where
  pub dur_since_epoch : F64
  pub std_instant : Instant
  pub tokio_instant : Instant
  pub quanta_instant : Instant

-- The provided method `datum`.
abbrev pub default_datum : F64
default_datum = zero_f64

-- `now.duration_since(origin).as_secs_f64() + CLOCK_ORIGIN.dur_since_epoch`
unfoldable pub since_epoch : Datum → Instant → Instant → F64
since_epoch o origin t = add (as_secs_f64 (duration_since t origin)) o.dur_since_epoch

pub record StdClock : Type 0 where
  pub origin : Datum
  pub instant : Instant

pub record QuantaClock : Type 0 where
  pub origin : Datum
  pub instant : Instant

pub record TokioClock : Type 0 where
  pub origin : Datum
  pub instant : Instant

-- `instant` is quanta's recent instant, which its upkeep thread advances.
pub record FastClock : Type 0 where
  pub origin : Datum
  pub instant : Instant

instance abbrev pub std_clock : Clock StdClock
std_clock = record {
  datum = λ c. c.origin.dur_since_epoch;
  now = λ c. since_epoch c.origin c.origin.std_instant c.instant;
}

instance abbrev pub quanta_clock : Clock QuantaClock
quanta_clock = record {
  datum = λ _. default_datum;
  now = λ c. since_epoch c.origin c.origin.quanta_instant c.instant;
}

instance abbrev pub tokio_clock : Clock TokioClock
tokio_clock = record {
  datum = λ c. c.origin.dur_since_epoch;
  now = λ c. since_epoch c.origin c.origin.tokio_instant c.instant;
}

instance abbrev pub fast_clock : Clock FastClock
fast_clock = record {
  datum = λ c. c.origin.dur_since_epoch;
  now = λ c. since_epoch c.origin c.origin.quanta_instant c.instant;
}
