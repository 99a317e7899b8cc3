-- ===== src/Bucket/Tests.antt =====
-- Token buckets over the standard clock, read at the instant of its datum.
use gardal.Prelude.{◌*◌, ◌≡◌, refl, false, none, some, arith}
use gardal.Float.Value.{of_int, one, running}
use gardal.Float.Duration.{Instant, duration_since, as_secs_f64}
use gardal.Clock.Source.{Datum, StdClock, std_clock, since_epoch}
use gardal.Limit.{Limit}
use gardal.Storage.Local.{LocalStorage, local_storage, LocalStorage-IsStorage}
use gardal.Storage.Alone.{alone}
use gardal.RawBucket.Borrow.{IsRegular}
use gardal.Bucket
use gardal.Bucket.{TokenBucket, with_datum, update_limit}
use gardal.Bucket.Alone.{with_datum-empty}

abbrev start_of_clock : Instant
start_of_clock = record { at = 7 }

-- The process starts five seconds after the epoch.
abbrev origin : Datum
origin = record {
  dur_since_epoch = of_int 5;
  std_instant = start_of_clock;
  tokio_instant = start_of_clock;
  quanta_instant = start_of_clock;
}

abbrev clock : StdClock
clock = record { origin = origin; instant = start_of_clock }

abbrev ten : Limit
ten = record { rate = of_int 2; burst = of_int 10 }

ten-IsRegular : IsRegular ten (std_clock.now clock)
unfolding running since_epoch duration_since as_secs_f64
ten-IsRegular = record {
  rate = 2 * one;
  rate_pos = omega arith;
  rate_eq = refl;
  rate_fits = (refl, omega arith);
  sign = false;
  time = 5 * one;
  now_eq = refl;
  now_fits = (refl, omega arith);
  burst_number = refl;
  burst_ge = refl;
}

reads-datum : std_clock.now clock ≡ std_clock.datum clock
unfolding running since_epoch duration_since as_secs_f64
reads-datum = refl

abbrev fresh : TokenBucket LocalStorage StdClock
fresh = record { bucket = local_storage.new (of_int 4); clock = clock; limit = ten }

with_datum-empty_example :
    Bucket.consume {S = LocalStorage} 1 (alone (with_datum ten clock))
    ≡ some (none, alone (with_datum ten clock))
with_datum-empty_example =
    with_datum-empty LocalStorage-IsStorage ten clock ten-IsRegular reads-datum 1
      (omega arith, omega arith)
