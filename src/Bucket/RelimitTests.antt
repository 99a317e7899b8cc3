-- ===== src/Bucket/RelimitTests.antt =====
-- A bucket with two tokens a second and at most ten, of which the limit becomes four a second and five.
use gardal.Prelude.{◌^◌, ◌≡◌, refl, some, false, arith}
use gardal.Float.Value.{fin, of_int, min, running}
use gardal.Float.Grid.{on_grid}
use gardal.Clock.Manual.{ManualClock, manual_clock}
use gardal.Limit.{Limit}
use gardal.Storage.Local.{LocalStorage, local_storage, LocalStorage-IsStorage}
use gardal.Storage.Bucket.{balance_of}
use gardal.Storage.Alone.{alone}
use gardal.RawBucket.Exact.{IsScale}
use gardal.RawBucket.ScaleTests.{two_a_second, two_a_second-IsScale}
use gardal.Bucket
use gardal.Bucket.{TokenBucket, update_limit}
use gardal.Bucket.Alone.{relimited}
use gardal.Bucket.Relimit.{update_limit-keeps}

abbrev four_a_second : Limit
four_a_second = record { rate = of_int 4; burst = of_int 5 }

four_rate : of_int 4 ≡ fin false (2 ^ 1076)
unfolding running
four_rate = refl

five_burst : of_int 5 ≡ on_grid 1074 5
unfolding running
five_burst = refl

four_a_second-IsScale : IsScale four_a_second
four_a_second-IsScale = record {
  rate_exp = 1076;
  time_exp = 1072;
  token_exp = 1074;
  cap = 5;
  balance = refl;
  time_small = omega arith;
  token_small = omega arith;
  rate_small = omega arith;
  rate_eq = four_rate;
  burst_eq = five_burst;
  cap_small = omega arith;
}

-- Empty at 4 seconds, and now it is 10 seconds: there are ten tokens.
abbrev full : TokenBucket LocalStorage ManualClock
full = record {
  bucket = local_storage.new (on_grid 1073 8);
  clock = record { time = on_grid 1073 20 };
  limit = two_a_second;
}

update_limit-keeps_example :
    let have = balance_of two_a_second.rate two_a_second.burst (on_grid 1073 20) (on_grid 1073 8) in
    let b = relimited full four_a_second in
    (Bucket.balance (alone full) ≡ some (have, alone full))
    × (update_limit four_a_second (alone full) ≡ some (tt, alone b))
    × (Bucket.balance (alone b) ≡ some (min have four_a_second.burst, alone b))
unfolding four_a_second-IsScale
update_limit-keeps_example =
    update_limit-keeps LocalStorage-IsStorage full two_a_second-IsScale four_a_second
      four_a_second-IsScale refl 20 8 40 refl refl refl (omega arith) (omega arith) (omega arith)
      (omega arith) (omega arith)
