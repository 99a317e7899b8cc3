-- ===== src/RawBucket/Bounds.antt =====
-- src/raw_bucket.rs: the range of what `available` and `balance` report.
use gardal.Prelude.{◌≡◌, refl, arith, some}
use gardal.Float.Value.{F64, zero_f64, max, is_nan}
use gardal.Float.Order.{◌≼◌, min-le_right, le-max_right, IsNumber-of_le}
use gardal.Clock.Source.{Clock}
use gardal.Limit.{Limit}
use gardal.Storage.Interface.{TimeStorage, World, load}
use gardal.Storage.Bucket
use gardal.Storage.Bucket.{balance_of}
use gardal.RawBucket

max-le : (x y z : F64) → x ≼ z → y ≼ z → max x y ≼ z
unfolding max
max-le x y z h k = ground arith

module _ {S C : Type 0} ⦃t : TimeStorage S⦄ ⦃k : Clock C⦄ (clock : C) (limit : Limit) where
  -- Over any storage and with any interference, with a burst that is not below 0 nor NaN, `available`
  -- returns a number from 0 to the burst, and `balance` one that is at most the burst.
  pub available_lem :
      (w : World S)
      → zero_f64 ≼ limit.burst
      → ((x : F64) × (w' : World S) × (RawBucket.available clock limit w ≡ some (x, w'))
          × (zero_f64 ≼ x)
          × (x ≼ limit.burst))
        × ((x : F64) × (w' : World S) × (RawBucket.balance clock limit w ≡ some (x, w'))
            × (x ≼ limit.burst))
  unfolding RawBucket.available RawBucket.balance Bucket.balance load balance_of is_nan
  available_lem w h =
      let number = (IsNumber-of_le zero_f64 limit.burst h).1 in
      let within = min-le_right _ limit.burst number in
      (
        (_, _, refl, le-max_right _ zero_f64 refl, max-le _ zero_f64 limit.burst within h),
        (_, _, refl, within),
      )
