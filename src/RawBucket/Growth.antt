-- ===== src/RawBucket/Growth.antt =====
-- src/raw_bucket.rs: the balance of a bucket as time passes.
use gardal.Prelude.{ℕ, ◌≤◌, ◌<◌, ◌≡◌, refl, Bool, false, some}
use gardal.Float.Value.{F64, fin, IsRep}
use gardal.Float.Closed.{sub-IsF64}
use gardal.Float.Order.{◌≼◌, IsNumber}
use gardal.Float.Ordered.{sub_mono, mul_mono, min_mono}
use gardal.Clock.Source.{Clock}
use gardal.Limit.{Limit}
use gardal.Storage.Interface.{TimeStorage, load, settle}
use gardal.Storage.Bucket
use gardal.Storage.Bucket.{balance_of}
use gardal.Storage.Alone.{alone}
use gardal.RawBucket
use gardal.RawBucket.Borrow.{IsRegular}

-- With a positive finite rate and two times from the epoch on, the later time has the larger balance.
balance_of_mono :
    (r : ℕ) (burst : F64) (s : Bool) (c a b : ℕ)
    → 0 < r
    → IsRep r
    → IsNumber burst
    → IsRep c
    → IsRep a
    → IsRep b
    → a ≤ b
    → balance_of (fin false r) burst (fin false a) (fin s c)
      ≼ balance_of (fin false r) burst (fin false b) (fin s c)
unfolding balance_of
balance_of_mono r burst s c a b pos r_fits number c_fits a_fits b_fits h =
    min_mono _ _ burst number (
      mul_mono r pos r_fits.1 _ _ (sub-IsF64 (fin false a) (fin s c) a_fits c_fits)
        (sub-IsF64 (fin false b) (fin s c) b_fits c_fits) (sub_mono a b s c h b_fits.1 c_fits.1))

module _ {S C : Type 0} ⦃t : TimeStorage S⦄ ⦃k : Clock C⦄ (limit : Limit) (s : S)
    (earlier later : C) (g : IsRegular limit (k.now earlier))
    (g' : IsRegular limit (k.now later)) where
  -- With a positive finite rate and a burst that is not below 0, on a storage that no other thread
  -- touches and whose zero time is finite, the balance by one clock is at most the balance by
  -- another that is not behind it, where both read a finite time from the epoch on.
  pub balance_grows :
      (sign : Bool) (c : ℕ)
      → t.load s ≡ fin sign c
      → IsRep c
      → g.sign ≡ false
      → g'.sign ≡ false
      → g.time ≤ g'.time
      → (x : F64) × (y : F64) × (RawBucket.balance earlier limit (alone s) ≡ some (x, alone s))
        × (RawBucket.balance later limit (alone s) ≡ some (y, alone s))
        × (x ≼ y)
  unfolding RawBucket.balance Bucket.balance load settle
  balance_grows sign c zero_time fits after_epoch after_epoch' h = (
    _,
    _,
    refl,
    refl,
    rw (zero_time, g.now_eq, g'.now_eq, after_epoch, after_epoch', g.rate_eq)
        (balance_of_mono g.rate limit.burst sign c g.time g'.time g.rate_pos g.rate_fits
          g.burst_number fits g.now_fits g'.now_fits h),
  )
