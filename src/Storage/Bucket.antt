-- ===== src/Storage/Bucket.antt =====
-- `TokenBucketStorage` of src/storage.rs: a token bucket kept as the time at which it was, or will
-- be, empty. The struct is the storage `inner` that it holds.
use gardal.Prelude.{if◌then◌else◌}
use gardal.Float.Value.{F64, zero_f64, add, sub, mul, div, eq, min}
use gardal.Storage.Interface.{TimeStorage, M, pure, ◌>>=◌, load, store}
use gardal.Storage.Loop.{Turn, stop, swap, update}

pub data TokenAcquisition : Type 0 where
  acquired : F64 → TokenAcquisition
  zeroed_at : F64 → TokenAcquisition

-- `((now - zero_time) * rate).min(burst_size)`
unfoldable pub balance_of : F64 → F64 → F64 → F64 → F64
balance_of rate burst_size now zero_time = min (mul (sub now zero_time) rate) burst_size

-- `now - (available - consumed) / rate`
unfoldable pub zero_time_new : F64 → F64 → F64 → F64 → F64
zero_time_new rate now available consumed = sub now (div (sub available consumed) rate)

module _ (rate burst_size now : F64) (f : F64 → F64) where
  unfoldable pub consume_turn : F64 → Turn F64
  consume_turn zero_time_old =
      let available = balance_of rate burst_size now zero_time_old in
      let consumed = f available in
      if eq consumed zero_f64
      then stop zero_f64
      else swap consumed (zero_time_new rate now available consumed)

  unfoldable pub consume2_turn : F64 → Turn TokenAcquisition
  consume2_turn zero_time_old =
      let available = balance_of rate burst_size now zero_time_old in
      let consumed = f available in
      if eq consumed zero_f64
      then stop (zeroed_at zero_time_old)
      else swap (acquired consumed) (zero_time_new rate now available consumed)

unfoldable pub return_turn : F64 → F64 → F64 → Turn F64
return_turn tokens rate zero_time_old =
    let zero_time_new = sub zero_time_old (div tokens rate) in swap zero_time_new zero_time_new

module _ {S : Type 0} ⦃t : TimeStorage S⦄ where
  unfoldable pub reset : F64 → M S (Unit {0})
  reset zero_time = store zero_time

  unfoldable pub balance : F64 → F64 → F64 → M S F64
  balance rate burst_size now = do zt ← load; pure (balance_of rate burst_size now zt)

  -- The callback `f` is given the available tokens and answers how many to consume.
  unfoldable pub consume : F64 → F64 → F64 → (F64 → F64) → M S F64
  consume rate burst_size now f = update (consume_turn rate burst_size now f)

  unfoldable pub consume2 : F64 → F64 → F64 → (F64 → F64) → M S TokenAcquisition
  consume2 rate burst_size now f = update (consume2_turn rate burst_size now f)

  unfoldable pub return_tokens : F64 → F64 → M S F64
  return_tokens tokens rate = update (return_turn tokens rate)

  unfoldable pub time_when_bucket : F64 → F64 → M S F64
  time_when_bucket rate target = do zt ← load; pure (add zt (div target rate))
