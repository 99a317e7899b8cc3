-- ===== src/Storage/Alone.antt =====
-- The operations of `TokenBucketStorage` on a storage that no other thread touches.
use gardal.Prelude.{◌≡◌, refl, ◌∙◌, some, [], arith, if◌then◌else◌}
use gardal.Float.Value.{F64, zero_f64, add, sub, div, eq}
use gardal.Storage.Interface.{TimeStorage, World, IsStorage, load, settle, store}
use gardal.Storage.Loop.{atomically}
use gardal.Storage.Linear.{update_alone}
use gardal.Storage.Bucket
use gardal.Storage.Bucket.{
  TokenAcquisition, acquired, zeroed_at, balance_of, zero_time_new, consume_turn, consume2_turn,
  return_turn,
}

abbrev pub alone : {S : Type 0} → S → World S
alone s = record { cell = s; env = [] }

module _ {S : Type 0} ⦃t : TimeStorage S⦄ where
  pub balance-alone :
      (rate burst_size now : F64) (s : S)
      → Bucket.balance rate burst_size now (alone s)
        ≡ some (balance_of rate burst_size now (t.load s), alone s)
  unfolding Bucket.balance load settle
  balance-alone rate burst_size now s = refl

  pub time_when_bucket-alone :
      (rate target : F64) (s : S)
      → Bucket.time_when_bucket rate target (alone s)
        ≡ some (add (t.load s) (div target rate), alone s)
  unfolding Bucket.time_when_bucket load settle
  time_when_bucket-alone rate target s = refl

  pub reset-alone : (z : F64) (s : S) → Bucket.reset z (alone s) ≡ some (tt, alone (t.store s z))
  unfolding Bucket.reset store settle
  reset-alone z s = refl

  module _ (l : IsStorage S) (s : S) (v : l.IsValid s) where
    pub consume-alone :
        (rate burst_size now : F64) (f : F64 → F64)
        → let available = balance_of rate burst_size now (t.load s) in
          let consumed = f available in
          Bucket.consume rate burst_size now f (alone s) ≡ (
            if eq consumed zero_f64
            then some (zero_f64, alone s)
            else some (consumed, alone (t.store s (zero_time_new rate now available consumed))))
    unfolding Bucket.consume atomically consume_turn
    consume-alone rate burst_size now f =
        update_alone (consume_turn rate burst_size now f) l s v ∙ ground arith

    pub consume2-alone :
        (rate burst_size now : F64) (f : F64 → F64)
        → let available = balance_of rate burst_size now (t.load s) in
          let consumed = f available in
          Bucket.consume2 rate burst_size now f (alone s) ≡ (
            if eq consumed zero_f64
            then some (zeroed_at (t.load s), alone s)
            else some
                (acquired consumed, alone (t.store s (zero_time_new rate now available consumed))))
    unfolding Bucket.consume2 atomically consume2_turn
    consume2-alone rate burst_size now f =
        update_alone (consume2_turn rate burst_size now f) l s v ∙ ground arith

    pub return_tokens-alone :
        (tokens rate : F64)
        → let z = sub (t.load s) (div tokens rate) in
          Bucket.return_tokens tokens rate (alone s) ≡ some (z, alone (t.store s z))
    unfolding Bucket.return_tokens atomically return_turn
    return_tokens-alone tokens rate = update_alone (return_turn tokens rate) l s v
