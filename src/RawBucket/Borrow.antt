-- ===== src/RawBucket/Borrow.antt =====
-- src/raw_bucket.rs: borrowing from the future, on a bucket that no other thread touches.
use gardal.Prelude.{ℕ, suc, ◌<◌, ◌≡◌, ◌∙◌, Bool, true, false, some, none}
use gardal.Float.Value.{F64, fin, zero_f64, neg, add, sub, div, lt, min, max, is_nan, IsF64, IsRep}
use gardal.Float.Exact.{sub_self, sub-zero_f64, zero-div_pos, zero-mul_fin}
use gardal.Float.Closed.{sub-IsF64, div-IsF64, neg-IsF64}
use gardal.Float.Difference.{sub_below}
use gardal.Clock.Source.{Clock}
use gardal.Limit.{Limit}
use gardal.Storage.Interface.{TimeStorage, IsStorage, ◌>>=◌}
use gardal.Storage.Bucket.{balance_of, zero_time_new}
use gardal.Storage.Alone.{alone, return_tokens-alone, time_when_bucket-alone}
use gardal.RawBucket
use gardal.RawBucket.{up_to}
use gardal.RawBucket.Outcome.{avail, after, saturating_outcome}
use gardal.RawBucket.Amounts.{
  up_to_none, up_to_part, up_to_all, ne-zero_of_pos, ne-zero_pos, zero-lt_pos, below_of_lt,
  not-zero-lt-zero,
}

module _ {S : Type 0} ⦃t : TimeStorage S⦄ (l : IsStorage S) (limit : Limit) (now : F64) where
  -- `borrow` moves the zero time ahead by the debt, and the nap lasts until then.
  abbrev pub owed : S → F64 → F64
  owed s debt = sub (t.load s) (div (neg debt) limit.rate)

  abbrev pub nap_until : F64 → F64
  nap_until z = max (sub (add z (div zero_f64 limit.rate)) now) zero_f64

  pub borrow-alone :
      (s : S) (debt : F64)
      → l.IsValid s
      → IsF64 limit.rate
      → IsF64 debt
      → RawBucket.borrow debt now limit (alone s)
        ≡ some (nap_until (owed s debt), alone (t.store s (owed s debt)))
  unfolding RawBucket.borrow
  borrow-alone s debt v r d =
      let z = owed s debt in
      let fits : IsF64 z =
        sub-IsF64 (t.load s) (div (neg debt) limit.rate) (l.load-IsF64 s v)
          (div-IsF64 (neg debt) limit.rate (neg-IsF64 debt d) r) in
      rw (return_tokens-alone l s v (neg debt) limit.rate, ◌>>=◌)
        (rw (time_when_bucket-alone limit.rate zero_f64 (t.store s z), ◌>>=◌)
          (rw (l.load-store s z fits)))

-- The numbers of a call are finite, and the rate is positive.
pub record IsRegular (limit : Limit) (now : F64) : Type 0 where
  pub rate : ℕ
  pub rate_pos : 0 < rate
  pub rate_eq : limit.rate ≡ fin false rate
  pub rate_fits : IsRep rate
  pub sign : Bool
  pub time : ℕ
  pub now_eq : now ≡ fin sign time
  pub now_fits : IsRep time
  pub burst_number : is_nan limit.burst ≡ false
  pub burst_ge : lt limit.burst zero_f64 ≡ false

-- Right after everything is taken the bucket is empty, to the bit.
module _ (limit : Limit) (now : F64) (g : IsRegular limit now) where
  open g use {rate, rate_pos, rate_eq, sign, time, now_eq, now_fits, burst_number, burst_ge}

  pub zero_time_new_self :
      (s : Bool) (a : ℕ) → zero_time_new limit.rate now (fin s a) (fin s a) ≡ now
  unfolding zero_time_new
  zero_time_new_self s a =
      rw (sub_self s a, rate_eq, zero-div_pos rate rate_pos, now_eq)
        (sub-zero_f64 sign time now_fits)

  pub balance_of_self : balance_of limit.rate limit.burst now now ≡ zero_f64
  unfolding balance_of min is_nan
  balance_of_self = rw (now_eq, sub_self sign time, rate_eq, zero-mul_fin false rate) (rw burst_ge)

module _ {S C : Type 0} ⦃t : TimeStorage S⦄ ⦃k : Clock C⦄ (l : IsStorage S) (clock : C)
    (limit : Limit) (g : IsRegular limit (k.now clock)) (m : ℕ) (pos : 0 < m) (fits : IsRep m) where
  abbrev request : F64
  request = fin false m

  abbrev time_now : F64
  time_now = k.now clock

  rate_IsF64 : IsF64 limit.rate
  rate_IsF64 = rw g.rate_eq g.rate_fits

  now_IsF64 : IsF64 time_now
  now_IsF64 = rw g.now_eq g.now_fits

  -- The three cases of one round.
  module _ (s : S) (v : l.IsValid s) (neg : Bool) (a : ℕ)
      (is_avail : avail l s v clock limit ≡ fin neg a) where
    pub round_none :
        lt zero_f64 (fin neg a) ≡ false
        → RawBucket.saturating_consume_inner request time_now limit (alone s)
          ≡ some (zero_f64, alone s)
    round_none h =
        saturating_outcome l s v clock limit request ∙ rw (is_avail, up_to_none m pos neg a h)

    pub round_part :
        lt zero_f64 (fin neg a) ≡ true
        → lt (fin neg a) request ≡ true
        → RawBucket.saturating_consume_inner request time_now limit (alone s)
          ≡ some (fin neg a, alone (t.store s time_now))
    round_part h q =
        saturating_outcome l s v clock limit request
        ∙ rw (
          is_avail,
          up_to_part m pos neg a h q,
          ne-zero_of_pos m pos neg a h,
          zero_time_new_self limit time_now g neg a,
        )

    pub round_all :
        lt zero_f64 (fin neg a) ≡ true
        → lt (fin neg a) request ≡ false
        → RawBucket.saturating_consume_inner request time_now limit (alone s)
          ≡ some (request, after l s v clock limit request)
    round_all h q =
        saturating_outcome l s v clock limit request
        ∙ rw (is_avail, up_to_all m pos neg a h q, ne-zero_pos m pos)

  module _ (s : S) (v : l.IsValid s) where
    -- Nothing to take: the whole of it is borrowed.
    pub loop_none :
        (fuel : ℕ) (neg : Bool) (a : ℕ)
        → avail l s v clock limit ≡ fin neg a
        → lt zero_f64 (fin neg a) ≡ false
        → RawBucket.borrow_loop (suc fuel) request time_now limit (alone s)
          ≡ some (
            some (nap_until l limit time_now (owed l limit time_now s request)),
            alone (t.store s (owed l limit time_now s request)),
          )
    unfolding RawBucket.borrow_loop
    loop_none fuel neg a e h = rw (zero-lt_pos m pos) (
        rw (round_none s v neg a e h, ◌>>=◌)
          (rw not-zero-lt-zero
            (rw (borrow-alone l limit time_now s request v rate_IsF64 fits, ◌>>=◌))))

    -- All of it is there: the second test ends the loop.
    pub loop_all :
        (fuel : ℕ) (neg : Bool) (a : ℕ)
        → avail l s v clock limit ≡ fin neg a
        → lt zero_f64 (fin neg a) ≡ true
        → lt (fin neg a) request ≡ false
        → RawBucket.borrow_loop (suc (suc fuel)) request time_now limit (alone s)
          ≡ some (none, after l s v clock limit request)
    unfolding RawBucket.borrow_loop
    loop_all fuel neg a e h q = rw (zero-lt_pos m pos) (
        rw (round_all s v neg a e h q, ◌>>=◌)
          (rw (zero-lt_pos m pos) (rw (sub_self false m, not-zero-lt-zero))))

module _ {S C : Type 0} ⦃t : TimeStorage S⦄ ⦃k : Clock C⦄ (l : IsStorage S) (clock : C)
    (limit : Limit) (g : IsRegular limit (k.now clock)) (s : S) (v : l.IsValid s) where
  abbrev now_at : F64
  now_at = k.now clock

  now_at-IsF64 : IsF64 now_at
  now_at-IsF64 = rw g.now_eq g.now_fits

  -- Some of it is there: that is taken, and the rest is borrowed from now on.
  pub loop_part :
      (m : ℕ)
      → 0 < m
      → IsRep m
      → (fuel a : ℕ) → avail l s v clock limit ≡ fin false a
      → lt zero_f64 (fin false a) ≡ true
      → lt (fin false a) (fin false m) ≡ true
      → let z = sub now_at (div (neg (sub (fin false m) (fin false a))) limit.rate) in
        RawBucket.borrow_loop (suc (suc fuel)) (fin false m) now_at limit (alone s)
        ≡ some (some (nap_until l limit now_at z), alone (t.store s z))
  unfolding RawBucket.borrow_loop
  loop_part m pos fits fuel a e h q =
      let (d, d_pos, _, d_fits, d_eq) = sub_below m a (below_of_lt a m q) fits in
      let v₁ = l.store-IsValid s now_at now_at-IsF64 in
      let rest =
        loop_none l clock limit g d d_pos d_fits (t.store s now_at) v₁ fuel false 0
          (rw (l.load-store s now_at now_at-IsF64) (balance_of_self limit now_at g))
          not-zero-lt-zero in
      rw (zero-lt_pos m pos) (
        rw (round_part l clock limit g m pos fits s v false a e h q, ◌>>=◌)
          (rw h (
            rw d_eq
              (rest ∙ rw (l.load-store s now_at now_at-IsF64) (rw (l.store-store s now_at _))))))
