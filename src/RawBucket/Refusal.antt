-- ===== src/RawBucket/Refusal.antt =====
-- src/raw_bucket.rs: the answers of `try_consume`.
use gardal.Prelude.{
  ℕ, ◌≡◌, ◌∙◌, some, true, false, arith, inl, inr, Bool-cases, if◌then◌else◌, ok, err,
}
use gardal.Float.Value.{F64, zero_f64, of_int, add, sub, div, eq, lt, IsF64}
use gardal.Float.Closed.{add-IsF64, sub-IsF64, div-IsF64, of_int-IsF64}
use gardal.Float.Bits.{from_bits-to_bits}
use gardal.Clock.Nanos.{as_secs_f64, from_secs_f64_unchecked}
use gardal.Clock.Source.{Clock}
use gardal.Tokens
use gardal.Tokens.{new_unchecked}
use gardal.Limit.{Limit}
use gardal.Error.{RateLimited, earliest_retry_after_nanos}
use gardal.Storage.Interface.{TimeStorage, IsStorage, ◌>>=◌}
use gardal.Storage.Bucket
use gardal.Storage.Bucket.{acquired, zeroed_at}
use gardal.Storage.Alone.{alone, consume2-alone}
use gardal.RawBucket
use gardal.RawBucket.{all_or_nothing, est_time, or_retry}
use gardal.RawBucket.Outcome.{IsNonZeroU32, request-ne-zero, avail, after}

module _ {S C : Type 0} ⦃t : TimeStorage S⦄ ⦃k : Clock C⦄ (l : IsStorage S) (s : S)
    (v : l.IsValid s) (clock : C) (limit : Limit) where
  -- The time from the call to the one at which an empty bucket would have earned `n` tokens.
  abbrev pub wait_for : F64 → F64
  wait_for n = add (sub (t.load s) (k.now clock)) (div n limit.rate)

  abbrev decision : F64 → F64
  decision n = all_or_nothing n (avail l s v clock limit)

  refusal :
      (n : F64)
      → lt (avail l s v clock limit) n ≡ true
      → Bucket.consume2 limit.rate limit.burst (k.now clock) (all_or_nothing n) (alone s)
        ≡ some (zeroed_at (t.load s), alone s)
  unfolding all_or_nothing eq
  refusal n short =
      consume2-alone l s v limit.rate limit.burst (k.now clock) (all_or_nothing n) ∙ rw short

  grant :
      (n : F64)
      → eq n zero_f64 ≡ false
      → lt (avail l s v clock limit) n ≡ false
      → Bucket.consume2 limit.rate limit.burst (k.now clock) (all_or_nothing n) (alone s)
        ≡ some (acquired n, after l s v clock limit n)
  unfolding all_or_nothing
  grant n nonzero enough =
      consume2-alone l s v limit.rate limit.burst (k.now clock) (all_or_nothing n)
      ∙ rw (enough, nonzero)

  -- The wait is kept to the bit.
  wait-exact :
      (n : ℕ)
      → IsNonZeroU32 n
      → IsF64 (k.now clock)
      → IsF64 limit.rate
      → as_secs_f64 (from_secs_f64_unchecked (wait_for (of_int n))) ≡ wait_for (of_int n)
  unfolding as_secs_f64 from_secs_f64_unchecked
  wait-exact n h now rate = from_bits-to_bits (wait_for (of_int n)) (
      add-IsF64 _ _ (sub-IsF64 (t.load s) (k.now clock) (l.load-IsF64 s v) now)
        (div-IsF64 (of_int n) limit.rate (of_int-IsF64 n (omega (arith, h.1))) rate))

  -- On a valid storage that no other thread touches, with a time and a rate of the format,
  -- `try_consume` for `n` tokens (1 to 2^32 - 1) gives `n` tokens and moves the zero time if the
  -- balance is not below `n`. Otherwise it leaves the bucket as it is, and its error says, to the
  -- bit, the time until an empty bucket would have earned `n` tokens since the zero time.
  pub try_consume_outcome :
      (n : ℕ)
      → IsNonZeroU32 n
      → IsF64 (k.now clock)
      → IsF64 limit.rate
      → let e : RateLimited = record {
        earliest_retry_time = from_secs_f64_unchecked (wait_for (of_int n));
      } in
        (RawBucket.try_consume n clock limit (alone s) ≡ (
          if lt (avail l s v clock limit) (of_int n)
          then some (err e, alone s)
          else some (ok (Tokens.new n), after l s v clock limit (of_int n))))
        × (as_secs_f64 (earliest_retry_after_nanos e) ≡ wait_for (of_int n))
  unfolding RawBucket.try_consume or_retry est_time Tokens.new earliest_retry_after_nanos
  try_consume_outcome n h now rate = (
    elim (Bool-cases (lt (avail l s v clock limit) (of_int n))) [
      | inl short ↦ rw short (rw (refusal (of_int n) short, ◌>>=◌))
      | inr enough ↦ rw enough (rw (grant (of_int n) (request-ne-zero n h) enough, ◌>>=◌))
    ],
    wait-exact n h now rate,
  )
