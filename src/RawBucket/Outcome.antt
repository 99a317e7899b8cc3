-- ===== src/RawBucket/Outcome.antt =====
-- src/raw_bucket.rs: `consume` on a bucket that no other thread touches.
use gardal.Prelude.{
  ℕ, ◌*◌, ◌^◌, ◌<◌, ◌≡◌, ap, ◌∙◌, true, false, some, none, arith, inl, inr, Bool-cases,
  if◌then◌else◌, pos→==,
}
use gardal.Float.Value.{F64, one, zero_f64, of_int, sub, mul, div, min, eq, lt}
use gardal.Float.Exact.{of_int-exact, one-pos}
use gardal.Clock.Source.{Clock}
use gardal.Tokens
use gardal.Tokens.{Tokens}
use gardal.Limit.{Limit}
use gardal.Storage.Interface.{TimeStorage, World, IsStorage, ◌>>=◌}
use gardal.Storage.Bucket
use gardal.Storage.Bucket.{acquired, zeroed_at, balance_of, zero_time_new}
use gardal.Storage.Alone.{alone, balance-alone, consume-alone}
use gardal.RawBucket
use gardal.RawBucket.{all_or_nothing, up_to, est_time}
use native.Mathlib.Nat.{mul-pos}

-- The argument of the consuming methods, a `NonZeroU32`.
abbrev pub IsNonZeroU32 : ℕ → Type 0
IsNonZeroU32 n = (0 < n) × (n < 2 ^ 32)

-- A request is never the number 0.0.
pub request-ne-zero : (n : ℕ) → IsNonZeroU32 n → eq (of_int n) zero_f64 ≡ false
unfolding eq
request-ne-zero n h = rw (of_int-exact n (omega arith), pos→== (n * one) (mul-pos h.0 one-pos))

pub checked :
    (n : F64) → eq n zero_f64 ≡ false → Tokens.new_checked n ≡ some (Tokens.new_unchecked n)
unfolding Tokens.new_checked
checked n e = rw e

module _ {S C : Type 0} ⦃t : TimeStorage S⦄ ⦃k : Clock C⦄ (l : IsStorage S) (s : S)
    (v : l.IsValid s) (clock : C) (limit : Limit) where
  abbrev pub now : F64
  now = k.now clock

  -- The tokens available to a call.
  abbrev pub avail : F64
  avail = balance_of limit.rate limit.burst now (t.load s)

  -- The bucket after `n` tokens are taken.
  abbrev pub after : F64 → World S
  after n = alone (t.store s (zero_time_new limit.rate now avail n))

  module _ (n : F64) (nonzero : eq n zero_f64 ≡ false) where
    refused :
        lt avail n ≡ true
        → Bucket.consume limit.rate limit.burst now (all_or_nothing n) (alone s)
          ≡ some (zero_f64, alone s)
    unfolding all_or_nothing eq
    refused short = consume-alone l s v limit.rate limit.burst now (all_or_nothing n) ∙ rw short

    granted :
        lt avail n ≡ false
        → Bucket.consume limit.rate limit.burst now (all_or_nothing n) (alone s) ≡ some (n, after n)
    unfolding all_or_nothing
    granted enough =
        consume-alone l s v limit.rate limit.burst now (all_or_nothing n) ∙ rw (enough, nonzero)

  pub consume-after :
      (n : ℕ)
      → IsNonZeroU32 n
      → RawBucket.consume n clock limit (alone s) ≡ (
          if lt avail (of_int n)
          then some (none, alone s)
          else some (some (Tokens.new n), after (of_int n)))
  unfolding RawBucket.consume Tokens.new_checked Tokens.new eq
  consume-after n h =
      let nonzero = request-ne-zero n h in
      elim (Bool-cases (lt avail (of_int n))) [
        | inl short ↦ rw short (rw (refused (of_int n) nonzero short, ◌>>=◌))
        | inr enough ↦ rw enough (
            rw (granted (of_int n) nonzero enough, ◌>>=◌)
              (ap (λ o. some (o, after (of_int n))) (checked (of_int n) nonzero)))
      ]

  -- On a valid storage that no other thread touches, `balance` and `consume` for `n` tokens (1 to 2^32 - 1)
  -- return. The balance is what has come in since the zero time, cut at the burst. If it is below `n`,
  -- `consume` gives nothing and leaves the bucket as it is. Otherwise it gives `n` tokens, and the new
  -- zero time is the present less what the rest of the balance, without the `n` tokens, takes to come
  -- in. All this is to the bit, rounded at each step.
  pub consume_outcome :
      (n : ℕ)
      → IsNonZeroU32 n
      → let balance = min (mul (sub now (t.load s)) limit.rate) limit.burst in
        (RawBucket.balance clock limit (alone s) ≡ some (balance, alone s))
        × (RawBucket.consume n clock limit (alone s) ≡ (
            if lt balance (of_int n)
            then some (none, alone s)
            else some (
              some (Tokens.new n),
              alone (t.store s (sub now (div (sub balance (of_int n)) limit.rate))),
            )))
  unfolding balance_of zero_time_new RawBucket.balance
  consume_outcome n h = (balance-alone limit.rate limit.burst now s, consume-after n h)

  -- As much as there is, cut at the request: nothing is taken from an empty bucket.
  pub saturating_outcome :
      (n : F64)
      → let c = up_to n avail in
        RawBucket.saturating_consume_inner n now limit (alone s)
        ≡ (if eq c zero_f64 then some (zero_f64, alone s) else some (c, after c))
  unfolding RawBucket.saturating_consume_inner
  saturating_outcome n = consume-alone l s v limit.rate limit.burst now (up_to n)
