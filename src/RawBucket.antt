-- ===== src/RawBucket.antt =====
-- src/raw_bucket.rs: `RawTokenBucket`, a bucket that is given its clock and its limit at every call.
-- The struct is the storage in its `bucket` field; its `PhantomData` holds nothing.
pub mod Outcome
pub mod Refusal
pub mod Saturating
pub mod Agree
pub mod Amounts
pub mod Borrow
pub mod Debt
pub mod Settling
pub mod Takes
pub mod Rounds
pub mod Bounds
pub mod Growth
pub mod Shared
pub mod Fit
pub mod Capped
pub mod Exact
pub mod Refines
pub mod Retry
pub mod Pricing
pub mod Lending
pub mod LendingCapped
pub mod Levels
pub mod Session
pub mod Held
pub mod Loans
pub mod Serves
pub mod Runs
mod SessionTests
pub mod ScaleTests
pub mod NonZero
pub mod Reset
mod Slow
mod AloneTests
mod Tests
use gardal.Prelude.{
  ℕ, zero, suc, ◌+◌, Option, none, some, List, [], ◌∷◌, length, Result, ok, err, if◌then◌else◌,
}
use gardal.Float.Value.{F64, zero_f64, of_int, neg, add, sub, div, lt, min, max}
use gardal.Float.Duration.{Duration, from_secs_f64}
use gardal.Clock.Nanos
use gardal.Clock.Nanos.{Nanos}
use gardal.Clock.Source.{Clock}
use gardal.Tokens
use gardal.Tokens.{Tokens}
use gardal.Limit.{Limit}
use gardal.Error.{RateLimited, ExceededBurstCapacity, exceeded_burst_capacity}
use gardal.Storage.Interface.{TimeStorage, M, pure, ◌>>=◌, load}
use gardal.Storage.Bucket
use gardal.Storage.Bucket.{TokenAcquisition, acquired, zeroed_at}

-- The callbacks: all or nothing, and as much as there is.
unfoldable pub all_or_nothing : F64 → F64 → F64
all_or_nothing to_consume avail = if lt avail to_consume then zero_f64 else to_consume

unfoldable pub up_to : F64 → F64 → F64
up_to to_consume avail = min (max avail zero_f64) to_consume

-- `zero_time - now + to_consume / rate`
unfoldable pub est_time : F64 → F64 → F64 → F64 → F64
est_time zero_time now to_consume rate = add (sub zero_time now) (div to_consume rate)

-- The `match` of `try_consume`. The `debug_assert!` on the estimate is not part of a release build.
unfoldable pub or_retry : F64 → F64 → F64 → TokenAcquisition → Result Tokens RateLimited
or_retry now to_consume rate (acquired consumed) = ok (Tokens.new_unchecked consumed)
or_retry now to_consume rate (zeroed_at zero_time) = err (record {
  earliest_retry_time = Nanos.from_secs_f64_unchecked (est_time zero_time now to_consume rate);
})

module _ {S : Type 0} ⦃t : TimeStorage S⦄ where
  unfoldable pub with_zero_time : F64 → S
  with_zero_time time_point = t.new time_point

  unfoldable pub get_zero_time : M S F64
  get_zero_time = load

  unfoldable pub set_capacity : F64 → F64 → F64 → M S (Unit {0})
  set_capacity tokens now rate = Bucket.reset (sub now (div tokens rate))

  unfoldable pub add_tokens : F64 → Limit → M S (Unit {0})
  add_tokens tokens limit = do _ ← Bucket.return_tokens tokens limit.rate; pure tt

  unfoldable pub saturating_consume_inner : F64 → F64 → Limit → M S F64
  saturating_consume_inner to_consume now limit =
      Bucket.consume limit.rate limit.burst now (up_to to_consume)

  unfoldable pub balance_at : F64 → Limit → M S F64
  balance_at time limit = Bucket.balance limit.rate limit.burst time

  -- The end of both borrowing loops: go into debt, and wait until it is paid.
  unfoldable pub borrow : F64 → F64 → Limit → M S F64
  borrow to_consume now limit = do
    _ ← Bucket.return_tokens (neg to_consume) limit.rate
    debt_paid ← Bucket.time_when_bucket limit.rate zero_f64
    pure (max (sub debt_paid now) zero_f64)

  -- `while to_consume > 0.0 { … }`: some nap time after borrowing, none if nothing was borrowed.
  unfoldable pub borrow_loop : ℕ → F64 → F64 → Limit → M S (Option F64)
  borrow_loop zero to_consume now limit = λ w. none
  borrow_loop (suc fuel) to_consume now limit =
      let body : M S (Option F64) = do
        consumed ← saturating_consume_inner to_consume now limit
        let again : M S (Option F64) = borrow_loop fuel (sub to_consume consumed) now limit
        let owe : M S (Option F64) = do nap ← borrow to_consume now limit; pure (some nap)
        if lt zero_f64 consumed then again else owe
      in if lt zero_f64 to_consume then body else pure none

  -- A round takes an interference off the list, and two rounds are enough when none is left.
  unfoldable pub consume_or_borrow : F64 → F64 → Limit → M S (Option F64)
  consume_or_borrow to_consume now limit w = borrow_loop (length w.env + 2) to_consume now limit w

module _ {S C : Type 0} ⦃t : TimeStorage S⦄ ⦃k : Clock C⦄ where
  unfoldable pub new : C → S
  new clock = t.new (k.datum clock)

  unfoldable pub reset : C → Limit → M S (Unit {0})
  reset clock limit = do
    let now = k.now clock
    available ← Bucket.balance limit.rate limit.burst now
    set_capacity (max available zero_f64) now limit.rate

  -- `to_consume` is a `NonZeroU32`: from 1 to 2^32 - 1.
  unfoldable pub consume : ℕ → C → Limit → M S (Option Tokens)
  consume to_consume clock limit = do
    let now = k.now clock
    consumed ← Bucket.consume limit.rate limit.burst now (all_or_nothing (of_int to_consume))
    pure (Tokens.new_checked consumed)

  unfoldable pub consume_one : C → Limit → M S (Option Tokens)
  consume_one clock limit = consume 1 clock limit

  unfoldable pub try_consume : ℕ → C → Limit → M S (Result Tokens RateLimited)
  try_consume n clock limit = do
    let to_consume = of_int n
    let now = k.now clock
    consumed ← Bucket.consume2 limit.rate limit.burst now (all_or_nothing to_consume)
    pure (or_retry now to_consume limit.rate consumed)

  unfoldable pub try_consume_one : C → Limit → M S (Result Tokens RateLimited)
  try_consume_one clock limit = try_consume 1 clock limit

  unfoldable pub saturating_consume : ℕ → C → Limit → M S (Option Tokens)
  saturating_consume to_consume clock limit = do
    consumed ← saturating_consume_inner (of_int to_consume) (k.now clock) limit
    pure (Tokens.new_checked consumed)

  unfoldable pub consume_with_borrow :
      ℕ → C → Limit → M S (Result (Option Nanos) ExceededBurstCapacity)
  consume_with_borrow n clock limit =
      let now = k.now clock in
      let to_consume = of_int n in
      let loop : M S (Result (Option Nanos) ExceededBurstCapacity) = do
        nap ← consume_or_borrow to_consume now limit
        pure (ok (elim nap [ none ↦ none | some nap_time ↦ Nanos.new_checked nap_time ]))
      in if lt limit.burst to_consume then pure (err exceeded_burst_capacity) else loop

  -- `none` for the whole is also the panic of `Duration::from_secs_f64`.
  unfoldable pub saturating_consume_with_borrow : ℕ → C → Limit → M S (Option Tokens × Duration)
  saturating_consume_with_borrow n clock limit = do
    let now = k.now clock
    let to_consume = min (of_int n) limit.burst
    nap ← consume_or_borrow to_consume now limit
    λ w. elim nap [
      | none ↦ some ((none, record { nanos = 0 }), w)
      | some nap_time ↦ elim (from_secs_f64 nap_time) [
        | none ↦ none
        | some d ↦ some ((Tokens.new_checked to_consume, d), w)
      ]
    ]

  unfoldable pub balance : C → Limit → M S F64
  balance clock limit = Bucket.balance limit.rate limit.burst (k.now clock)

  unfoldable pub available : C → Limit → M S F64
  available clock limit = do b ← balance clock limit; pure (max b zero_f64)
