-- ===== src/Bucket.antt =====
-- src/bucket.rs: `TokenBucket`, a raw bucket with its clock and its limit.
pub mod Alone
pub mod Relimit
mod RelimitTests
mod Asserts
mod Suite
mod OneByOne
mod Concurrent
mod ConcurrentTests
pub mod Tests
use gardal.Prelude.{ℕ, Option, none, some, Result}
use gardal.Float.Value.{F64, zero_f64}
use gardal.Float.Duration.{Duration}
use gardal.Clock.Nanos.{Nanos}
use gardal.Clock.Source.{Clock}
use gardal.Tokens.{Tokens}
use gardal.Limit.{Limit}
use gardal.Error.{RateLimited, ExceededBurstCapacity}
use gardal.Storage.Interface.{TimeStorage, M, ◌>>=◌, ◌>>◌}
use gardal.RawBucket

pub record TokenBucket (S C : Type 0) : Type 0 where
  pub bucket : S
  pub clock : C
  pub limit : Limit

-- `UNLIMITED_BUCKET`
abbrev pub unlimited_bucket : {S C : Type 0} → Option (TokenBucket S C)
unlimited_bucket = none

module _ {S C : Type 0} ⦃t : TimeStorage S⦄ ⦃k : Clock C⦄ where
  -- A method of the raw bucket, called with the fields `clock` and `limit`.
  unfoldable pub on_raw : {A : Type 0} → (C → Limit → M S A) → M (TokenBucket S C) A
  on_raw op w = elim (op w.cell.clock w.cell.limit (record { cell = w.cell.bucket; env = w.env })) [
    | none ↦ none
    | some (a, w') ↦ some (a, record { cell = record w.cell { bucket = w'.cell }; env = w'.env })
  ]

  -- `self.limit = limit`
  unfoldable pub set_limit : Limit → M (TokenBucket S C) (Unit {0})
  set_limit limit w = some (tt, record w { cell = record w.cell { limit = limit } })

  -- `RawTokenBucket::new`, at the clock's datum.
  unfoldable pub with_clock : Limit → C → TokenBucket S C
  with_clock limit clock = record { bucket = RawBucket.new clock; clock = clock; limit = limit }

  unfoldable pub new : Limit → C → TokenBucket S C
  new limit clock = record {
    bucket = RawBucket.with_zero_time zero_f64;
    clock = clock;
    limit = limit;
  }

  unfoldable pub with_datum : Limit → C → TokenBucket S C
  with_datum limit clock = record { bucket = RawBucket.new clock; clock = clock; limit = limit }

  unfoldable pub with_zero_time : Limit → C → F64 → TokenBucket S C
  with_zero_time limit clock zero_time = record {
    bucket = RawBucket.with_zero_time zero_time;
    clock = clock;
    limit = limit;
  }

  unfoldable pub reset : Limit → M (TokenBucket S C) (Unit {0})
  reset limit = do
    available ← on_raw (λ clock old. RawBucket.balance_at (k.now clock) old)
    set_limit limit
    on_raw (λ clock new. RawBucket.set_capacity available (k.now clock) new.rate)

  -- The bucket that it returns is the state that it leaves.
  unfoldable pub update_limit : Limit → M (TokenBucket S C) (Unit {0})
  update_limit limit = do
    available ← on_raw (λ clock old. RawBucket.balance_at (k.now clock) old)
    set_limit limit
    on_raw (λ clock new. RawBucket.set_capacity available (k.now clock) new.rate)

  unfoldable pub consume : ℕ → M (TokenBucket S C) (Option Tokens)
  consume to_consume = on_raw (RawBucket.consume to_consume)

  unfoldable pub consume_one : M (TokenBucket S C) (Option Tokens)
  consume_one = on_raw (RawBucket.consume 1)

  unfoldable pub try_consume_one : M (TokenBucket S C) (Result Tokens RateLimited)
  try_consume_one = on_raw (RawBucket.try_consume 1)

  unfoldable pub try_consume : ℕ → M (TokenBucket S C) (Result Tokens RateLimited)
  try_consume to_consume = on_raw (RawBucket.try_consume to_consume)

  unfoldable pub saturating_consume : ℕ → M (TokenBucket S C) (Option Tokens)
  saturating_consume to_consume = on_raw (RawBucket.saturating_consume to_consume)

  unfoldable pub add_tokens : F64 → M (TokenBucket S C) (Unit {0})
  add_tokens tokens = on_raw (λ _ limit. RawBucket.add_tokens tokens limit)

  unfoldable pub consume_with_borrow :
      ℕ → M (TokenBucket S C) (Result (Option Nanos) ExceededBurstCapacity)
  consume_with_borrow to_consume = on_raw (RawBucket.consume_with_borrow to_consume)

  unfoldable pub saturating_consume_with_borrow : ℕ → M (TokenBucket S C) (Option Tokens × Duration)
  saturating_consume_with_borrow to_consume =
      on_raw (RawBucket.saturating_consume_with_borrow to_consume)

  unfoldable pub available : M (TokenBucket S C) F64
  available = on_raw RawBucket.available

  unfoldable pub balance : M (TokenBucket S C) F64
  balance = on_raw RawBucket.balance

  unfoldable pub get_zero_time : M (TokenBucket S C) F64
  get_zero_time = on_raw (λ _ _. RawBucket.get_zero_time)
