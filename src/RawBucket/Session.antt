-- ===== src/RawBucket/Session.antt =====
-- src/raw_bucket.rs: a run of calls of one bucket against the same run of the ideal bucket.
use gardal.Prelude.{
  ℕ, ap, sym, ◌≡◌, ◌==◌, Option, none, some, List, [], ◌∷◌, if◌then◌else◌, Result, ok, err,
}
use gardal.Float.Value.{F64}
use gardal.Float.Duration.{Duration, from_secs_f64}
use gardal.Clock.Nanos.{Nanos, from_secs_f64_unchecked}
use gardal.Clock.Source.{Clock}
use gardal.Tokens
use gardal.Tokens.{Tokens}
use gardal.Limit.{Limit}
use gardal.Error.{RateLimited, ExceededBurstCapacity, exceeded_burst_capacity}
use gardal.Ideal.Session.{
  Call, consume, try_consume, saturating_consume, consume_with_borrow,
  saturating_consume_with_borrow, add_tokens, available, Timed, Reply, taken, tried, lent,
  lent_part, added, level_is,
}
use gardal.Storage.Interface.{TimeStorage, M, pure, ◌>>=◌}
use gardal.RawBucket
use gardal.RawBucket.Exact.{IsScale, time, tokens}

-- The answers of the methods, in one type.
pub data Answer : Type 0 where
  for_taken : Option Tokens → Answer
  for_tried : Result Tokens RateLimited → Answer
  for_lent : Result (Option Nanos) ExceededBurstCapacity → Answer
  for_lent_part : Option Tokens × Duration → Answer
  for_added : Answer
  for_level : F64 → Answer

module _ {S C : Type 0} ⦃t : TimeStorage S⦄ ⦃k : Clock C⦄ (limit : Limit) (g : IsScale limit) where
  unfoldable pub perform : C → Call → M S Answer
  perform clock (consume n) = do a ← RawBucket.consume n clock limit; pure (for_taken a)
  perform clock (try_consume n) = do a ← RawBucket.try_consume n clock limit; pure (for_tried a)
  perform clock (saturating_consume n) = do
    a ← RawBucket.saturating_consume n clock limit
    pure (for_taken a)
  perform clock (consume_with_borrow n) = do
    a ← RawBucket.consume_with_borrow n clock limit
    pure (for_lent a)
  perform clock (saturating_consume_with_borrow n) = do
    a ← RawBucket.saturating_consume_with_borrow n clock limit
    pure (for_lent_part a)
  perform clock (add_tokens m) = do
    _ ← RawBucket.add_tokens (tokens limit g m) limit
    pure for_added
  perform clock available = do a ← RawBucket.available clock limit; pure (for_level a)

  -- The calls one after another, each at its time on the clock.
  unfoldable pub perform_all : (ℕ → C) → List Timed → M S (List Answer)
  perform_all clock [] = pure []
  perform_all clock (c ∷ cs) = do
    a ← perform (clock c.now) c.call
    rest ← perform_all clock cs
    pure (a ∷ rest)

module _ (limit : Limit) (g : IsScale limit) where
  abbrev pub in_seconds : ℕ → Nanos
  in_seconds a = from_secs_f64_unchecked (time limit g a)

  abbrev pub in_tokens : ℕ → Tokens
  in_tokens a = Tokens.new_unchecked (tokens limit g a)

  -- A `Duration` can hold so many units.
  abbrev pub HasDuration : ℕ → Type 0
  HasDuration a = (d : Duration) × (from_secs_f64 (time limit g a) ≡ some d)

  -- A nap of so many units, where a `Duration` can hold it.
  abbrev in_duration : ℕ → Duration
  in_duration a = elim (from_secs_f64 (time limit g a)) [ none ↦ record { nanos = 0 } | some d ↦ d ]

  pub in_duration_lem : (a : ℕ) (h : HasDuration a) → h.0 ≡ in_duration a
  in_duration_lem a (d, e) = ap (λ o. elim o [ none ↦ record { nanos = 0 } | some x ↦ x ]) (sym e)

  -- A reply of the ideal bucket as the answer of the program.
  abbrev pub render : Reply → Answer
  render (taken none) = for_taken none
  render (taken (some a)) = for_taken (some (in_tokens a))
  render (tried (ok a)) = for_tried (ok (in_tokens a))
  render (tried (err w)) = for_tried (err (record { earliest_retry_time = in_seconds w }))
  render (lent none) = for_lent (err exceeded_burst_capacity)
  render (lent (some nap)) = for_lent (ok (if nap == 0 then none else some (in_seconds nap)))
  render (lent_part a nap) =
      for_lent_part
        (if nap == 0 then (none, record { nanos = 0 }) else (some (in_tokens a), in_duration nap))
  render added = for_added
  render (level_is a) = for_level (tokens limit g a)

  abbrev pub render_all : List Reply → List Answer
  render_all [] = []
  render_all (r ∷ rs) = render r ∷ render_all rs
