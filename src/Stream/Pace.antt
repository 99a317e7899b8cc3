-- ===== src/Stream/Pace.antt =====
-- src/futures/stream.rs: how fast a stream delivers, on the way down to the word that holds the zero time,
-- where no step rounds: what is kept between two polls.
use gardal.Prelude.{ℕ, ◌+◌, ◌^◌, ◌≤◌, ◌<◌, ◌≡◌}
use gardal.Float.Duration.{Duration}
use gardal.Clock.Source.{Clock}
use gardal.Limit.{Limit}
use gardal.Storage.Interface.{TimeStorage, IsStorage}
use gardal.RawBucket.Outcome.{IsNonZeroU32}
use gardal.RawBucket.Exact.{IsScale, time}
use gardal.Stream.Delay.{IsWholeNanos}
use gardal.Stream.{ready, InnerStream, Runtime}

-- What a runtime is held to: budget and polls know the time, which does not go back, and a sleep is not
-- over before its time.
pub record IsTimed (X D : Type 0) ⦃r : Runtime X D⦄ : Type 0 where
  pub nanos_at : X → ℕ
  pub due : D → ℕ
  pub proceed_at : (x : X) → nanos_at (r.poll_proceed x).1 ≡ nanos_at x
  pub sleep_due : (d : Duration) (x : X) → nanos_at x + d.nanos ≤ due (r.sleep d x)
  pub poll_due : (d : D) (x : X) → (r.poll d x).0 ≡ ready tt → due d ≤ nanos_at x
  pub poll_keeps : (d : D) (x : X) → due (r.poll d x).1.0 ≡ due d

-- A stream, its bucket and its runtime, where no step rounds: the storage is lawful, the rate a power of
-- two, the bucket's clock reads the time that it is told, a sleep is not over before its time, the
-- inner stream does not turn the time back, a unit of time is a whole number of nanoseconds, and an
-- item weighs 1 to 2^32 - 1 tokens.
pub record Setting (S ST C D X Item : Type 0) ⦃t : TimeStorage ST⦄ ⦃k : Clock C⦄
    ⦃i : InnerStream S Item X⦄ ⦃r : Runtime X D⦄ : Type 1 where
  pub l : IsStorage ST
  pub limit : Limit
  pub g : IsScale limit
  pub clock : ℕ → C
  pub clock_at : (a : ℕ) → a ≤ 2 ^ 53 → k.now (clock a) ≡ time limit g a
  pub timed : IsTimed X D
  pub inner_at : (s : S) (x : X) → timed.nanos_at x ≤ timed.nanos_at (i.poll_next s x).1.1
  pub per_unit : ℕ
  pub per_unit_pos : 0 < per_unit
  pub whole : IsWholeNanos limit g per_unit
  pub f : Item → ℕ
  pub f-IsNonZeroU32 : (x : Item) → IsNonZeroU32 (f x)
