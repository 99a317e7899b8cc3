-- ===== src/Stream/Throttled.antt =====
-- `ThrottledStream` of src/futures/stream.rs, a weighted stream whose items weigh one token each, and
-- the extension trait `StreamExt` of src/futures/mod.rs.
use gardal.Prelude.{ℕ, Option, none, some, List}
use gardal.Float.Value.{F64}
use gardal.Clock.Source.{Clock}
use gardal.Limit.{Limit}
use gardal.Storage.Interface.{TimeStorage, Interference}
use gardal.Bucket.{TokenBucket}
use gardal.Stream
use gardal.Stream.{InnerStream, Runtime, WeightedStream, ThrottledStream, Task, Poll, Polled}

module _ {S ST C D Item : Type 0} where
  -- `StreamExt::throttle`
  abbrev pub throttle : S → Option (TokenBucket ST C) → ThrottledStream S ST C D Item
  throttle stream bucket = Stream.throttled_new stream bucket

  -- `StreamExt::throttle_weighted`
  abbrev pub throttle_weighted : S → TokenBucket ST C → (Item → ℕ) → WeightedStream S ST C D Item
  throttle_weighted stream bucket weight_fn = Stream.new stream (some bucket) weight_fn

  abbrev pub limit : ThrottledStream S ST C D Item → Option Limit
  limit this = Stream.limit this.weighted_stream

  abbrev pub into_inner : ThrottledStream S ST C D Item → S
  into_inner this = Stream.into_inner this.weighted_stream

  abbrev pub inner : ThrottledStream S ST C D Item → S
  inner this = Stream.inner this.weighted_stream

-- A throttled stream, what is still to interfere with its bucket, and the context.
pub record ThrottledTask (S ST C D X Item : Type 0) : Type 0 where
  pub this : ThrottledStream S ST C D Item
  pub env : List Interference
  pub cx : X

module _ {S ST C D X Item : Type 0} ⦃t : TimeStorage ST⦄ ⦃k : Clock C⦄ ⦃i : InnerStream S Item X⦄
    ⦃r : Runtime X D⦄ where
  -- The weighted stream in it.
  abbrev pub weighted : ThrottledTask S ST C D X Item → Task S ST C D X Item
  weighted p = record { this = p.this.weighted_stream; env = p.env; cx = p.cx }

  abbrev pub throttled : Task S ST C D X Item → ThrottledTask S ST C D X Item
  throttled p = record { this = record { weighted_stream = p.this }; env = p.env; cx = p.cx }

  unfoldable pub poll_next :
      ThrottledTask S ST C D X Item → Polled Item (ThrottledTask S ST C D X Item)
  poll_next p = elim (Stream.poll_next (weighted p)) [
    | none ↦ none
    | some (x, q) ↦ some (x, throttled q)
  ]

  unfoldable pub available :
      ThrottledTask S ST C D X Item → Option (F64 × ThrottledTask S ST C D X Item)
  available p = elim (Stream.available (weighted p)) [
    | none ↦ none
    | some (n, q) ↦ some (n, throttled q)
  ]

  unfoldable pub add_tokens :
      F64 → ThrottledTask S ST C D X Item → Option (ThrottledTask S ST C D X Item)
  add_tokens tokens p = elim (Stream.add_tokens tokens (weighted p)) [
    | none ↦ none
    | some q ↦ some (throttled q)
  ]
