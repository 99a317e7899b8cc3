-- ===== src/Stream.antt =====
-- src/futures/stream.rs: streams throttled by a token bucket.
-- The inner stream, tokio's cooperative budget and its sleeps are parameters, as is the task context,
-- which they read and change. Without the feature tokio-hrtime a pending delay is reset in place.
pub mod Order
pub mod Runs
pub mod Waits
pub mod Delay
pub mod Pace
pub mod Weigh
pub mod Charge
pub mod Rate
pub mod Client
pub mod Pays
pub mod Moves
pub mod Shared
pub mod Executor
pub mod Prompt
pub mod OnTime
pub mod Fresh
mod RateTests
mod OnTimeTests
mod SharedTests
pub mod Paused
mod Suite
pub mod Throttled
pub mod Tests
use gardal.Prelude.{ℕ, ◌*◌, ◌-◌, ◌^◌, false, Bool, true, Option, none, some, List, Result, ok, err}
use gardal.Float.Value.{F64, fin}
use gardal.Float.Duration.{Duration}
use gardal.Clock.Nanos.{to_duration}
use gardal.Clock.Source.{Clock}
use gardal.Limit.{Limit}
use gardal.Storage.Interface.{TimeStorage, Interference}
use gardal.Bucket
use gardal.Bucket.{TokenBucket}

pub data Poll (A : Type 0) : Type 0 where
  ready : A → Poll A
  pending : Poll A

-- `futures::Stream`, of items `Item`, polled in a context `X`.
pub record InnerStream (S Item X : Type 0) : Type 0 where
  pub poll_next : S → X → Poll (Option Item) × (S × X)

-- tokio's cooperative budget, its wakers, and its sleeps `D`.
pub record Runtime (X D : Type 0) : Type 0 where
  pub poll_proceed : X → Poll (Unit {0}) × X
  pub made_progress : X → X
  -- Where the guard of `poll_proceed` is dropped without progress, the budget is as before it.
  pub restore_budget : X → X → X
  pub wake_by_ref : X → X
  pub sleep : Duration → X → D
  pub reset : Duration → X → D → D
  pub poll : D → X → Poll (Unit {0}) × (D × X)

pub record WeightedStream (S ST C D Item : Type 0) : Type 0 where
  pub stream : S
  pub bucket : Option (TokenBucket ST C)
  pub weight_fn : Item → ℕ
  pub delay : Option D
  pub pending_item : Option Item

pub record ThrottledStream (S ST C D Item : Type 0) : Type 0 where
  pub weighted_stream : WeightedStream S ST C D Item

-- The stream of a poll, what is still to interfere with its bucket, and the context.
pub record Task (S ST C D X Item : Type 0) : Type 0 where
  pub this : WeightedStream S ST C D Item
  pub env : List Interference
  pub cx : X

-- A poll's answer and the task after it; `none` is a panic, or a poll that does not return.
abbrev pub Polled : Type 0 → Type 0 → Type 0
Polled Item T = Option (Poll (Option Item) × T)

-- `f64::MAX`
abbrev pub f64_max : F64
f64_max = fin false ((2 ^ 53 - 1) * 2 ^ 2045)

module _ {S ST C D Item : Type 0} where
  abbrev pub new : S → Option (TokenBucket ST C) → (Item → ℕ) → WeightedStream S ST C D Item
  new stream bucket weight_fn = record {
    stream = stream;
    bucket = bucket;
    weight_fn = weight_fn;
    delay = none;
    pending_item = none;
  }

  abbrev pub limit : WeightedStream S ST C D Item → Option Limit
  limit this = elim (this.bucket) [ none ↦ none | some b ↦ some b.limit ]

  abbrev pub has_pending_item : WeightedStream S ST C D Item → Bool
  has_pending_item this = elim (this.pending_item) [ none ↦ false | some _ ↦ true ]

  abbrev pub into_inner : WeightedStream S ST C D Item → S
  into_inner this = this.stream

  abbrev pub inner : WeightedStream S ST C D Item → S
  inner this = this.stream

  -- Every item weighs one token.
  abbrev pub throttled_new : S → Option (TokenBucket ST C) → ThrottledStream S ST C D Item
  throttled_new stream bucket = record { weighted_stream = new stream bucket (λ _. 1) }

module _ {S ST C D X Item : Type 0} ⦃t : TimeStorage ST⦄ ⦃k : Clock C⦄ ⦃i : InnerStream S Item X⦄
    ⦃r : Runtime X D⦄ where
  -- Leaves the poll, with the guard dropped.
  unfoldable pub leave :
      X → Poll (Option Item) → Task S ST C D X Item → Polled Item (Task S ST C D X Item)
  leave before x p = some (x, record p { cx = r.restore_budget before p.cx })

  -- `Poll::Ready(this.pending_item.take())`
  unfoldable pub take_pending : X → Task S ST C D X Item → Polled Item (Task S ST C D X Item)
  take_pending before p =
      leave before (ready p.this.pending_item)
        (record p { this = record p.this { pending_item = none } })

  -- A pending item waits for its delay.
  unfoldable pub deliver : X → Task S ST C D X Item → Polled Item (Task S ST C D X Item)
  deliver before p = elim (p.this.delay) [
    | none ↦ take_pending before p
    | some d ↦
        let (x, (d', cx)) = r.poll d p.cx in
        elim x [
          | ready _ ↦
              take_pending before (record p { this = record p.this { delay = none }; cx = cx })
          | pending ↦
              leave before pending (record p { this = record p.this { delay = some d' }; cx = cx })
        ]
  ]

  -- The item is stored, with its delay set up.
  unfoldable pub postpone :
      Item → Duration → Task S ST C D X Item → Polled Item (Task S ST C D X Item)
  postpone item duration p =
      let delay : D = elim (p.this.delay) [
        | some d ↦ r.reset duration p.cx d
        | none ↦ r.sleep duration p.cx
      ] in
      some (
        pending,
        record p {
          this = record p.this { pending_item = some item; delay = some delay };
          cx = r.made_progress (r.wake_by_ref p.cx);
        },
      )

  -- The item is paid for, with tokens to come where there are too few.
  unfoldable pub pay :
      TokenBucket ST C → Item → Task S ST C D X Item → Polled Item (Task S ST C D X Item)
  pay bucket item p =
      elim (Bucket.consume_with_borrow (p.this.weight_fn item)
        (record { cell = bucket; env = p.env })) [
          | none ↦ none
          | some (res, w) ↦
              let paid = record p { this = record p.this { bucket = some w.cell }; env = w.env } in
              elim res [
                | err _ ↦ none
                | ok none ↦ some (ready (some item), record paid { cx = r.made_progress paid.cx })
                | ok (some nanos) ↦ elim (to_duration nanos) [
                  | none ↦ none
                  | some duration ↦ postpone item duration paid
                ]
              ]
        ]

  unfoldable pub fetch :
      X → TokenBucket ST C → Task S ST C D X Item → Polled Item (Task S ST C D X Item)
  fetch before bucket p =
      let (x, (s, cx)) = i.poll_next p.this.stream p.cx in
      let p' = record p { this = record p.this { stream = s }; cx = cx } in
      elim x [
        | pending ↦ leave before pending p'
        | ready none ↦ leave before (ready none) p'
        | ready (some item) ↦ pay bucket item p'
      ]

  unfoldable pub pass_through : X → Task S ST C D X Item → Polled Item (Task S ST C D X Item)
  pass_through before p =
      let (x, (s, cx)) = i.poll_next p.this.stream p.cx in
      let p' = record p { this = record p.this { stream = s }; cx = cx } in
      elim x [
        | pending ↦ leave before pending p'
        | ready item ↦ some (ready item, record p' { cx = r.made_progress cx })
      ]

  unfoldable pub poll_next : Task S ST C D X Item → Polled Item (Task S ST C D X Item)
  poll_next p =
      let before = p.cx in
      let (proceed, cx) = r.poll_proceed before in
      let p' = record p { cx = cx } in
      elim proceed [
        | pending ↦ some (pending, p')
        | ready _ ↦ elim (p.this.bucket) [
          | none ↦ pass_through before p'
          | some bucket ↦ elim (p.this.pending_item) [
            | some _ ↦ deliver before p'
            | none ↦ fetch before bucket p'
          ]
        ]
      ]

  -- `f64::MAX` where there is no bucket.
  unfoldable pub available : Task S ST C D X Item → Option (F64 × Task S ST C D X Item)
  available p = elim (p.this.bucket) [
    | none ↦ some (f64_max, p)
    | some b ↦ elim (Bucket.available (record { cell = b; env = p.env })) [
      | none ↦ none
      | some (n, w) ↦
          some (n, record p { this = record p.this { bucket = some w.cell }; env = w.env })
    ]
  ]

  unfoldable pub add_tokens : F64 → Task S ST C D X Item → Option (Task S ST C D X Item)
  add_tokens tokens p = elim (p.this.bucket) [
    | none ↦ some p
    | some b ↦ elim (Bucket.add_tokens tokens (record { cell = b; env = p.env })) [
      | none ↦ none
      | some (_, w) ↦ some (record p { this = record p.this { bucket = some w.cell }; env = w.env })
    ]
  ]
